-- ===== src/Delivery/Timing.antt =====
-- The waits of a row: the backoff after a failure, and the patience with a missing predecessor.
use allies_foundry.Base.{
  ℕ, zero, suc, ◌+◌, ◌-◌, ◌*◌, ◌^◌, ◌≤◌, ◌<◌, min, ◌≡◌, refl, ap, ◌||◌, not, Option, none, some,
  inl, inr, arith, ltb, ok, Ensures, Ensures->>=, Ensures-ok, Bool-cases,
}
use native.Mathlib.Nat.{pow-suc}
use allies_foundry.Delivery.Row.{Row, pending, save, seconds}
use allies_foundry.Delivery.Marking.{backoff, defer_row, is_current, or_now}
use allies_foundry.Delivery.Validity.{IsValid, save-Ensures}

pow_pos : (n : ℕ) → 0 < 2 ^ n
pow_pos zero = omega arith
pow_pos (suc n) = rw pow-suc (omega (arith, pow_pos n))

pow_double : (n : ℕ) → 2 ^ suc n ≡ 2 * 2 ^ n
pow_double n = rw pow-suc (omega arith)

jitter-le : (base jitter : ℕ) → jitter < 1000000 → base * jitter ≤ base * 1000000
jitter-le base jitter h = grind arith

pred_suc : (n : ℕ) → suc n - 1 ≡ n
pred_suc n = omega arith

-- With the jitter below one, the wait after a failed attempt is at least a second, at least the
-- doubling base of the attempt, which is capped at 300 seconds, and at most a quarter above that
-- base, and so at most 375 seconds.
pub backoff_bounds :
    (attempt jitter : ℕ)
    → jitter < 1000000
    → let base = min 300 (2 ^ (attempt - 1)) in
      (seconds 1 ≤ backoff attempt jitter)
      × (seconds base ≤ backoff attempt jitter)
      × (4 * backoff attempt jitter ≤ 5 * seconds base)
      × (backoff attempt jitter ≤ seconds 375)
unfolding backoff
backoff_bounds zero jitter h = omega arith
backoff_bounds (suc n) jitter h = omega (
  arith,
  pow_pos n,
  pow_double n,
  jitter-le (min 300 (2 ^ (suc n - 1))) jitter h,
  ap (λ (k : ℕ). 2 ^ k) (pred_suc n),
)

-- What a deferral leaves.
abbrev Deferred : Row → ℕ → Row → Type 0
Deferred p t s =
    (g : ℕ) × (s.sequence_gap_since ≡ some g)
    × ((g' : ℕ) → p.sequence_gap_since ≡ some g' → g' ≡ g)
    × (t ≤ g + seconds 1800)
    × (s.delivery_attempts + 1 ≡ p.delivery_attempts)
    × (s.next_attempt_at ≡ t + seconds 15)
    × (s.state ≡ pending)
    × (s.envelope_bytes ≡ p.envelope_bytes)

abbrev Deferral : Row → ℕ → Option Row → Type 0
Deferral p t none = Unit
Deferral p t (some s) = Deferred p t s

deferral :
    (p : Row) (attempt cycle t : ℕ)
    → IsValid p
    → Ensures (Deferral p t) (defer_row p attempt cycle t)
unfolding defer_row
deferral p attempt cycle t v =
    elim (Bool-cases (
      not (is_current p attempt cycle) || ltb (seconds 1800) (t - or_now p.sequence_gap_since t))) [
        | inl c ↦ rw c tt
        | inr c ↦ rw c (
            Ensures->>= (Deferred p t) (Deferral p t) (save p _) _
              (save-Ensures (Deferred p t) p _ λ s. (
                or_now p.sequence_gap_since t,
                refl,
                ground arith,
                ground arith,
                ground arith,
                refl,
                refl,
                refl,
              ))
              λ s u. u)
      ]

-- A deferral of a valid row gives back the attempt that the claim spent, keeps the envelope, and
-- retries in fifteen seconds. It happens only within thirty minutes of the first report of the gap, which the row
-- remembers: a later report does not move it.
pub defer_row-patience :
    (p s : Row) (attempt cycle t : ℕ)
    → IsValid p
    → defer_row p attempt cycle t ≡ ok (some s)
    → (g : ℕ) × (s.sequence_gap_since ≡ some g)
      × ((g' : ℕ) → p.sequence_gap_since ≡ some g' → g' ≡ g)
      × (t ≤ g + seconds 1800)
      × (s.delivery_attempts + 1 ≡ p.delivery_attempts)
      × (s.next_attempt_at ≡ t + seconds 15)
      × (s.state ≡ pending)
      × (s.envelope_bytes ≡ p.envelope_bytes)
defer_row-patience p s attempt cycle t v e =
    Ensures-ok (Deferral p t) (defer_row p attempt cycle t) (deferral p attempt cycle t v) e
