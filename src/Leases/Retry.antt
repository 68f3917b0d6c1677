-- ===== src/Leases/Retry.antt =====
-- `run_with_sqlite_lock_retry` of backend/runtime/services/retry.py, the loop around a transaction.
use allies_foundry.Base.{
  ℕ, zero, suc, ◌+◌, ◌≤◌, ◌<◌, ◌≡◌, refl, subst, arith, Result, err, conflict,
}

-- One call of the operation: it ends with its value or with one of the service's exceptions, or
-- the database reports a lock, `is_lock_error`. An attempt that is locked has no effect.
pub data Call {ℓ} (A : Type ℓ) : Type ℓ where
  answered : A → Call A
  locked : Call A

-- `len(_LOCK_BACKOFF_SECONDS)`.
abbrev pub backoffs : ℕ
backoffs = 9

module _ {ℓ} {A : Type ℓ} (operation : ℕ → Call (Result A)) where
  -- The loop from `retry_index` on, with `left` backoffs ahead.
  unfoldable pub retry_from : ℕ → ℕ → Result A
  retry_from zero retry_index = elim (operation retry_index) [
    | answered r ↦ r
    | locked ↦ err conflict
  ]
  retry_from (suc left) retry_index = elim (operation retry_index) [
    | answered r ↦ r
    | locked ↦ retry_from left (suc retry_index)
  ]

  unfoldable pub run_with_sqlite_lock_retry : Result A
  run_with_sqlite_lock_retry = retry_from backoffs 0

module _ {ℓ} {A : Type ℓ} (operation : ℕ → Call (Result A)) where
  at_start :
      {start : ℕ} {c : Call (Result A)} (n : ℕ)
      → n ≡ 0
      → operation (start + n) ≡ c
      → operation start ≡ c
  at_start {start} {c} n z e = subst (λ k. operation k ≡ c) (omega (arith, z)) e

  later_answer :
      (left start n : ℕ) (r : Result A)
      → n ≤ left
      → ((i : ℕ) → i < n → operation (start + i) ≡ locked)
      → operation (start + n) ≡ answered r
      → retry_from operation left start ≡ r
  unfolding retry_from
  later_answer zero start n r le busy e = rw (retry_from, at_start n (omega (arith, le)) e) refl
  later_answer (suc left) start zero r le busy e =
      rw (retry_from, at_start zero (omega arith) e) refl
  later_answer (suc left) start (suc n) r le busy e =
      rw (retry_from, at_start zero (omega arith) (busy zero (omega arith)))
        (later_answer left (suc start) n r (omega (arith, le))
          (λ i lt. subst (λ k. operation k ≡ locked) (shift i) (busy (suc i) (omega (arith, lt))))
          (subst (λ k. operation k ≡ answered r) (shift n) e))
    where
      shift : (i : ℕ) → start + suc i ≡ suc start + i
      shift i = omega arith

  always_busy :
      (left start : ℕ)
      → ((i : ℕ) → i ≤ left → operation (start + i) ≡ locked)
      → retry_from operation left start ≡ err conflict
  unfolding retry_from
  always_busy zero start busy =
      rw (retry_from, at_start zero (omega arith) (busy zero (omega arith))) refl
  always_busy (suc left) start busy =
      rw (retry_from, at_start zero (omega arith) (busy zero (omega arith)))
        (always_busy left (suc start) λ i le.
          subst (λ k. operation k ≡ locked) (omega arith) (busy (suc i) (omega (arith, le))))

  -- The retried transaction gives the answer of its first call that does not meet a lock, if that
  -- is among the first ten calls.
  pub retry-answers :
      (n : ℕ) (r : Result A)
      → n ≤ backoffs
      → ((i : ℕ) → i < n → operation i ≡ locked)
      → operation n ≡ answered r
      → run_with_sqlite_lock_retry operation ≡ r
  unfolding run_with_sqlite_lock_retry
  retry-answers n r le busy e =
      later_answer backoffs 0 n r le
        (λ i lt. subst (λ k. operation k ≡ locked) (omega arith) (busy i lt))
        (subst (λ k. operation k ≡ answered r) (omega arith) e)

  -- If all ten calls meet a lock, the retried transaction raises a conflict.
  pub retry-gives_up :
      ((i : ℕ) → i ≤ backoffs → operation i ≡ locked)
      → run_with_sqlite_lock_retry operation ≡ err conflict
  unfolding run_with_sqlite_lock_retry
  retry-gives_up busy =
      always_busy backoffs 0 λ i le. subst (λ k. operation k ≡ locked) (omega arith) (busy i le)
