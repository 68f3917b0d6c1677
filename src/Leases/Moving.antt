-- ===== src/Leases/Moving.antt =====
-- Every service of leases.py and attempts.py that creates no lease moves each lease forward.
use allies_foundry.Base.{
  ℕ, ◌≡◌, refl, subst, Bool, true, false, some, List, [], ◌∷◌, ◌==◌, if◌then◌else◌, ltb, arith, inl,
  inr, Bool-cases, All, find_first, or_raise, ensure, Ensures, Ensures-bind, fenced, lease_conflict,
}
use allies_foundry.Models.{
  Store, Lease, LeaseState, RuntimeContext, is_active, is_unresolved, profile_allows_runtime_write,
}
use allies_foundry.Approvals.Service.{find_lease}
use allies_foundry.Leases.Rows.{lock_rows, save_lease_state}
use allies_foundry.Leases.Service.{renew_lease, clashes, clashes_any}
use allies_foundry.Leases.Moves.{LeaseMoves, Moved, IsExclusive, Moved-refl, Moved-update_where}

every_row {ℓ} : (P : Lease → Type ℓ) → ((x : Lease) → P x) → (xs : List Lease) → All P xs
every_row P f [] = tt
every_row P f (x ∷ xs) = (f x, every_row P f xs)

pub Moved-resolve :
    (l : Lease) (state : LeaseState) (s : Store)
    → is_unresolved state ≡ false
    → Moved s.leases (save_lease_state l state s).leases
Moved-resolve l state s h =
    Moved-update_where (λ x. x.id == l.id) (λ x. record x { state = state }) s.leases
      (every_row _ (λ x _. ground (arith, h)) s.leases)

abbrev pub Moves {ℓ} : {B : Type ℓ} → Store → Store × B → Type 0
Moves s done = Moved s.leases done.0.leases

pub renew-Moves :
    (context : RuntimeContext) (k token now : ℕ) (s : Store)
    → Ensures (Moves s) (renew_lease context k token now s)
unfolding renew_lease
renew-Moves context k token now s =
    Ensures-bind (Moves s) (lock_rows (λ _. true) context k s) _ λ locked.
      Ensures-bind (Moves s) (ensure (profile_allows_runtime_write locked.profile) lease_conflict) _
        λ _.
          Ensures-bind (Moves s) (or_raise (find_lease locked.attempt.id s) lease_conflict) _
            λ lease.
              Ensures-bind (Moves s) (ensure (lease.token_digest == token) lease_conflict) _ λ _.
                Ensures-bind (Moves s)
                  (ensure (lease.machine_generation == locked.workspace.machine_generation) fenced)
                  _
                  λ _. Ensures-bind (Moves s) (ensure (is_active lease.state) lease_conflict) _ λ _.
                    Ensures-bind (Moves s) (ensure (ltb now lease.expires_at) lease_conflict) _ λ _.
                      Moved-update_where (λ l. l.id == lease.id) _ s.leases
                        (every_row _ (λ x _. ground arith) s.leases)

apart_row :
    (l : Lease) (xs : List Lease)
    → clashes_any l xs ≡ false
    → All (λ x. (x.id == l.id) ≡ true → x.state ≡ l.state) xs
unfolding clashes_any clashes
apart_row l [] c = tt
apart_row l (x ∷ xs) c = (λ h. ground (arith, c, h), apart_row l xs (ground (arith, c)))

apart_found :
    (p : Lease → Bool) (x l : Lease) (xs : List Lease)
    → clashes_any x xs ≡ false
    → find_first p xs ≡ some l
    → (x.id == l.id) ≡ false
unfolding clashes_any clashes find_first
apart_found p x l [] c f = cc
apart_found p x l (y ∷ ys) c f = elim (Bool-cases (p y)) [
  | inl h ↦ ground (arith, c, f, h)
  | inr h ↦ apart_found p x l ys (ground (arith, c)) (ground (arith, f, h))
]

-- The row with a key that was found is the only one.
pub same_row :
    (p : Lease → Bool) (l : Lease) (xs : List Lease)
    → IsExclusive xs
    → find_first p xs ≡ some l
    → All (λ x. (x.id == l.id) ≡ true → x.state ≡ l.state) xs
unfolding find_first
same_row p l [] e f = tt
same_row p l (x ∷ xs) e f = elim (Bool-cases (p x)) [
  | inl h ↦
      let same : x ≡ l = ground (arith, h, f) in
      subst (λ z. All (λ y. (y.id == z.id) ≡ true → y.state ≡ z.state) (x ∷ xs)) same
        (λ _. refl, apart_row x xs e.0)
  | inr h ↦
      let found : find_first p xs ≡ some l = ground (arith, h, f) in
      (λ c. ground (arith, apart_found p x l xs e.0 found), same_row p l xs e.1 found)
]

may_stop :
    (l : Lease)
    → is_active l.state ≡ true
    → (xs : List Lease) → All (λ x. (x.id == l.id) ≡ true → x.state ≡ l.state) xs
    → All (λ x. (x.id == l.id) ≡ true → LeaseMoves x (record x { state = LeaseState.stopping })) xs
may_stop l c [] h = tt
may_stop l c (x ∷ xs) h = (λ e. ground (arith, h.0 e, c), may_stop l c xs h.1)

-- An active lease that was found may be stopped.
pub Moved-stopping :
    (p : Lease → Bool) (l : Lease) (s : Store)
    → IsExclusive s.leases
    → find_first p s.leases ≡ some l
    → Moved s.leases
        (if is_active l.state then save_lease_state l LeaseState.stopping s else s).leases
Moved-stopping p l s e f = elim (Bool-cases (is_active l.state)) [
  | inl c ↦ rw c (
      Moved-update_where (λ x. x.id == l.id) (λ x. record x { state = LeaseState.stopping })
        s.leases (may_stop l c s.leases (same_row p l s.leases e f)))
  | inr c ↦ rw c (Moved-refl s.leases)
]
