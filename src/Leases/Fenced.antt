-- ===== src/Leases/Fenced.antt =====
-- Fencing one profile leaves none of its leases of the retired generation active or stopping.
use allies_foundry.Base.{
  ℕ, ◌≡◌, refl, subst, Bool, true, false, ◌||◌, is_some, List, [], ◌∷◌, ◌==◌, select, map, member,
  arith, inl, inr, Bool-cases, All, All-update_where_to, update_where, find_first, find_first-All,
  or_raise, Ensures, Ensures->>=, Ensures-bind, Ensures-or_raise, Ensures-×, Ensures-map,
  does_not_exist,
}
use allies_foundry.Models.{Store, Attempt, Execution, Lease, LeaseState, is_unresolved, is_live}
use allies_foundry.Approvals.Service.{find_execution, cancel_live_approval_requests}
use allies_foundry.Leases.Rows.{find_profile}
use allies_foundry.Leases.Fence.{
  fence_profile, fence_leases, fence_lease, retire, is_retired, checkpointed_attempts, is_running,
}
use allies_foundry.Leases.Moves.{LeaseMoves, Moved, IsExclusive, Moved-IsExclusive}
use allies_foundry.Leases.Moving.{Moves, same_row}
use allies_foundry.Leases.Retiring.{fence_lease-Moves}

pub any_row {ℓ} : {A : Type ℓ} (xs : List A) → All (λ _. Unit {0}) xs
any_row [] = tt
any_row (x ∷ xs) = (tt, any_row xs)

module _ (source k : ℕ) where
  -- The leases that the filter still finds are among these.
  abbrev IsPending : List ℕ → List Lease → Type 0
  IsPending ids leases = All (λ l. is_retired k source l ≡ true → member l.id ids ≡ true) leases

  abbrev IsClear : List Lease → Type 0
  IsClear leases = All (λ l. is_retired k source l ≡ false) leases

  is_retired-LeaseMoves :
      (a b : Lease) → LeaseMoves a b → is_retired k source a ≡ false → is_retired k source b ≡ false
  unfolding is_retired
  is_retired-LeaseMoves a b h e = ground arith

  pub Moved-IsClear : (xs ys : List Lease) → Moved xs ys → IsClear xs → IsClear ys
  Moved-IsClear [] [] h c = tt
  Moved-IsClear [] (y ∷ ys) h c = elim h [ ]
  Moved-IsClear (x ∷ xs) [] h c = elim h [ ]
  Moved-IsClear (x ∷ xs) (y ∷ ys) h c =
      (is_retired-LeaseMoves x y h.0 c.0, Moved-IsClear xs ys h.1 c.1)

  -- At the start they are all among the selected.
  weaken : (j : ℕ) (js : List ℕ) (xs : List Lease) → IsPending js xs → IsPending (j ∷ js) xs
  unfolding member
  weaken j js [] h = tt
  weaken j js (x ∷ xs) h = (λ e. ground (arith, h.0 e), weaken j js xs h.1)

  abbrev keys : List Lease → List ℕ
  keys xs = map (λ l. l.id) (select (is_retired k source) xs)

  keys-selected :
      (x : Lease) (xs : List Lease) → is_retired k source x ≡ true → x.id ∷ keys xs ≡ keys (x ∷ xs)
  keys-selected x xs c = rw c refl

  keys-left_out :
      (x : Lease) (xs : List Lease) → is_retired k source x ≡ false → keys xs ≡ keys (x ∷ xs)
  keys-left_out x xs c = rw c refl

  keys-IsPending : (xs : List Lease) → IsPending (keys xs) xs
  unfolding member
  keys-IsPending [] = tt
  keys-IsPending (x ∷ xs) = elim (Bool-cases (is_retired k source x)) [
    | inl c ↦
        subst (λ (js : List ℕ). IsPending js (x ∷ xs)) (keys-selected x xs c)
          (λ _. ground arith, weaken x.id (keys xs) xs (keys-IsPending xs))
    | inr c ↦
        subst (λ (js : List ℕ). IsPending js (x ∷ xs)) (keys-left_out x xs c)
          (λ e. cc, keys-IsPending xs)
  ]

  -- A lease of the list is found resolved, or it is fenced.
  skip-IsPending :
      (j : ℕ) (js : List ℕ) (l : Lease) (xs : List Lease)
      → (l.id == j) ≡ true
      → is_unresolved l.state ≡ false
      → All (λ x. (x.id == l.id) ≡ true → x.state ≡ l.state) xs
      → IsPending (j ∷ js) xs
      → IsPending js xs
  unfolding is_retired member
  skip-IsPending j js l [] e r same h = tt
  skip-IsPending j js l (x ∷ xs) e r same h =
      (ground (arith, same.0, h.0), skip-IsPending j js l xs e r same.1 h.1)

  fence-IsPending :
      (j : ℕ) (js : List ℕ) (l : Lease) (xs : List Lease)
      → (l.id == j) ≡ true
      → IsPending (j ∷ js) xs
      → IsPending js
          (update_where (λ x. x.id == l.id) (λ x. record x { state = LeaseState.fenced }) xs)
  unfolding is_retired member
  fence-IsPending j js l xs same h =
      All-update_where_to _ _ (λ x. x.id == l.id) _ (λ x c p e. ground (arith, e))
        (λ x c p e. ground (arith, same, c, p e)) xs h

  retire-IsPending :
      (j : ℕ) (js : List ℕ) (l : Lease) (a : Attempt) (e : Execution) (c : Bool) (s : Store)
      → (l.id == j) ≡ true
      → IsPending (j ∷ js) s.leases
      → IsPending js (retire l a e c s).0.leases
  unfolding retire
  retire-IsPending j js l a e c s same h = elim (Bool-cases (is_live a.status)) [
    | inl d ↦ elim (Bool-cases (is_running e.status)) [
      | inl f ↦ rw (d, f) (fence-IsPending j js l s.leases same h)
      | inr f ↦ rw (d, f) (fence-IsPending j js l s.leases same h)
    ]
    | inr d ↦ rw d (fence-IsPending j js l s.leases same h)
  ]

  abbrev Pending {ℓ} : {B : Type ℓ} → List ℕ → Store × B → Type 0
  Pending js done = IsPending js done.0.leases

  fence_lease-Pending :
      (ids : List ℕ) (j : ℕ) (js : List ℕ) (now : ℕ) (s : Store)
      → IsExclusive s.leases
      → IsPending (j ∷ js) s.leases
      → Ensures (Pending js) (fence_lease ids j now s)
  unfolding fence_lease cancel_live_approval_requests
  fence_lease-Pending ids j js now s ex h =
      Ensures-or_raise (Pending js) (find_first (λ l. l.id == j) s.leases) does_not_exist _
        λ lease found.
          let key =
            (find_first-All (λ _. Unit {0}) (λ (l : Lease). l.id == j) s.leases lease
              (any_row s.leases) found).1 in
          elim (Bool-cases (is_unresolved lease.state)) [
            | inl c ↦ rw c (
                Ensures-bind (Pending js)
                  (or_raise (find_first (λ a. a.id == lease.attempt_id) s.attempts) does_not_exist)
                  _
                  λ attempt.
                    Ensures-bind (Pending js)
                      (or_raise (find_execution attempt.execution_id s) does_not_exist) _
                      λ execution.
                        retire-IsPending j js lease attempt execution
                          (member attempt.id ids || is_some attempt.session_request_digest) s key h)
            | inr c ↦
                rw c
                  (skip-IsPending j js lease s.leases key c (same_row _ lease s.leases ex found) h)
          ]

  fence_leases-Pending :
      (ids js : List ℕ) (now : ℕ) (s : Store)
      → IsExclusive s.leases
      → IsPending js s.leases
      → Ensures (Pending []) (fence_leases ids js now s)
  unfolding fence_leases
  fence_leases-Pending ids [] now s ex h = h
  fence_leases-Pending ids (j ∷ js) now s ex h =
      Ensures->>= (λ first. Moves s first × Pending js first) (Pending []) (fence_lease ids j now s)
        _
        (Ensures-× (Moves s) (Pending js) (fence_lease ids j now s) (fence_lease-Moves ids j now s)
          (fence_lease-Pending ids j js now s ex h))
        λ first f.
          Ensures->>= (Pending []) (Pending []) (fence_leases ids js now first.0) _
            (fence_leases-Pending ids js now first.0
              (Moved-IsExclusive s.leases first.0.leases f.0 ex) f.1)
            λ rest r. r

  none_pending : (xs : List Lease) → IsPending [] xs → IsClear xs
  unfolding member
  none_pending [] h = tt
  none_pending (x ∷ xs) h = (ground (arith, h.0), none_pending xs h.1)

  abbrev pub Clear {ℓ} : {B : Type ℓ} → Store × B → Type 0
  Clear done = IsClear done.0.leases

  pub fence_profile-Clear :
      (now : ℕ) (s : Store) → IsExclusive s.leases → Ensures Clear (fence_profile source k now s)
  unfolding fence_profile
  fence_profile-Clear now s ex =
      Ensures-bind Clear (or_raise (find_profile k s) does_not_exist) _ λ _.
        let ids = keys s.leases in
        let seen = checkpointed_attempts (select (is_retired k source) s.leases) s.events in
        Ensures-map (Pending []) Clear (fence_leases seen ids now s) (λ d. none_pending d.0.leases)
          (fence_leases-Pending seen ids now s ex (keys-IsPending s.leases))
