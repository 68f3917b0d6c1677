-- ===== src/Claims/Exclusive.antt =====
-- The test of the scope keeps a claim clear of the constraints of the lease table.
use allies_foundry.Base.{
  ℕ, ◌≡◌, ◌≢◌, ◌+◌, ◌^◌, ◌++◌, ◌>>◌, ltb, refl, sym, subst, true, false, ◌||◌, Bool, Option, none,
  some, is_some, List, [], ◌∷◌, ◌==◌, arith, inl, inr, Bool-cases, if◌then◌else◌, find_first,
  Result, ok, err, ◌>>=◌, refuse, ensure, validation, idempotency_conflict, integrity_error,
}
use allies_foundry.Models.{
  Store, Workspace, RuntimeProfile, Execution, Attempt, Lease, is_unresolved,
}
use allies_foundry.Leases.Rows.{validate_token_digest}
use allies_foundry.Leases.Service.{clashes, clashes_any}
use allies_foundry.Events.Appended.{is_some-false}
use allies_foundry.Claims.Ready.{Settings}
use allies_foundry.Claims.Candidate.{
  NewKeys, scope_of, claim_from_records, claim_attempt, create_attempt, new_attempt, start_work,
  attempt_clashes, latest_number,
}
use allies_foundry.Claims.Granting.{
  passed, claimed, retake_lease, create_lease, new_lease, grant_lease, acquire, grant, holds_scope,
  take_candidate,
}

-- A row that has one of the new values.
abbrev pub has_value : ℕ → ℕ → ℕ → Lease → Bool
has_value id attempt_id token_digest l =
    l.id == id || l.attempt_id == attempt_id || l.token_digest == token_digest

-- Where no row has the new values or holds the scope, a new lease of the scope clashes with no row.
no_clash :
    (id claim_id : ℕ) (workspace : Workspace) (profile : RuntimeProfile) (attempt : Attempt)
    (scope token_digest now : ℕ) (ls : List Lease)
    → find_first (has_value id attempt.id token_digest) ls ≡ none
    → find_first (holds_scope profile.id scope) ls ≡ none
    → clashes_any (new_lease id claim_id workspace profile attempt scope token_digest now) ls
      ≡ false
unfolding clashes_any clashes find_first
no_clash id claim_id workspace profile attempt scope token_digest now [] h k = refl
no_clash id claim_id workspace profile attempt scope token_digest now (l ∷ ls) h k =
    elim (Bool-cases (has_value id attempt.id token_digest l)) [
      | inl c ↦ ground (arith, c, h)
      | inr c ↦ elim (Bool-cases (holds_scope profile.id scope l)) [
        | inl d ↦ ground (arith, d, k)
        | inr d ↦
            let rest =
              no_clash id claim_id workspace profile attempt scope token_digest now ls
                (ground (arith, c, h)) (ground (arith, d, k)) in
            rw rest (ground (arith, c, d))
      ]
    ]

no_lease :
    (id attempt_id token_digest : ℕ) (ls : List Lease)
    → find_first (has_value id attempt_id token_digest) ls ≡ none
    → find_first (λ l. l.attempt_id == attempt_id) ls ≡ none
unfolding find_first
no_lease id attempt_id token_digest [] h = refl
no_lease id attempt_id token_digest (l ∷ ls) h =
    elim (Bool-cases (has_value id attempt_id token_digest l)) [
      | inl c ↦ ground (arith, c, h)
      | inr c ↦
          let miss : (l.attempt_id == attempt_id) ≡ false = ground (arith, c) in
          rw miss (no_lease id attempt_id token_digest ls (ground (arith, c, h)))
    ]

-- A result that satisfies a predicate, or an exception that is not the database's.
abbrev Accepts {ℓ} : {A : Type ℓ} → (A → Type 0) → Result A → Type 0
Accepts P (ok a) = P a
Accepts P (err e) = e ≢ integrity_error

Accepts-bind {ℓ κ} :
    {A : Type ℓ} {B : Type κ} (P : A → Type 0) (Q : B → Type 0) (m : Result A) (f : A → Result B)
    → Accepts P m
    → ((a : A) → P a → Accepts Q (f a))
    → Accepts Q (m >>= f)
Accepts-bind P Q (ok a) f h k = k a h
Accepts-bind P Q (err e) f h k = h

Accepts-any {ℓ} : {A : Type ℓ} (m : Result A) → Accepts (λ _. Unit {0}) m → m ≢ err integrity_error
Accepts-any (ok a) h = λ e. cc
Accepts-any (err x) h = λ e. h (let same : x ≡ integrity_error = cc in same)

Accepts-ensure : (b : Bool) → Accepts (λ _. Unit {0}) (ensure b validation)
Accepts-ensure true = tt
Accepts-ensure false = λ e. cc

Accepts-refuse : (b : Bool) → Accepts (λ _. Unit {0}) (refuse b idempotency_conflict)
Accepts-refuse true = λ e. cc
Accepts-refuse false = tt

abbrev token_digest_of : Settings → ℕ → ℕ → Workspace → ℕ
token_digest_of settings claim_id attempt_id workspace =
    settings.digest (settings.claim_token claim_id attempt_id workspace.machine_generation)

grant_lease-Accepts :
    (id claim_id : ℕ) (workspace : Workspace) (profile : RuntimeProfile) (attempt : Attempt)
    (scope token_digest now : ℕ) (s : Store)
    → find_first (has_value id attempt.id token_digest) s.leases ≡ none
    → find_first (holds_scope profile.id scope) s.leases ≡ none
    → Accepts
        (λ _. Unit {0})
        (grant_lease id claim_id workspace profile attempt scope token_digest now s)
unfolding grant_lease create_lease validate_token_digest
grant_lease-Accepts id claim_id workspace profile attempt scope token_digest now s h k =
    let clear =
      no_clash id claim_id workspace profile attempt scope token_digest now s.leases h k in
    subst
      (λ o.
        Accepts (λ _. Unit {0})
          (elim o [
            | none ↦
                create_lease id claim_id workspace profile attempt scope token_digest now s
                >>= λ created. ok (some created)
            | some lease ↦
                if is_unresolved lease.state
                then ok none
                else (retake_lease claim_id workspace lease token_digest now s >>= λ granted.
                    ok (some granted))
          ]))
      (sym (no_lease id attempt.id token_digest s.leases h))
      (Accepts-bind (λ _. Unit {0}) (λ _. Unit {0})
        (create_lease id claim_id workspace profile attempt scope token_digest now s) _
        (Accepts-bind (λ _. Unit {0}) (λ _. Unit {0}) (validate_token_digest token_digest) _
          (Accepts-ensure (ltb token_digest (2 ^ 256)))
          (λ _ _.
            subst
              (λ b.
                Accepts {A = Store × Lease} (λ _. Unit {0})
                  (refuse b integrity_error
                    >> ok (
                      record s {
                        leases =
                            s.leases
                            ++ new_lease id claim_id workspace profile attempt scope token_digest
                                now
                              ∷ [];
                      },
                      new_lease id claim_id workspace profile attempt scope token_digest now,
                    )))
              (sym clear) tt))
        λ _ _. tt)

grant-Accepts :
    (settings : Settings) (keys : NewKeys) (claim_id : ℕ) (workspace : Workspace)
    (profile : RuntimeProfile) (execution : Execution) (attempt : Attempt) (now : ℕ) (s : Store)
    → find_first
        (has_value keys.lease attempt.id (token_digest_of settings claim_id attempt.id workspace))
        s.leases
      ≡ none
    → find_first (holds_scope profile.id (scope_of none)) s.leases ≡ none
    → Accepts
        (λ _. Unit {0})
        (grant settings keys claim_id workspace profile execution none attempt now s)
unfolding grant acquire
grant-Accepts settings keys claim_id workspace profile execution attempt now s h k =
    let digest = token_digest_of settings claim_id attempt.id workspace in
    Accepts-bind (λ _. Unit {0}) (λ _. Unit {0})
      (grant_lease keys.lease claim_id workspace profile attempt (scope_of none) digest now s) _
      (grant_lease-Accepts keys.lease claim_id workspace profile attempt (scope_of none) digest now
        s h k)
      λ o _. granted o
  where
    granted :
        (o : Option (Store × Lease))
        → Accepts
            (λ _. Unit {0})
            (elim o [
              | none ↦ ok (passed s)
              | some done ↦
                  acquire keys.acquisition claim_id workspace none done.1
                    (token_digest_of settings claim_id attempt.id workspace)
                    done.0
                  >>= λ acquired. ok (
                      claimed acquired.0 (
                        claim_from_records settings attempt execution done.1
                          (some
                            (settings.claim_token claim_id attempt.id workspace.machine_generation))
                          acquired.1
                          acquired.0))
            ])
    granted none = tt
    granted (some done) = tt

-- A new attempt leaves the leases alone.
IsPrepared : ℕ → Store → Option (Store × Attempt) → Type 0
IsPrepared id s none = Unit
IsPrepared id s (some done) = (done.1.id ≡ id) × (done.0.leases ≡ s.leases)

claim_attempt-Accepts :
    (id claim_id : ℕ) (workspace : Workspace) (execution : Execution) (now : ℕ) (s : Store)
    → Accepts (IsPrepared id s) (claim_attempt id claim_id workspace execution none now s)
unfolding claim_attempt create_attempt new_attempt IsPrepared
claim_attempt-Accepts id claim_id workspace execution now s =
    let attempt =
      new_attempt id execution (latest_number execution.id s.attempts + 1)
        workspace.machine_generation (some claim_id) now in
    Accepts-bind (λ (done : Store × Attempt). IsPrepared id s (some done)) (IsPrepared id s)
      (create_attempt id claim_id workspace execution none now s) _
      (Accepts-bind (λ _. Unit {0}) (λ (done : Store × Attempt). IsPrepared id s (some done))
        (refuse (is_some (find_first (attempt_clashes attempt) s.attempts)) idempotency_conflict) _
        (Accepts-refuse (is_some (find_first (attempt_clashes attempt) s.attempts)))
        (λ _ _. (refl, refl)))
      λ done h. h

taken-Accepts :
    (settings : Settings) (keys : NewKeys) (claim_id : ℕ) (workspace : Workspace)
    (profile : RuntimeProfile) (execution : Execution) (now : ℕ) (s : Store)
    (done : Store × Attempt)
    → find_first
        (has_value keys.lease keys.attempt
          (token_digest_of settings claim_id keys.attempt workspace))
        s.leases
      ≡ none
    → find_first (holds_scope profile.id (scope_of none)) s.leases ≡ none
    → IsPrepared keys.attempt s (some done)
    → Accepts
        (λ _. Unit {0})
        (grant settings keys claim_id workspace profile execution none done.1 now
          (start_work workspace execution none done.1 done.0))
unfolding IsPrepared start_work
taken-Accepts settings keys claim_id workspace profile execution now s done h k p =
    grant-Accepts settings keys claim_id workspace profile execution done.1 now _ (rw (p.0, p.1) h)
      (rw p.1 k)

-- A claim of work that belongs to no routine never ends in an `IntegrityError` of the lease table,
-- whatever leases the profile has, be they in the scope of the work or not. The condition is that no
-- lease has the new key, the new attempt or the digest of the new token.
pub take_candidate-accepted :
    (settings : Settings) (keys : NewKeys) (claim_id : ℕ) (workspace : Workspace)
    (profile : RuntimeProfile) (execution : Execution) (now : ℕ) (s : Store)
    → find_first
        (has_value keys.lease keys.attempt
          (token_digest_of settings claim_id keys.attempt workspace))
        s.leases
      ≡ none
    → take_candidate settings keys claim_id workspace profile execution none now s
      ≢ err integrity_error
unfolding take_candidate
take_candidate-accepted settings keys claim_id workspace profile execution now s h =
    elim (Bool-cases (is_some (find_first (holds_scope profile.id (scope_of none)) s.leases))) [
      | inl held ↦ rw held (λ e. cc)
      | inr clear ↦ rw clear (
          Accepts-any _ (
            Accepts-bind (IsPrepared keys.attempt s) (λ _. Unit {0})
              (claim_attempt keys.attempt claim_id workspace execution none now s) _
              (claim_attempt-Accepts keys.attempt claim_id workspace execution now s)
              (prepared (is_some-false _ clear))))
    ]
  where
    prepared :
        find_first (holds_scope profile.id (scope_of none)) s.leases ≡ none
        → (o : Option (Store × Attempt)) → IsPrepared keys.attempt s o
        → Accepts
            (λ _. Unit {0})
            (elim o [
              | none ↦ ok (passed s)
              | some done ↦
                  grant settings keys claim_id workspace profile execution none done.1 now
                    (start_work workspace execution none done.1 done.0)
            ])
    prepared k none p = tt
    prepared k (some done) p =
        taken-Accepts settings keys claim_id workspace profile execution now s done h k p
