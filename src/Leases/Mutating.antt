-- ===== src/Leases/Mutating.antt =====
-- What a mutation of an attempt rests on.
use allies_foundry.Base.{
  ℕ, ◌<◌, ◌≡◌, ◌⊎◌, inl, inr, refl, true, ◌&&◌, ◌||◌, not, Option, none, some, ltb, ◌==◌, arith,
  find_first, Bool-cases, ok, or_raise, ensure, Ensures, Ensures-ok, Ensures->>=, Ensures-bind,
  Ensures-ensure, Ensures-or_raise, Ensures-intro, ensure-holds, >>=-eq-ok, authorization,
  does_not_exist, conflict,
}
use allies_foundry.Models.{
  Store, Attempt, AttemptStatus, Lease, is_active, is_ended, profile_allows_runtime_write,
}
use allies_foundry.Approvals.Service.{find_workspace, find_execution}
use allies_foundry.Leases.Rows.{validate_token_digest, find_profile}
use allies_foundry.Leases.Mutation.{
  AttemptUpdates, authorize_attempt_mutation, authorize, validate_attempt_mutation,
  validate_authorized_attempt_mutation, validate_claimed_at, status_allows, next_status,
  next_claimed_at, same_status, lease_is_current, is_unchanged, write_updates,
}

-- The attempt, and the lease that lets the caller write it.
pub record IsAuthorized (k lease_id token generation now : ℕ) (s : Store) (a : Attempt)
    : Type 0 where
  pub lease : Lease
  pub found : find_first (λ x. x.id == k) s.attempts ≡ some a
  pub lease_found : find_first (λ l. l.id == lease_id && l.attempt_id == a.id) s.leases ≡ some lease
  pub token_matches : lease.token_digest ≡ token
  pub lease_current : lease.machine_generation ≡ generation
  pub attempt_current : a.machine_generation ≡ generation
  pub lease_is_active : is_active lease.state ≡ true
  pub lease_runs : now < lease.expires_at

authorize-IsAuthorized :
    (k lease_id token generation now : ℕ) (s : Store)
    → Ensures
        (IsAuthorized k lease_id token generation now s)
        (authorize k lease_id token generation now s)
unfolding authorize
authorize-IsAuthorized k lease_id token generation now s =
    let Q : Attempt → Type 0 = IsAuthorized k lease_id token generation now s in
    Ensures-bind Q (validate_token_digest token) _ λ _.
      Ensures-or_raise Q (find_first (λ x. x.id == k) s.attempts) authorization _ λ a found.
        Ensures-bind Q (or_raise (find_execution a.execution_id s) does_not_exist) _ λ execution.
          Ensures-bind Q (or_raise (find_workspace execution.workspace_id s) does_not_exist) _
            λ workspace.
              Ensures-bind Q (or_raise (find_profile execution.profile_id s) does_not_exist) _
                λ profile.
                  Ensures-or_raise Q
                    (find_first (λ l. l.id == lease_id && l.attempt_id == a.id) s.leases)
                    authorization _
                    λ lease lease_found.
                      Ensures-ensure Q (lease_is_current lease a profile workspace token generation)
                        authorization _
                        λ current.
                          Ensures-bind Q
                            (ensure (profile_allows_runtime_write profile) authorization) _
                            λ _. Ensures-ensure Q (ltb now lease.expires_at) authorization _ λ runs.
                              record {
                                lease = lease;
                                found = found;
                                lease_found = lease_found;
                                token_matches = unfold lease_is_current in ground (arith, current);
                                lease_current = unfold lease_is_current in ground (arith, current);
                                attempt_current =
                                    unfold lease_is_current in ground (arith, current);
                                lease_is_active =
                                    unfold lease_is_current in ground (arith, current);
                                lease_runs = ground (arith, runs);
                              }

-- What the status and the time of the claim may become.
pub record IsAllowed (a : Attempt) (updates : AttemptUpdates) : Type 0 where
  pub by_the_table : status_allows a.status (next_status updates a) ≡ true
  pub ended_stays : (not (is_ended a.status) || same_status (next_status updates a) a.status) ≡ true
  pub keeps_claim : (a.claimed_at ≡ none) ⊎ (next_claimed_at updates a ≡ a.claimed_at)

claimed_at-kept :
    (current next : Option ℕ) (status : AttemptStatus)
    → validate_claimed_at current next status ≡ ok tt
    → (current ≡ none) ⊎ (next ≡ current)
unfolding validate_claimed_at
claimed_at-kept none next status h = inl refl
claimed_at-kept (some c) none status h = cc
claimed_at-kept (some c) (some n) status h = inr (ground arith)

ended-stays :
    (current next : AttemptStatus)
    → status_allows current next ≡ true
    → (not (is_ended current) || same_status next current) ≡ true
unfolding status_allows same_status
ended-stays current next h = ground arith

claim-kept :
    (a : Attempt) (status : Option AttemptStatus) (c : Option (Option ℕ))
    → let updates : AttemptUpdates = record { status = status; claimed_at = c } in
      validate_authorized_attempt_mutation a updates ≡ ok tt
      → (a.claimed_at ≡ none) ⊎ (next_claimed_at updates a ≡ a.claimed_at)
unfolding validate_authorized_attempt_mutation next_claimed_at
claim-kept a status none h = inr refl
claim-kept a status (some c) h =
    claimed_at-kept a.claimed_at c _ (>>=-eq-ok (ensure (status_allows a.status _) conflict) _ h).2

status-allowed :
    (a : Attempt) (updates : AttemptUpdates)
    → validate_authorized_attempt_mutation a updates ≡ ok tt
    → status_allows a.status (next_status updates a) ≡ true
unfolding validate_authorized_attempt_mutation
status-allowed a updates h =
    let (u, e, rest) =
      >>=-eq-ok (ensure (status_allows a.status (next_status updates a)) conflict) _ h in
    ensure-holds _ conflict e

-- A mutation that was let through: who wrote what.
pub record RestsOn (k lease_id token generation : ℕ) (updates : AttemptUpdates) (now : ℕ)
    (s t : Store) : Type 0 where
  pub attempt : Attempt
  pub authorized : IsAuthorized k lease_id token generation now s attempt
  pub allowed : IsAllowed attempt updates
  pub written : t ≡ write_updates updates attempt s ⊎ (t ≡ s)

guarded-RestsOn :
    (k lease_id token generation : ℕ) (updates : AttemptUpdates) (now : ℕ) (s : Store)
    → Ensures
        (RestsOn k lease_id token generation updates now s)
        (authorize_attempt_mutation k lease_id token generation updates now s)
unfolding authorize_attempt_mutation
guarded-RestsOn k lease_id token generation updates now s =
    let Q : Store → Type 0 = RestsOn k lease_id token generation updates now s in
    Ensures-bind Q (validate_attempt_mutation updates) _ λ _.
      Ensures->>= (IsAuthorized k lease_id token generation now s) Q
        (authorize k lease_id token generation now s) _
        (authorize-IsAuthorized k lease_id token generation now s)
        λ a h.
          Ensures->>= (λ u. validate_authorized_attempt_mutation a updates ≡ ok u) Q
            (validate_authorized_attempt_mutation a updates) _
            (Ensures-intro _ (validate_authorized_attempt_mutation a updates) (λ u e. e))
            λ u v.
              let allowed : IsAllowed a updates = record {
                by_the_table = status-allowed a updates v;
                ended_stays = ended-stays a.status _ (status-allowed a updates v);
                keeps_claim = claim-kept a updates.status updates.claimed_at v;
              } in
              elim (Bool-cases (is_unchanged a updates)) [
                | inl c ↦
                    rw c (record {
                      attempt = a;
                      authorized = h;
                      allowed = allowed;
                      written = inr refl;
                    })
                | inr c ↦
                    rw c (record {
                      attempt = a;
                      authorized = h;
                      allowed = allowed;
                      written = inl refl;
                    })
              ]

-- A mutation of an attempt that raises nothing rests on the attempt and on an active lease of it,
-- which has not run out, has the given token, and agrees with the attempt on the given generation.
-- The table of transitions has the new status, so an attempt that ended keeps its status; a time
-- of claim that is there stays. Nothing is written but these two fields, or nothing at all.
pub authorize_attempt_mutation-RestsOn :
    (k lease_id token generation : ℕ) (updates : AttemptUpdates) (now : ℕ) (s t : Store)
    → authorize_attempt_mutation k lease_id token generation updates now s ≡ ok t
    → RestsOn k lease_id token generation updates now s t
authorize_attempt_mutation-RestsOn k lease_id token generation updates now s t e =
    Ensures-ok (RestsOn k lease_id token generation updates now s) _
      (guarded-RestsOn k lease_id token generation updates now s) e
