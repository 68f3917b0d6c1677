-- ===== src/Claims/Handed.antt =====
-- A claim never hands out a lease that has run out, or one of another Machine.
use allies_foundry.Base.{
  ℕ, ◌<◌, ◌≡◌, refl, ◌∙◌, sym, Bool, true, false, ◌&&◌, Option, none, some, List, [], ◌∷◌, ◌==◌,
  leb, text_eq, if◌then◌else◌, arith, inl, inr, Bool-cases, find_first, Result, ok, ◌>>=◌, ensure,
  or_raise, conflict, fenced, idempotency_conflict, does_not_exist, Ensures, Ensures-bind,
  Ensures->>=, Ensures-ok, Ensures-or_raise, Ensures-ensure,
}
use allies_foundry.Models.{
  Store, Workspace, RuntimeProfile, Execution, Attempt, Lease, RoutineExecution,
  RoutineLeaseAcquisition, RuntimeContext, is_unresolved,
}
use allies_foundry.Delivery.Repair.{Wire}
use allies_foundry.Approvals.Service.{find_lease, find_execution}
use allies_foundry.Leases.Rows.{find_profile}
use allies_foundry.Events.Expiry.{Expiry}
use allies_foundry.Claims.Ready.{Settings, profile_is_claim_ready, require_routine_admission}
use allies_foundry.Claims.Candidate.{Claim, NewKeys, scope_of, claim_from_records}
use allies_foundry.Claims.Granting.{
  passed, claimed, create_lease, retake_lease, grant_lease, acquire, grant,
}
use allies_foundry.Claims.Service.{
  Database, replay_attempt, replay_acquisition, claim_next_execution,
}
use allies_foundry.Claims.Rule.{CandidateHolds, AnswerHolds, claim_reconciled-Holds, claim_rule}
use allies_foundry.Claims.Handing.{
  Some, Some-found, Runs, Handed, Held, HeldOption, found_attempt, create_lease-Held,
  retake_lease-Held, acquire-Held,
}

-- Nothing is said of a store without a claim.
abbrev Anything : Store → Type 0
Anything s = Unit

equal : (a b : ℕ) → (a == b) ≡ true → a ≡ b
equal a b h = ground arith

later : (a b : ℕ) → leb a b ≡ false → b < a
later a b h = ground arith

both : (a b : Bool) → (a && b) ≡ true → (a ≡ true) × (b ≡ true)
both a b h = ground arith

found_key :
    (k : ℕ) (a : Attempt) (xs : List Attempt) → find_first (λ x. x.id == k) xs ≡ some a → a.id ≡ k
unfolding find_first
found_key k a [] f = cc
found_key k a (x ∷ xs) f = elim (Bool-cases (x.id == k)) [
  | inl c ↦ ground (arith, c, f)
  | inr c ↦ found_key k a xs (ground (arith, c, f))
]

module _ (generation now : ℕ) (settings : Settings) (claim_id : ℕ) (workspace : Workspace)
    (current : workspace.machine_generation ≡ generation) where
  grant_lease-Held :
      (id : ℕ) (profile : RuntimeProfile) (attempt : Attempt) (scope token_digest : ℕ) (s : Store)
      → Ensures
          (HeldOption generation now attempt)
          (grant_lease id claim_id workspace profile attempt scope token_digest now s)
  unfolding grant_lease
  grant_lease-Held id profile attempt scope token_digest s = either (find_lease attempt.id s) refl
    where
      either :
          (o : Option Lease)
          → find_lease attempt.id s ≡ o
          → Ensures (HeldOption generation now attempt) (elim o [
            | none ↦
                create_lease id claim_id workspace profile attempt scope token_digest now s
                >>= λ created. ok (some created)
            | some lease ↦
                if is_unresolved lease.state
                then ok none
                else (retake_lease claim_id workspace lease token_digest now s >>= λ granted.
                    ok (some granted))
          ])
      either none e =
          Ensures->>= (Held generation now attempt) (HeldOption generation now attempt)
            (create_lease id claim_id workspace profile attempt scope token_digest now s) _
            (create_lease-Held generation now settings claim_id workspace current id profile attempt
              scope token_digest s)
            λ done k. k
      either (some lease) e = elim (Bool-cases (is_unresolved lease.state)) [
        | inl c ↦ rw c tt
        | inr c ↦ rw c (
            Ensures->>= (Held generation now attempt) (HeldOption generation now attempt)
              (retake_lease claim_id workspace lease token_digest now s) _
              (retake_lease-Held generation now settings claim_id workspace current attempt lease
                token_digest s e)
              λ done k. k)
      ]

  Runs-acquired :
      (id attempt_id expires_at k : ℕ) (l : Lease)
      → Runs generation now id attempt_id expires_at l
      → Runs generation now id attempt_id expires_at (record l { current_acquisition = some k })
  Runs-acquired id attempt_id expires_at k l h = record {
    same_id = h.same_id;
    same_attempt = h.same_attempt;
    same_expiry = h.same_expiry;
    same_generation = h.same_generation;
    not_expired = h.not_expired;
  }

  grant-Handed :
      (keys : NewKeys) (profile : RuntimeProfile) (execution : Execution)
      (routine : Option RoutineExecution) (attempt : Attempt) (s : Store)
      → Ensures
          (CandidateHolds Anything (Handed generation now))
          (grant settings keys claim_id workspace profile execution routine attempt now s)
  unfolding grant claim_from_records
  grant-Handed keys profile execution routine attempt s =
      Ensures->>= (HeldOption generation now attempt)
        (CandidateHolds Anything (Handed generation now))
        (grant_lease keys.lease claim_id workspace profile attempt (scope_of routine) digest now s)
        _ (grant_lease-Held keys.lease profile attempt (scope_of routine) digest s) granted
    where
      token : ℕ
      token = settings.claim_token claim_id attempt.id workspace.machine_generation

      digest : ℕ
      digest = settings.digest token

      granted :
          (o : Option (Store × Lease))
          → HeldOption generation now attempt o
          → Ensures (CandidateHolds Anything (Handed generation now)) (elim o [
            | none ↦ ok (passed s)
            | some done ↦
                acquire keys.acquisition claim_id workspace routine done.1 digest done.0
                >>= λ acquired. ok (
                    claimed acquired.0 (
                      claim_from_records settings attempt execution done.1
                        (some token)
                        acquired.1
                        acquired.0))
          ])
      granted none k = tt
      granted (some done) k =
          let P = Runs generation now done.1.id attempt.id done.1.expires_at in
          Ensures->>= (λ (a : Store × Option RoutineLeaseAcquisition). Some P a.0.leases)
            (CandidateHolds Anything (Handed generation now))
            (acquire keys.acquisition claim_id workspace routine done.1 digest done.0) _
            (acquire-Held generation now settings claim_id workspace current keys.acquisition
              routine done.1 digest done.0 P (Runs-acquired done.1.id attempt.id done.1.expires_at)
              k)
            λ acquired m. m

  -- The answer of a replay, by the lease that was found for it.
  answered :
      (attempt : Attempt) (execution : Execution) (lease : Lease)
      (acquisition : Option RoutineLeaseAcquisition) (s : Store) (p : Lease → Bool)
      → find_first p s.leases ≡ some lease
      → lease.attempt_id ≡ attempt.id
      → (lease.machine_generation == workspace.machine_generation) ≡ true
      → AnswerHolds Anything (Handed generation now) (
        s,
        (if leb lease.expires_at now
            then none
            else some (claim_from_records settings attempt execution lease none acquisition s)),
      )
  unfolding claim_from_records
  answered attempt execution lease acquisition s p found same_attempt same_generation =
      elim (Bool-cases (leb lease.expires_at now)) [
        | inl c ↦ rw c tt
        | inr c ↦ rw c (
            Some-found (Runs generation now lease.id attempt.id lease.expires_at) p lease s.leases
              (record {
                same_id = refl;
                same_attempt = same_attempt;
                same_expiry = refl;
                same_generation = equal _ _ same_generation ∙ current;
                not_expired = later lease.expires_at now c;
              })
              found)
      ]

  replay_attempt-Handed :
      (attempt : Attempt) (s : Store)
      → Ensures
          (λ o. AnswerHolds Anything (Handed generation now) (s, o))
          (replay_attempt settings workspace attempt now s)
  unfolding replay_attempt
  replay_attempt-Handed attempt s =
      Ensures-bind Q (or_raise (find_execution attempt.execution_id s) does_not_exist) _
        λ execution.
          Ensures-bind Q (ensure (execution.workspace_id == workspace.id) idempotency_conflict) _
            λ _. Ensures-or_raise Q (find_lease attempt.id s) conflict _ λ lease found.
              Ensures-ensure Q
                (attempt.machine_generation == workspace.machine_generation
                  && lease.machine_generation == workspace.machine_generation)
                idempotency_conflict _
                λ same.
                  Ensures-bind Q (or_raise (find_profile execution.profile_id s) does_not_exist) _
                    λ profile.
                      Ensures-bind Q
                        (ensure (profile_is_claim_ready profile workspace.machine_generation)
                          fenced)
                        _
                        λ _.
                          Ensures-bind Q
                            (if text_eq execution.source_kind "routine_dispatch"
                              then require_routine_admission settings workspace now
                              else ok tt)
                            _
                            λ _.
                              answered attempt execution lease none s
                                (λ l. l.attempt_id == attempt.id) found
                                (found_attempt generation now attempt.id lease s.leases found)
                                (both _ _ same).1
    where
      Q : Option Claim → Type 0
      Q o = AnswerHolds Anything (Handed generation now) (s, o)

  replay_acquisition-Handed :
      (acquisition : RoutineLeaseAcquisition) (s : Store)
      → Ensures
          (λ o. AnswerHolds Anything (Handed generation now) (s, o))
          (replay_acquisition settings workspace acquisition now s)
  unfolding replay_acquisition
  replay_acquisition-Handed acquisition s =
      Ensures-or_raise Q (find_first (λ l. l.id == acquisition.lease_id) s.leases) does_not_exist _
        λ lease found.
          Ensures-or_raise Q (find_first (λ a. a.id == lease.attempt_id) s.attempts) does_not_exist
            _
            λ attempt of_lease.
              Ensures-bind Q (or_raise (find_execution attempt.execution_id s) does_not_exist) _
                λ execution.
                  Ensures-bind Q
                    (ensure (execution.workspace_id == workspace.id) idempotency_conflict) _
                    λ _.
                      Ensures-ensure Q
                        (attempt.machine_generation == workspace.machine_generation
                          && lease.machine_generation == workspace.machine_generation
                          && acquisition.current)
                        idempotency_conflict _
                        λ same.
                          Ensures-bind Q (require_routine_admission settings workspace now) _ λ _.
                            answered attempt execution lease (some acquisition) s
                              (λ l. l.id == acquisition.lease_id) found
                              (sym (found_key lease.attempt_id attempt s.attempts of_lease))
                              (both _ _ (both _ _ same).0).1
    where
      Q : Option Claim → Type 0
      Q o = AnswerHolds Anything (Handed generation now) (s, o)

-- The lease of every claim that is handed out, new or repeated, stands in the table under the key of
-- the claim, with its attempt and its time of expiry, has not run out, and belongs to the Machine
-- generation of the caller's credential.
pub claim-Handed :
    (w : Store → Wire) (x : Expiry) (settings : Settings) (database : Database)
    (record_failure : ℕ → Store → Result Store) (context : RuntimeContext) (claim_id slots now : ℕ)
    (s t : Store) (claim : Claim)
    → claim_next_execution w x settings database record_failure context claim_id slots now s
      ≡ ok (t, some claim)
    → Handed context.machine_generation now t claim
claim-Handed w x settings database record_failure context claim_id slots now s t claim e =
    Ensures-ok (AnswerHolds Anything (Handed context.machine_generation now)) _
      (claim_rule w x settings database record_failure
        (AnswerHolds Anything (Handed context.machine_generation now)) context claim_id slots now s
        λ workspace u current reconciled.
          let same = equal _ _ current in
          claim_reconciled-Holds Anything (Handed context.machine_generation now) settings claim_id
            workspace now (λ a b eq k. tt)
            (λ keys profile execution routine attempt a k.
              grant-Handed context.machine_generation now settings claim_id workspace same keys
                profile execution routine attempt a)
            database u
            (λ attempt.
              replay_attempt-Handed context.machine_generation now settings claim_id workspace same
                attempt u)
            (λ acquisition.
              replay_acquisition-Handed context.machine_generation now settings claim_id workspace
                same acquisition u)
            tt)
      e
