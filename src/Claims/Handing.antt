-- ===== src/Claims/Handing.antt =====
-- The lease that a claim hands out.
use allies_foundry.Base.{
  ℕ, ◌+◌, ◌<◌, ◌≡◌, refl, sym, subst, Bool, true, Option, none, some, is_some, List, [], ◌∷◌, ◌++◌,
  ◌⊎◌, ◌==◌, arith, inl, inr, Bool-cases, find_first, update_where, refuse, integrity_error,
  Ensures, Ensures-bind, Ensures->>=,
}
use allies_foundry.Models.{
  Store, Workspace, RuntimeProfile, Attempt, Lease, RoutineExecution, RoutineLeaseAcquisition,
  seconds,
}
use allies_foundry.Approvals.Service.{find_lease}
use allies_foundry.Leases.Rows.{validate_token_digest}
use allies_foundry.Leases.Service.{clashes_any}
use allies_foundry.Claims.Ready.{Settings}
use allies_foundry.Claims.Candidate.{Claim}
use allies_foundry.Claims.Granting.{
  create_lease, new_lease, new_acquisition, retaken, retake_lease, create_acquisition,
  acquisition_clashes, acquire,
}
use allies_foundry.Claims.Leasing.{others}
use allies_foundry.Claims.Reconciling.{retire_acquisition-leases}

-- One of the rows.
abbrev pub Some : (Lease → Type 0) → List Lease → Type 0
Some P [] = ⊥
Some P (x ∷ xs) = P x ⊎ Some P xs

Some-map :
    (P Q : Lease → Type 0) → ((x : Lease) → P x → Q x) → (xs : List Lease) → Some P xs → Some Q xs
Some-map P Q f [] h = elim h [ ]
Some-map P Q f (x ∷ xs) (inl h) = inl (f x h)
Some-map P Q f (x ∷ xs) (inr h) = inr (Some-map P Q f xs h)

Some-last : (P : Lease → Type 0) (x : Lease) (xs : List Lease) → P x → Some P (xs ++ x ∷ [])
Some-last P x [] h = inl h
Some-last P x (y ∷ ys) h = inr (Some-last P x ys h)

pub Some-found :
    (P : Lease → Type 0) (p : Lease → Bool) (x : Lease) (xs : List Lease)
    → P x
    → find_first p xs ≡ some x
    → Some P xs
unfolding find_first
Some-found P p x [] h f = cc
Some-found P p x (y ∷ ys) h f = elim (Bool-cases (p y)) [
  | inl c ↦ inl (subst P (ground (arith, c, f)) h)
  | inr c ↦ inr (Some-found P p x ys h (ground (arith, c, f)))
]

Some-update_where :
    (P : Lease → Type 0) (q : Lease → Bool) (f : Lease → Lease)
    → ((x : Lease) → P x → P (f x))
    → (xs : List Lease) → Some P xs
    → Some P (update_where q f xs)
unfolding update_where
Some-update_where P q f keep [] h = elim h [ ]
Some-update_where P q f keep (x ∷ xs) (inl h) = elim (Bool-cases (q x)) [
  | inl c ↦ rw c (inl (keep x h))
  | inr c ↦ rw c (inl h)
]
Some-update_where P q f keep (x ∷ xs) (inr h) = inr (Some-update_where P q f keep xs h)

-- The row that was found is among those that are rewritten.
Some-rewritten :
    (P : Lease → Type 0) (p : Lease → Bool) (x y : Lease) (xs : List Lease)
    → P y
    → find_first p xs ≡ some x
    → Some P (update_where (λ l. l.id == x.id) (λ _. y) xs)
unfolding find_first update_where
Some-rewritten P p x y [] h f = cc
Some-rewritten P p x y (z ∷ zs) h f = elim (Bool-cases (p z)) [
  | inl c ↦
      let same : z ≡ x = ground (arith, c, f) in
      let hit : (z.id == x.id) ≡ true = subst (λ u. (z.id == u.id) ≡ true) same (ground arith) in
      rw hit (inl h)
  | inr c ↦ inr (Some-rewritten P p x y zs h (ground (arith, c, f)))
]

module _ (generation now : ℕ) where
  -- The lease of this key and this attempt runs until then on the Machine of this generation.
  pub record Runs (id attempt_id expires_at : ℕ) (l : Lease) : Type 0 where
    pub same_id : l.id ≡ id
    pub same_attempt : l.attempt_id ≡ attempt_id
    pub same_expiry : l.expires_at ≡ expires_at
    pub same_generation : l.machine_generation ≡ generation
    pub not_expired : now < l.expires_at

  abbrev pub Handed : Store → Claim → Type 0
  Handed s claim = Some (Runs claim.lease_id claim.attempt_id claim.expires_at) s.leases

  abbrev pub Held : Attempt → Store × Lease → Type 0
  Held attempt done = Some (Runs done.1.id attempt.id done.1.expires_at) done.0.leases

  abbrev pub HeldOption : Attempt → Option (Store × Lease) → Type 0
  HeldOption attempt none = Unit
  HeldOption attempt (some done) = Held attempt done

  pub found_attempt :
      (k : ℕ) (l : Lease) (xs : List Lease)
      → find_first (λ x. x.attempt_id == k) xs ≡ some l
      → l.attempt_id ≡ k
  unfolding find_first
  found_attempt k l [] f = cc
  found_attempt k l (x ∷ xs) f = elim (Bool-cases (x.attempt_id == k)) [
    | inl c ↦ ground (arith, c, f)
    | inr c ↦ found_attempt k l xs (ground (arith, c, f))
  ]

  module _ (settings : Settings) (claim_id : ℕ) (workspace : Workspace)
      (current : workspace.machine_generation ≡ generation) where
    pub create_lease-Held :
        (id : ℕ) (profile : RuntimeProfile) (attempt : Attempt) (scope token_digest : ℕ) (s : Store)
        → Ensures
            (Held attempt)
            (create_lease id claim_id workspace profile attempt scope token_digest now s)
    unfolding create_lease
    create_lease-Held id profile attempt scope token_digest s =
        let lease = new_lease id claim_id workspace profile attempt scope token_digest now in
        Ensures-bind (Held attempt) (validate_token_digest token_digest) _ λ _.
          Ensures-bind (Held attempt) (refuse (clashes_any lease s.leases) integrity_error) _ λ _.
            Some-last (Runs id attempt.id (now + seconds 60)) lease s.leases (record {
              same_id = refl;
              same_attempt = refl;
              same_expiry = refl;
              same_generation = current;
              not_expired = omega arith;
            })

    pub retake_lease-Held :
        (attempt : Attempt) (lease : Lease) (token_digest : ℕ) (s : Store)
        → find_lease attempt.id s ≡ some lease
        → Ensures (Held attempt) (retake_lease claim_id workspace lease token_digest now s)
    unfolding retake_lease retaken
    retake_lease-Held attempt lease token_digest s found =
        let l = retaken claim_id workspace token_digest now lease in
        let P = Runs lease.id attempt.id (now + seconds 60) in
        let runs : P l = record {
          same_id = refl;
          same_attempt = found_attempt attempt.id lease s.leases found;
          same_expiry = refl;
          same_generation = current;
          not_expired = omega arith;
        } in
        Ensures-bind (Held attempt) (validate_token_digest token_digest) _ λ _.
          Ensures-bind (Held attempt)
            (refuse (clashes_any l (others lease.id s.leases)) integrity_error) _
            λ _.
              subst (λ xs. Some P (update_where (λ y. y.id == lease.id) (λ _. l) xs))
                (sym (retire_acquisition-leases lease.id now s))
                (Some-rewritten P (λ y. y.attempt_id == attempt.id) lease l s.leases runs found)

    pub acquire-Held :
        (id : ℕ) (routine : Option RoutineExecution) (lease : Lease) (token_digest : ℕ) (s : Store)
        (P : Lease → Type 0)
        → ((k : ℕ) (x : Lease) → P x → P (record x { current_acquisition = some k }))
        → Some P s.leases
        → Ensures
            (λ (done : Store × Option RoutineLeaseAcquisition). Some P done.0.leases)
            (acquire id claim_id workspace routine lease token_digest s)
    unfolding acquire create_acquisition
    acquire-Held id none lease token_digest s P keep h = h
    acquire-Held id (some r) lease token_digest s P keep h =
        let a = new_acquisition id claim_id workspace lease token_digest s in
        Ensures->>= (λ (done : Store × RoutineLeaseAcquisition). Some P done.0.leases)
          (λ (done : Store × Option RoutineLeaseAcquisition). Some P done.0.leases)
          (create_acquisition id claim_id workspace lease token_digest s) _
          (Ensures-bind (λ (done : Store × RoutineLeaseAcquisition). Some P done.0.leases)
            (validate_token_digest token_digest) _
            λ _.
              Ensures-bind (λ (done : Store × RoutineLeaseAcquisition). Some P done.0.leases)
                (refuse (is_some (find_first (acquisition_clashes a) s.acquisitions))
                  integrity_error)
                _
                λ _.
                  Some-update_where P (λ l. l.id == lease.id)
                    (λ l. record l { current_acquisition = some id }) (keep id) s.leases h)
          λ done k. k
