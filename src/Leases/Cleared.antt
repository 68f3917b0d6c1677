-- ===== src/Leases/Cleared.antt =====
-- A fence leaves no lease of the retired generation that is active or stopping.
use allies_foundry.Base.{
  ℕ, ◌≡◌, subst, true, false, Option, List, [], ◌∷◌, ◌==◌, leb, select, map, member, arith, inl,
  inr, Bool-cases, All, find_first-All, ok, refuse, Ensures, Ensures-ok, Ensures->>=, Ensures-bind,
  Ensures-or_raise, Ensures-×, validation, does_not_exist,
}
use allies_foundry.Models.{Store, Workspace}
use allies_foundry.Approvals.Service.{find_workspace}
use allies_foundry.Leases.Fence.{
  Counts, confirm_machine_stopped_and_fence, fence_profiles, fence_profile, check_fence, is_retired,
}
use allies_foundry.Leases.Moves.{IsExclusive, Moved-IsExclusive}
use allies_foundry.Leases.Moving.{Moves}
use allies_foundry.Leases.Retiring.{fence_profile-Moves, fence_profiles-Moves}
use allies_foundry.Leases.Fenced.{any_row, Moved-IsClear, Clear, fence_profile-Clear}

-- A cleared profile stays clear while the others are fenced.
abbrev AllClear {ℓ} : {B : Type ℓ} → ℕ → List ℕ → Store × B → Type 0
AllClear source ks done =
    (k : ℕ) → member k ks ≡ true → All (λ l. is_retired k source l ≡ false) done.0.leases

fence_profiles-AllClear :
    (source : ℕ) (ks : List ℕ) (now : ℕ) (s : Store)
    → IsExclusive s.leases
    → Ensures (AllClear source ks) (fence_profiles source ks now s)
unfolding fence_profiles member
fence_profiles-AllClear source [] now s ex = λ k e. cc
fence_profiles-AllClear source (k ∷ ks) now s ex =
    Ensures->>= (λ first. Moves s first × Clear source k first) (AllClear source (k ∷ ks))
      (fence_profile source k now s) _
      (Ensures-× (Moves s) (Clear source k) (fence_profile source k now s)
        (fence_profile-Moves source k now s) (fence_profile-Clear source k now s ex))
      λ first f.
        Ensures->>= (λ rest. Moves first.0 rest × AllClear source ks rest)
          (AllClear source (k ∷ ks)) (fence_profiles source ks now first.0) _
          (Ensures-× (Moves first.0) (AllClear source ks) (fence_profiles source ks now first.0)
            (fence_profiles-Moves source ks now first.0)
            (fence_profiles-AllClear source ks now first.0
              (Moved-IsExclusive s.leases first.0.leases f.0 ex)))
          λ rest r j e. elim (Bool-cases (j == k)) [
            | inl c ↦
                subst (λ (i : ℕ). All (λ l. is_retired i source l ≡ false) rest.0.leases)
                  (ground (arith, c)) (Moved-IsClear source k first.0.leases rest.0.leases r.0 f.1)
            | inr c ↦ r.1 j (ground (arith, c, e))
          ]

abbrev profiles_of : ℕ → Store → List ℕ
profiles_of workspace_id s =
    map (λ p. p.id) (select (λ p. p.workspace_id == workspace_id) s.profiles)

confirm-AllClear :
    (workspace_id source target : ℕ) (machine : Option ℕ) (now : ℕ) (s : Store)
    → IsExclusive s.leases
    → Ensures
        (AllClear source (profiles_of workspace_id s))
        (confirm_machine_stopped_and_fence workspace_id source target machine now s)
unfolding confirm_machine_stopped_and_fence
confirm-AllClear workspace_id source target machine now s ex =
    let Q : Store × Counts → Type 0 = AllClear source (profiles_of workspace_id s) in
    Ensures-bind Q (refuse (leb target source) validation) _ λ _.
      Ensures-or_raise Q (find_workspace workspace_id s) does_not_exist _ λ workspace found.
        let key =
          (find_first-All (λ _. Unit {0}) (λ (w : Workspace). w.id == workspace_id) s.workspaces
            workspace (any_row s.workspaces) found).1 in
        let same : workspace.id ≡ workspace_id = ground (arith, key) in
        Ensures-bind Q (check_fence workspace source target machine) _ λ _.
          subst
            (λ (i : ℕ).
              Ensures (AllClear source (profiles_of i s))
                (fence_profiles source (profiles_of workspace.id s) now s))
            same (fence_profiles-AllClear source (profiles_of workspace.id s) now s ex)

-- After a fence that raises nothing, no lease of a profile of the workspace with the source
-- generation is active or stopping, provided that no two leases of the table clashed.
pub fence-AllClear :
    (workspace_id source target : ℕ) (machine : Option ℕ) (now : ℕ) (s t : Store) (r : Counts)
    → IsExclusive s.leases
    → confirm_machine_stopped_and_fence workspace_id source target machine now s ≡ ok (t, r)
    → (k : ℕ) → member k (profiles_of workspace_id s) ≡ true
    → All (λ l. is_retired k source l ≡ false) t.leases
fence-AllClear workspace_id source target machine now s t r ex e =
    Ensures-ok (AllClear source (profiles_of workspace_id s)) _
      (confirm-AllClear workspace_id source target machine now s ex) e
