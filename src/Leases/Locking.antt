-- ===== src/Leases/Locking.antt =====
-- The rows that a transaction locks after a transaction that ended the attempt.
use allies_foundry.Base.{
  ℕ, ◌≡◌, refl, ◌∙◌, Bool, true, ◌&&◌, some, ◌==◌, if◌then◌else◌, arith, find_first-rewritten,
  find_first-cong, update_where, ok,
}
use mathlib.Core.Option
use allies_foundry.Models.{Store, Execution, ExecutionStatus, Attempt, RuntimeContext}
use allies_foundry.Approvals.Service.{in_workspace, find_workspace, find_execution, find_attempt}
use allies_foundry.Leases.Rows.{Locked, lock_rows, find_profile}

-- What `lock_rows` found.
pub record IsLocked (admits : Execution → Bool) (context : RuntimeContext) (k : ℕ) (s : Store)
    (locked : Locked) : Type 0 where
  pub workspace_found : find_workspace context.workspace_id s ≡ some locked.workspace
  pub current : (locked.workspace.machine_generation == context.machine_generation) ≡ true
  pub attempt_found : find_attempt k locked.workspace.id s ≡ some locked.attempt
  pub execution_found : find_execution locked.attempt.execution_id s ≡ some locked.execution
  pub admitted : admits locked.execution ≡ true
  pub profile_found : find_profile locked.execution.profile_id s ≡ some locked.profile

pub lock_rows-IsLocked :
    (admits : Execution → Bool) (context : RuntimeContext) (k : ℕ) (s : Store) (locked : Locked)
    → lock_rows admits context k s ≡ ok locked
    → IsLocked admits context k s locked
unfolding lock_rows
lock_rows-IsLocked admits context k s locked e = ground arith

pub IsLocked-lock_rows :
    (admits : Execution → Bool) (context : RuntimeContext) (k : ℕ) (s : Store) (locked : Locked)
    → IsLocked admits context k s locked
    → lock_rows admits context k s ≡ ok locked
unfolding lock_rows
IsLocked-lock_rows admits context k s locked h =
    rw
      (
        h.workspace_found, h.current, h.attempt_found, h.execution_found, h.admitted,
        h.profile_found,
      )
      refl

-- How a transaction that ends an attempt leaves the tables that `lock_rows` reads.
pub record Ends (s t : Store) (attempt : Attempt) (f : Attempt → Attempt) (execution : Execution)
    (status : ExecutionStatus) : Type 0 where
  pub workspaces : t.workspaces ≡ s.workspaces
  pub profiles : t.profiles ≡ s.profiles
  pub attempts : t.attempts ≡ update_where (λ a. a.id == attempt.id) f s.attempts
  pub executions :
      t.executions
      ≡ update_where (λ e. e.id == execution.id) (λ e. record e { status = status }) s.executions

module _ (s t : Store) (attempt : Attempt) (f : Attempt → Attempt) (execution : Execution)
    (status : ExecutionStatus) (ends : Ends s t attempt f execution status)
    (same_id : (a : Attempt) → (f a).id ≡ a.id)
    (same_execution : (a : Attempt) → (f a).execution_id ≡ a.execution_id) where
  execution_after :
      (k : ℕ)
      → find_execution k t
        ≡ Option.map
            (λ e. if e.id == execution.id then record e { status = status } else e)
            (find_execution k s)
  execution_after k = rw ends.executions (
      find_first-rewritten (λ e. e.id == k) (λ e. e.id == execution.id)
        (λ e. record e { status = status }) (λ e. refl) s.executions)

  in_workspace_after :
      (w k : ℕ) → in_workspace w (find_execution k t) ≡ in_workspace w (find_execution k s)
  in_workspace_after w k = rw (execution_after k) (ground arith)

  attempt_after :
      (k w : ℕ)
      → find_attempt k w t
        ≡ Option.map (λ a. if a.id == attempt.id then f a else a) (find_attempt k w s)
  attempt_after k w = rw ends.attempts (
      find_first-cong _ (λ a. a.id == k && in_workspace w (find_execution a.execution_id s))
        (λ a. rw (in_workspace_after w a.execution_id) refl) _
      ∙ find_first-rewritten (λ a. a.id == k && in_workspace w (find_execution a.execution_id s)) _
          f (λ a. rw (same_id a, same_execution a) refl) s.attempts)

-- The same rows are locked afterwards, in their new versions.
pub lock_rows_again :
    (admits : Execution → Bool) (context : RuntimeContext) (k : ℕ) (s t : Store) (locked : Locked)
    (f : Attempt → Attempt) (status : ExecutionStatus)
    → lock_rows admits context k s ≡ ok locked
    → Ends s t locked.attempt f locked.execution status
    → ((a : Attempt) → (f a).id ≡ a.id)
    → ((a : Attempt) → (f a).execution_id ≡ a.execution_id)
    → ((e : Execution) → admits (record e { status = status }) ≡ admits e)
    → lock_rows admits context k t
      ≡ ok (record locked {
        attempt = f locked.attempt;
        execution = record locked.execution { status = status };
      })
lock_rows_again admits context k s t locked f status e ends same_id same_execution same_admits =
    let h = lock_rows-IsLocked admits context k s locked e in
    IsLocked-lock_rows admits context k t _ (record {
      workspace_found = rw ends.workspaces h.workspace_found;
      current = h.current;
      attempt_found =
          attempt_after s t locked.attempt f locked.execution status ends same_id same_execution k
            locked.workspace.id
          ∙ rw h.attempt_found (ground arith);
      execution_found = rw (same_execution locked.attempt) (
          execution_after s t locked.attempt f locked.execution status ends same_id same_execution
            locked.attempt.execution_id
          ∙ rw h.execution_found (ground arith));
      admitted = rw (same_admits locked.execution) h.admitted;
      profile_found = rw ends.profiles h.profile_found;
    })
