-- ===== src/Leases/Renewal.antt =====
-- A renewed lease that is left as it is can be renewed again until it runs out.
use allies_foundry.Base.{
  ℕ, ◌+◌, ◌<◌, ◌≡◌, refl, sym, ◌∙◌, ◌&&◌, find_first-holds, ap, subst, true, some, ltb, ◌==◌, arith,
  find_first-rewritten, ok, Ensures, Ensures-ok, Ensures->>=, Ensures-ensure, Ensures-or_raise,
  Ensures-intro, lease_conflict, fenced,
}
use allies_foundry.Models.{
  Store, Attempt, Lease, RuntimeContext, is_active, seconds, profile_allows_runtime_write,
}
use allies_foundry.Approvals.Service.{find_lease, find_execution, in_workspace}
use allies_foundry.Leases.Locking.{lock_rows-IsLocked}
use allies_foundry.Leases.Rows.{Locked, lock_rows, update_lease}
use allies_foundry.Leases.Service.{renew_lease, LeaseReceipt}

-- What a renewal found and did.
record IsRenewal (context : RuntimeContext) (k token now : ℕ) (s : Store)
    (done : Store × LeaseReceipt) : Type 0 where
  locked : Locked
  lease : Lease
  rows : lock_rows (λ _. true) context k s ≡ ok locked
  writes : profile_allows_runtime_write locked.profile ≡ true
  lease_found : find_lease locked.attempt.id s ≡ some lease
  token_matches : (lease.token_digest == token) ≡ true
  current : (lease.machine_generation == locked.workspace.machine_generation) ≡ true
  active_lease : is_active lease.state ≡ true
  written : done.0 ≡ update_lease lease.id (λ l. record l { expires_at = now + seconds 60 }) s
  answered : done.1 ≡ record { lease_id = lease.id; expires_at = now + seconds 60 }

renew-IsRenewal :
    (context : RuntimeContext) (k token now : ℕ) (s : Store)
    → Ensures (IsRenewal context k token now s) (renew_lease context k token now s)
unfolding renew_lease
renew-IsRenewal context k token now s =
    let Q : Store × LeaseReceipt → Type 0 = IsRenewal context k token now s in
    Ensures->>= (λ locked. lock_rows (λ _. true) context k s ≡ ok locked) Q
      (lock_rows (λ _. true) context k s) _
      (Ensures-intro _ (lock_rows (λ _. true) context k s) (λ a e. e))
      λ locked rows.
        Ensures-ensure Q (profile_allows_runtime_write locked.profile) lease_conflict _ λ writes.
          Ensures-or_raise Q (find_lease locked.attempt.id s) lease_conflict _ λ lease lease_found.
            Ensures-ensure Q (lease.token_digest == token) lease_conflict _ λ token_matches.
              Ensures-ensure Q (lease.machine_generation == locked.workspace.machine_generation)
                fenced _
                λ current. Ensures-ensure Q (is_active lease.state) lease_conflict _ λ active_lease.
                  Ensures-ensure Q (ltb now lease.expires_at) lease_conflict _ λ runs. record {
                    locked = locked;
                    lease = lease;
                    rows = rows;
                    writes = writes;
                    lease_found = lease_found;
                    token_matches = token_matches;
                    current = current;
                    active_lease = active_lease;
                    written = refl;
                    answered = refl;
                  }

rows_again :
    (context : RuntimeContext) (k j : ℕ) (f : Lease → Lease) (s : Store) (locked : Locked)
    → lock_rows (λ _. true) context k s ≡ ok locked
    → lock_rows (λ _. true) context k (update_lease j f s) ≡ ok locked
unfolding lock_rows
rows_again context k j f s locked e = e

lease_again :
    (k expires : ℕ) (lease : Lease) (s : Store)
    → find_lease k s ≡ some lease
    → find_lease k (update_lease lease.id (λ l. record l { expires_at = expires }) s)
      ≡ some (record lease { expires_at = expires })
lease_again k expires lease s e =
    find_first-rewritten (λ l. l.attempt_id == k) (λ l. l.id == lease.id)
      (λ l. record l { expires_at = expires }) (λ l. refl) s.leases
    ∙ rw e (ground arith)

lt-ltb : (a b : ℕ) → a < b → ltb a b ≡ true
lt-ltb a b h = ground arith

holder_renews :
    (context : RuntimeContext) (k token later : ℕ) (t : Store) (locked : Locked) (lease : Lease)
    → lock_rows (λ _. true) context k t ≡ ok locked
    → profile_allows_runtime_write locked.profile ≡ true
    → find_lease locked.attempt.id t ≡ some lease
    → (lease.token_digest == token) ≡ true
    → (lease.machine_generation == locked.workspace.machine_generation) ≡ true
    → is_active lease.state ≡ true
    → later < lease.expires_at
    → renew_lease context k token later t
      ≡ ok (
        update_lease lease.id (λ l. record l { expires_at = later + seconds 60 }) t,
        record { lease_id = lease.id; expires_at = later + seconds 60 },
      )
unfolding renew_lease
holder_renews context k token later t locked lease rows writes found token_ok current active runs =
    rw (rows, writes, found, token_ok, current, active, lt-ltb later lease.expires_at runs) refl

-- The attempt that is locked is the one that was asked for.
locked_id :
    (context : RuntimeContext) (k : ℕ) (s : Store) (locked : Locked)
    → lock_rows (λ _. true) context k s ≡ ok locked
    → locked.attempt.id ≡ k
locked_id context k s locked e =
    let h = lock_rows-IsLocked (λ _. true) context k s locked e in
    let hit =
      find_first-holds
        (λ (a : Attempt).
          a.id == k && in_workspace locked.workspace.id (find_execution a.execution_id s))
        locked.attempt s.attempts h.attempt_found in
    ground (arith, hit)

-- A lease that was renewed runs for sixty seconds from then. Until it runs out, its holder can renew
-- it again for sixty seconds from the time of that renewal, with the same token. The condition is
-- that the lease and the rows that the service locks (those of the workspace, the attempt, its
-- execution and its profile) are found as the first renewal left them.
pub renewed_again :
    (context : RuntimeContext) (k token now later : ℕ) (s t u : Store) (r : LeaseReceipt)
    → renew_lease context k token now s ≡ ok (t, r)
    → lock_rows (λ _. true) context k u ≡ lock_rows (λ _. true) context k t
    → find_lease k u ≡ find_lease k t
    → later < r.expires_at
    → (r.expires_at ≡ now + seconds 60)
      × (v : Store) × (renew_lease context k token later u
          ≡ ok (v, record { lease_id = r.lease_id; expires_at = later + seconds 60 }))
renewed_again context k token now later s t u r e rows lease_kept runs =
    let h =
      Ensures-ok (IsRenewal context k token now s) _ (renew-IsRenewal context k token now s) e in
    let ends : r.expires_at ≡ now + seconds 60 =
      ap (λ (x : LeaseReceipt). x.expires_at) h.answered in
    let named : r.lease_id ≡ h.lease.id = ap (λ (x : LeaseReceipt). x.lease_id) h.answered in
    let renewed = record h.lease { expires_at = now + seconds 60 } in
    let j = h.locked.attempt.id in
    let own : j ≡ k = locked_id context k s h.locked h.rows in
    let rows_left : lock_rows (λ _. true) context k t ≡ ok h.locked =
      subst (λ x. lock_rows (λ _. true) context k x ≡ ok h.locked) (sym h.written)
        (rows_again context k h.lease.id _ s h.locked h.rows) in
    let lease_left : find_lease j t ≡ some renewed =
      subst (λ x. find_lease j x ≡ some renewed) (sym h.written)
        (lease_again j (now + seconds 60) h.lease s h.lease_found) in
    let lease_found : find_lease j u ≡ some renewed =
      subst (λ i. find_lease i u ≡ some renewed) (sym own)
        (lease_kept ∙ subst (λ i. find_lease i t ≡ some renewed) own lease_left) in
    (
      ends,
      update_lease h.lease.id (λ l. record l { expires_at = later + seconds 60 }) u,
      rw named (
          holder_renews context k token later u h.locked renewed (rows ∙ rows_left) h.writes
            lease_found h.token_matches h.current h.active_lease
            (subst (λ x. later < x) ends runs)),
    )
