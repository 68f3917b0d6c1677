-- ===== src/Leases/Finishing.antt =====
-- The end of an attempt moves each lease forward.
use allies_foundry.Base.{ℕ, refl, subst, Ensures}
use allies_foundry.Models.{Store, Lease, LeaseState, RuntimeContext}
use allies_foundry.Approvals.Service.{cancel_live_approval_requests}
use allies_foundry.Leases.Rows.{Locked}
use allies_foundry.Leases.Finish.{Finish, finish_attempt, write_finish}
use allies_foundry.Delivery.Repair.{Wire}
use allies_foundry.Events.Append.{Fresh}
use allies_foundry.Leases.FinishRule.{finish-Ensures}
use allies_foundry.Leases.Moves.{Moved, Moved-refl}
use allies_foundry.Leases.Moving.{Moves, Moved-resolve}

Moved-write_finish :
    (locked : Locked) (lease : Lease) (finish : Finish) (receipt_id now : ℕ) (s : Store)
    → Moved s.leases (write_finish locked lease finish receipt_id now s).leases
unfolding write_finish cancel_live_approval_requests
Moved-write_finish locked lease finish receipt_id now s =
    Moved-resolve lease LeaseState.released s refl

pub finish-Moves :
    (w : Store → Wire) (ids : Fresh) (context : RuntimeContext) (k : ℕ) (finish : Finish)
    (receipt_id now : ℕ) (s : Store)
    → Ensures (Moves s) (finish_attempt w ids context k finish receipt_id now s)
finish-Moves w ids context k finish receipt_id now s =
    finish-Ensures w ids context k finish receipt_id now s (Moves s)
      (λ locked r found may_write d e. Moved-refl s.leases)
      (λ locked lease t found may_write h.
        subst (λ xs. Moved xs (write_finish locked lease finish receipt_id now t).leases) h.leases
          (Moved-write_finish locked lease finish receipt_id now t))
