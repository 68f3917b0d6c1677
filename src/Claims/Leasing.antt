-- ===== src/Claims/Leasing.antt =====
-- The other rows of the lease table, when a lease is taken up again.
use allies_foundry.Base.{ℕ, Bool, not, List, ◌==◌, select}
use allies_foundry.Models.{Lease}

abbrev has_id : ℕ → Lease → Bool
has_id k l = l.id == k

-- The rows with another key.
abbrev pub others : ℕ → List Lease → List Lease
others k = select (λ l. not (has_id k l))
