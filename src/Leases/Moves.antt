-- ===== src/Leases/Moves.antt =====
-- The lease table over time: how one lease may change, and that no two leases clash.
use allies_foundry.Base.{
  ◌≡◌, refl, Bool, true, false, not, List, [], ◌∷◌, ◌++◌, arith, inl, inr, Bool-cases, All,
  update_where,
}
use allies_foundry.Models.{Lease, LeaseState, is_active, is_unresolved}
use allies_foundry.Leases.Service.{clashes, clashes_any}

-- The order of the states: an active lease may become any, a stopping one is never active again,
-- and one that was released or fenced holds nothing ever again.
abbrev pub forward : LeaseState → LeaseState → Bool
forward LeaseState.active b = true
forward LeaseState.stopping b = not (is_active b)
forward LeaseState.released b = not (is_unresolved b)
forward LeaseState.fenced b = not (is_unresolved b)

-- What may happen to one lease.
pub record LeaseMoves (a b : Lease) : Type 0 where
  pub same_id : b.id ≡ a.id
  pub same_attempt : b.attempt_id ≡ a.attempt_id
  pub same_profile : b.profile_id ≡ a.profile_id
  pub same_scope : b.scope_key ≡ a.scope_key
  pub same_token : b.token_digest ≡ a.token_digest
  pub same_generation : b.machine_generation ≡ a.machine_generation
  pub moves_forward : forward a.state b.state ≡ true

pub LeaseMoves-refl : (a : Lease) → LeaseMoves a a
LeaseMoves-refl a = ground arith

pub LeaseMoves-trans : (a b c : Lease) → LeaseMoves a b → LeaseMoves b c → LeaseMoves a c
LeaseMoves-trans a b c h k = ground arith

-- The table after a transaction that creates none: row by row.
abbrev pub Moved : List Lease → List Lease → Type 0
Moved [] [] = Unit
Moved [] (y ∷ ys) = ⊥
Moved (x ∷ xs) [] = ⊥
Moved (x ∷ xs) (y ∷ ys) = LeaseMoves x y × Moved xs ys

-- The table after any transactions: the rows that were there, and more behind them.
abbrev pub Evolved : List Lease → List Lease → Type 0
Evolved [] ys = Unit
Evolved (x ∷ xs) [] = ⊥
Evolved (x ∷ xs) (y ∷ ys) = LeaseMoves x y × Evolved xs ys

pub Moved-refl : (xs : List Lease) → Moved xs xs
Moved-refl [] = tt
Moved-refl (x ∷ xs) = (LeaseMoves-refl x, Moved-refl xs)

pub Moved-trans : (xs ys zs : List Lease) → Moved xs ys → Moved ys zs → Moved xs zs
Moved-trans [] [] [] h k = tt
Moved-trans [] [] (z ∷ zs) h k = elim k [ ]
Moved-trans [] (y ∷ ys) zs h k = elim h [ ]
Moved-trans (x ∷ xs) [] zs h k = elim h [ ]
Moved-trans (x ∷ xs) (y ∷ ys) [] h k = elim k [ ]
Moved-trans (x ∷ xs) (y ∷ ys) (z ∷ zs) h k =
    (LeaseMoves-trans x y z h.0 k.0, Moved-trans xs ys zs h.1 k.1)

pub Moved-Evolved : (xs ys : List Lease) → Moved xs ys → Evolved xs ys
Moved-Evolved [] ys h = tt
Moved-Evolved (x ∷ xs) [] h = elim h [ ]
Moved-Evolved (x ∷ xs) (y ∷ ys) h = (h.0, Moved-Evolved xs ys h.1)

pub Evolved_refl : (xs : List Lease) → Evolved xs xs
Evolved_refl xs = Moved-Evolved xs xs (Moved-refl xs)

pub Evolved_trans : (xs ys zs : List Lease) → Evolved xs ys → Evolved ys zs → Evolved xs zs
Evolved_trans [] ys zs h k = tt
Evolved_trans (x ∷ xs) [] zs h k = elim h [ ]
Evolved_trans (x ∷ xs) (y ∷ ys) [] h k = elim k [ ]
Evolved_trans (x ∷ xs) (y ∷ ys) (z ∷ zs) h k =
    (LeaseMoves-trans x y z h.0 k.0, Evolved_trans xs ys zs h.1 k.1)

pub Evolved-append : (xs ys : List Lease) → Evolved xs (xs ++ ys)
Evolved-append [] ys = tt
Evolved-append (x ∷ xs) ys = (LeaseMoves-refl x, Evolved-append xs ys)

-- An update moves the table, if it moves the rows that it rewrites.
pub Moved-update_where :
    (q : Lease → Bool) (f : Lease → Lease) (xs : List Lease)
    → All (λ x. q x ≡ true → LeaseMoves x (f x)) xs
    → Moved xs (update_where q f xs)
unfolding update_where
Moved-update_where q f [] h = tt
Moved-update_where q f (x ∷ xs) h = elim (Bool-cases (q x)) [
  | inl c ↦ rw c (h.0 c, Moved-update_where q f xs h.1)
  | inr c ↦ rw c (LeaseMoves-refl x, Moved-update_where q f xs h.1)
]

-- No two leases of the table clash: keys, attempts and tokens are distinct, and a profile has at
-- most one unresolved lease for each scope.
abbrev pub IsExclusive : List Lease → Type 0
IsExclusive [] = Unit
IsExclusive (x ∷ xs) = (clashes_any x xs ≡ false) × IsExclusive xs

clashes-LeaseMoves :
    (a b x y : Lease) → LeaseMoves a b → LeaseMoves x y → clashes a x ≡ false → clashes b y ≡ false
unfolding clashes
clashes-LeaseMoves a b x y h k c = ground arith

clashes_any-Moved :
    (a b : Lease) (xs ys : List Lease)
    → LeaseMoves a b
    → Moved xs ys
    → clashes_any a xs ≡ false
    → clashes_any b ys ≡ false
unfolding clashes_any
clashes_any-Moved a b [] [] h k c = refl
clashes_any-Moved a b [] (y ∷ ys) h k c = elim k [ ]
clashes_any-Moved a b (x ∷ xs) [] h k c = elim k [ ]
clashes_any-Moved a b (x ∷ xs) (y ∷ ys) h k c =
    ground (arith, clashes-LeaseMoves a b x y h k.0, clashes_any-Moved a b xs ys h k.1)

pub Moved-IsExclusive : (xs ys : List Lease) → Moved xs ys → IsExclusive xs → IsExclusive ys
Moved-IsExclusive [] [] h e = tt
Moved-IsExclusive [] (y ∷ ys) h e = elim h [ ]
Moved-IsExclusive (x ∷ xs) [] h e = elim h [ ]
Moved-IsExclusive (x ∷ xs) (y ∷ ys) h e =
    (clashes_any-Moved x y xs ys h.0 h.1 e.0, Moved-IsExclusive xs ys h.1 e.1)

clashes_sym : (a b : Lease) → clashes a b ≡ false → clashes b a ≡ false
unfolding clashes
clashes_sym a b c = ground arith

clashes_any-append :
    (x l : Lease) (xs : List Lease)
    → clashes_any x xs ≡ false
    → clashes l x ≡ false
    → clashes_any x (xs ++ l ∷ []) ≡ false
unfolding clashes_any
clashes_any-append x l [] h c = ground (arith, clashes_sym l x c)
clashes_any-append x l (y ∷ ys) h c = ground (arith, clashes_any-append x l ys)

pub append-IsExclusive :
    (l : Lease) (xs : List Lease)
    → clashes_any l xs ≡ false
    → IsExclusive xs
    → IsExclusive (xs ++ l ∷ [])
unfolding clashes_any
append-IsExclusive l [] c e = (refl, tt)
append-IsExclusive l (x ∷ xs) c e =
    (clashes_any-append x l xs e.0 (ground arith), append-IsExclusive l xs (ground arith) e.1)
