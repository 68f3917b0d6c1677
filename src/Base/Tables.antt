-- ===== src/Base/Tables.antt =====
-- A table of the database as the list of its rows. A row is found by its primary key, `get(pk=…)`
-- and `filter(pk=…).first()`, and `save` rewrites the rows that have this key.
use Prim.Native.Nat.{ℕ}
use mathlib.Core.Path.{◌≡◌, refl}
use mathlib.Core.Bool.{Bool, true, false}
use mathlib.Core.Option.{Option, none, some}
use mathlib.Core.Option
use mathlib.Core.List.{◌++◌, List, [], ◌∷◌}
use mathlib.Core.Logic.{inl, inr}
use native.Mathlib.Omega.{arith}
use allies_foundry.Base.Tests.{◌==◌, if◌then◌else◌, Bool-cases}
use allies_foundry.Base.Lists.{All}

module _ {ℓ} {A : Type ℓ} where
  -- The first row that passes the test.
  unfoldable pub find_first : (A → Bool) → List A → Option A
  find_first p [] = none
  find_first p (x ∷ xs) = if p x then some x else find_first p xs

  -- `UPDATE … WHERE p`: every row that passes the test is rewritten.
  unfoldable pub update_where : (A → Bool) → (A → A) → List A → List A
  update_where p f [] = []
  update_where p f (x ∷ xs) = (if p x then f x else x) ∷ update_where p f xs

  -- A predicate survives an update that keeps it on the rows that are rewritten.
  pub All-update_where {κ} :
      (P : A → Type κ) (p : A → Bool) (f : A → A)
      → ((x : A) → p x ≡ true → P x → P (f x))
      → (xs : List A) → All P xs
      → All P (update_where p f xs)
  unfolding update_where
  All-update_where P p f keep [] h = tt
  All-update_where P p f keep (x ∷ xs) h = elim (Bool-cases (p x)) [
    | inl e ↦ rw e (keep x e h.0, All-update_where P p f keep xs h.1)
    | inr e ↦ rw e (h.0, All-update_where P p f keep xs h.1)
  ]

  -- A predicate established by an update, on the rows that are rewritten and on the others.
  pub All-update_where_to {κ μ} :
      (P : A → Type κ) (Q : A → Type μ) (p : A → Bool) (f : A → A)
      → ((x : A) → p x ≡ true → P x → Q (f x))
      → ((x : A) → p x ≡ false → P x → Q x)
      → (xs : List A) → All P xs
      → All Q (update_where p f xs)
  unfolding update_where
  All-update_where_to P Q p f hit miss [] h = tt
  All-update_where_to P Q p f hit miss (x ∷ xs) h = elim (Bool-cases (p x)) [
    | inl e ↦ rw e (hit x e h.0, All-update_where_to P Q p f hit miss xs h.1)
    | inr e ↦ rw e (miss x e h.0, All-update_where_to P Q p f hit miss xs h.1)
  ]

  -- A row that was not there is found once it is appended.
  pub find_first-appended :
      (p : A → Bool) (x : A) (xs : List A)
      → find_first p xs ≡ none
      → p x ≡ true
      → find_first p (xs ++ x ∷ []) ≡ some x
  unfolding find_first
  find_first-appended p x [] h e = rw e refl
  find_first-appended p x (y ∷ ys) h e = elim (Bool-cases (p y)) [
    | inl c ↦ ground (arith, c, h)
    | inr c ↦ rw c (find_first-appended p x ys (ground (arith, c, h)) e)
  ]

  -- What is found passes the test.
  pub find_first-holds :
      (p : A → Bool) (a : A) (xs : List A) → find_first p xs ≡ some a → p a ≡ true
  unfolding find_first
  find_first-holds p a [] e = cc
  find_first-holds p a (x ∷ xs) e = elim (Bool-cases (p x)) [
    | inl hit ↦ ground (arith, hit, e)
    | inr miss ↦ find_first-holds p a xs (ground (arith, miss, e))
  ]

  -- What is found passes the test, and satisfies what every row does.
  pub find_first-All {κ} :
      (P : A → Type κ) (p : A → Bool) (xs : List A) (a : A)
      → All P xs
      → find_first p xs ≡ some a
      → P a × (p a ≡ true)
  unfolding find_first
  find_first-All P p [] a h e = cc
  find_first-All P p (x ∷ xs) a h e = elim (Bool-cases (p x)) [
    | inl hit ↦ ground (arith, hit, h.0)
    | inr miss ↦ find_first-All P p xs a h.1 (ground (arith, miss))
  ]

  -- After an update of the rows under a key, the row found under a key is rewritten exactly if
  -- the keys are the same.
  pub find_first-update_where :
      (key : A → ℕ) (j k : ℕ) (f : A → A) (xs : List A)
      → ((x : A) → key (f x) ≡ key x)
      → find_first (λ x. key x == j) (update_where (λ x. key x == k) f xs) ≡ (
          if j == k
          then Option.map f (find_first (λ x. key x == j) xs)
          else find_first (λ x. key x == j) xs)
  unfolding find_first update_where
  find_first-update_where key j k f [] keep = ground arith
  find_first-update_where key j k f (x ∷ xs) keep =
      ground (arith, keep x, find_first-update_where key j k f xs keep)

  -- If a test finds a row, and the new version of that row passes it too, then after the rows with
  -- its key are rewritten the test finds the new version.
  pub find_first-replace :
      (key : A → ℕ) (p : A → Bool) (a b : A) (xs : List A)
      → find_first p xs ≡ some a
      → p b ≡ true
      → key b ≡ key a
      → find_first p (update_where (λ x. key x == key b) (λ _. b) xs) ≡ some b
  unfolding find_first update_where
  find_first-replace key p a b [] f h k = cc
  find_first-replace key p a b (x ∷ xs) f h k = ground (arith, find_first-replace key p a b xs)

  -- A search by a test that the update leaves as it was finds the row, rewritten or not.
  pub find_first-rewritten :
      (p q : A → Bool) (f : A → A)
      → ((x : A) → p (f x) ≡ p x)
      → (xs : List A)
      → find_first p (update_where q f xs)
        ≡ Option.map (λ x. if q x then f x else x) (find_first p xs)
  unfolding find_first update_where
  find_first-rewritten p q f keep [] = refl
  find_first-rewritten p q f keep (x ∷ xs) =
      ground (arith, keep x, find_first-rewritten p q f keep xs)

  pub find_first-cong :
      (p q : A → Bool) → ((x : A) → p x ≡ q x) → (xs : List A) → find_first p xs ≡ find_first q xs
  unfolding find_first
  find_first-cong p q same [] = refl
  find_first-cong p q same (x ∷ xs) = ground (arith, same x, find_first-cong p q same xs)
