-- ===== src/Events/Numbering.antt =====
-- The numbering of the events of an attempt: a new event has a larger sequence number than every
-- one before it, and a stored event is not changed.
use allies_foundry.Base.{
  ℕ, ◌<◌, ◌≡◌, refl, subst, Bool, true, false, ◌&&◌, none, some, List, [], ◌∷◌, ◌==◌, arith, inl,
  inr, Bool-cases, find_first, update_where,
}
use allies_foundry.Models.{ExecutionEvent}
use allies_foundry.Events.Append.{latest_sequence, with_digest, stored_digest}

-- The test of an event's identity.
abbrev pub has_identity : ℕ → ℕ → ExecutionEvent → Bool
has_identity attempt_id event_id e = e.attempt_id == attempt_id && e.event_id == event_id

-- An event in front of the events before it.
pub record Fits (e : ExecutionEvent) (es : List ExecutionEvent) : Type 0 where
  pub follows : latest_sequence e.attempt_id es < e.sequence
  pub new_identity : find_first (has_identity e.attempt_id e.event_id) es ≡ none
  pub new_key : find_first (λ x. x.id == e.id) es ≡ none

-- The table, the newest event first.
abbrev pub IsNumbered : List ExecutionEvent → Type 0
IsNumbered [] = Unit
IsNumbered (e ∷ es) = Fits e es × IsNumbered es

-- What is never changed of an event.
pub record SameEvent (a b : ExecutionEvent) : Type 0 where
  pub id : b.id ≡ a.id
  pub attempt_id : b.attempt_id ≡ a.attempt_id
  pub event_id : b.event_id ≡ a.event_id
  pub stream_id : b.stream_id ≡ a.stream_id
  pub sequence : b.sequence ≡ a.sequence
  pub event_type : b.event_type ≡ a.event_type
  pub payload : b.payload ≡ a.payload
  pub digest : stored_digest b ≡ stored_digest a

pub SameEvent-refl : (a : ExecutionEvent) → SameEvent a a
SameEvent-refl a = record {
  id = refl;
  attempt_id = refl;
  event_id = refl;
  stream_id = refl;
  sequence = refl;
  event_type = refl;
  payload = refl;
  digest = refl;
}

SameEvent-with_digest : (a : ExecutionEvent) → SameEvent a (with_digest a)
SameEvent-with_digest a = record {
  id = refl;
  attempt_id = refl;
  event_id = refl;
  stream_id = refl;
  sequence = refl;
  event_type = refl;
  payload = refl;
  digest = refl;
}

abbrev pub AllSame : List ExecutionEvent → List ExecutionEvent → Type 0
AllSame [] [] = Unit
AllSame [] (y ∷ ys) = ⊥
AllSame (x ∷ xs) [] = ⊥
AllSame (x ∷ xs) (y ∷ ys) = SameEvent x y × AllSame xs ys

pub AllSame-refl : (xs : List ExecutionEvent) → AllSame xs xs
AllSame-refl [] = tt
AllSame-refl (x ∷ xs) = (SameEvent-refl x, AllSame-refl xs)

latest-AllSame :
    (k : ℕ) (xs ys : List ExecutionEvent)
    → AllSame xs ys
    → latest_sequence k ys ≡ latest_sequence k xs
unfolding latest_sequence
latest-AllSame k [] [] h = refl
latest-AllSame k [] (y ∷ ys) h = elim h [ ]
latest-AllSame k (x ∷ xs) [] h = elim h [ ]
latest-AllSame k (x ∷ xs) (y ∷ ys) h =
    rw (h.0.attempt_id, h.0.sequence, latest-AllSame k xs ys h.1) refl

absent-AllSame :
    (p : ExecutionEvent → Bool) (xs ys : List ExecutionEvent)
    → ((a b : ExecutionEvent) → SameEvent a b → p b ≡ p a)
    → AllSame xs ys
    → find_first p xs ≡ none
    → find_first p ys ≡ none
unfolding find_first
absent-AllSame p [] [] keep h e = refl
absent-AllSame p [] (y ∷ ys) keep h e = elim h [ ]
absent-AllSame p (x ∷ xs) [] keep h e = elim h [ ]
absent-AllSame p (x ∷ xs) (y ∷ ys) keep h e = elim (Bool-cases (p x)) [
  | inl c ↦ ground (arith, c, e)
  | inr c ↦ rw (keep x y h.0, c) (absent-AllSame p xs ys keep h.1 (ground (arith, c, e)))
]

Fits-AllSame :
    (x y : ExecutionEvent) (xs ys : List ExecutionEvent)
    → SameEvent x y
    → AllSame xs ys
    → Fits x xs
    → Fits y ys
Fits-AllSame x y xs ys same h f = record {
  follows = rw (same.attempt_id, same.sequence, latest-AllSame x.attempt_id xs ys h) f.follows;
  new_identity =
      rw (same.attempt_id, same.event_id)
        (absent-AllSame (has_identity x.attempt_id x.event_id) xs ys
          (λ a b k. rw (k.attempt_id, k.event_id) refl) h f.new_identity);
  new_key =
      rw same.id (absent-AllSame (λ e. e.id == x.id) xs ys (λ a b k. rw k.id refl) h f.new_key);
}

pub AllSame-IsNumbered :
    (xs ys : List ExecutionEvent) → AllSame xs ys → IsNumbered xs → IsNumbered ys
AllSame-IsNumbered [] [] h n = tt
AllSame-IsNumbered [] (y ∷ ys) h n = elim h [ ]
AllSame-IsNumbered (x ∷ xs) [] h n = elim h [ ]
AllSame-IsNumbered (x ∷ xs) (y ∷ ys) h n =
    (Fits-AllSame x y xs ys h.0 h.1 n.0, AllSame-IsNumbered xs ys h.1 n.1)

-- A table without a key is not rewritten at this key.
absent-update_where :
    (k : ℕ) (e : ExecutionEvent) (xs : List ExecutionEvent)
    → find_first (λ x. x.id == k) xs ≡ none
    → AllSame xs (update_where (λ x. x.id == k) (λ _. e) xs)
unfolding find_first update_where
absent-update_where k e [] h = tt
absent-update_where k e (x ∷ xs) h = elim (Bool-cases (x.id == k)) [
  | inl c ↦ ground (arith, c, h)
  | inr c ↦ rw c (SameEvent-refl x, absent-update_where k e xs (ground (arith, c, h)))
]

-- A row that was found has a key that is there.
pub found_key :
    (p : ExecutionEvent → Bool) (k : ℕ) (e : ExecutionEvent) (xs : List ExecutionEvent)
    → find_first p xs ≡ some e
    → find_first (λ x. x.id == k) xs ≡ none
    → (k == e.id) ≡ false
unfolding find_first
found_key p k e [] f h = cc
found_key p k e (x ∷ xs) f h = elim (Bool-cases (p x)) [
  | inl c ↦ ground (arith, f, h, c)
  | inr c ↦ found_key p k e xs (ground (arith, f, c)) (ground (arith, h))
]

rewritten_head :
    (x : ExecutionEvent) (xs : List ExecutionEvent)
    → find_first (λ y. y.id == x.id) xs ≡ none
    → AllSame (x ∷ xs) (update_where (λ y. y.id == x.id) (λ _. with_digest x) (x ∷ xs))
unfolding update_where
rewritten_head x xs h =
    let self : (x.id == x.id) ≡ true = ground arith in
    rw self (SameEvent-with_digest x, absent-update_where x.id (with_digest x) xs h)

-- The event that was found is rewritten, with its digest; the other events are as they were.
pub with_digest-AllSame :
    (p : ExecutionEvent → Bool) (e : ExecutionEvent) (xs : List ExecutionEvent)
    → IsNumbered xs
    → find_first p xs ≡ some e
    → AllSame xs (update_where (λ x. x.id == e.id) (λ _. with_digest e) xs)
unfolding find_first update_where
with_digest-AllSame p e [] n f = tt
with_digest-AllSame p e (x ∷ xs) n f = elim (Bool-cases (p x)) [
  | inl c ↦
      let same : x ≡ e = ground (arith, c, f) in
      subst (λ z. AllSame (x ∷ xs) (update_where (λ y. y.id == z.id) (λ _. with_digest z) (x ∷ xs)))
        same (rewritten_head x xs n.0.new_key)
  | inr c ↦
      let found : find_first p xs ≡ some e = ground (arith, c, f) in
      rw (found_key p x.id e xs found n.0.new_key)
        (SameEvent-refl x, with_digest-AllSame p e xs n.1 found)
]
