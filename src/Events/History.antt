-- ===== src/Events/History.antt =====
-- The event log through any history: its numbering, and that it only grows.
use allies_foundry.Base.{
  ℕ, ◌+◌, ◌≡◌, refl, sym, ap, subst, ◌∙◌, true, false, ◌&&◌, Option, none, some, is_some, List, [],
  ◌∷◌, ltb, ◌==◌, arith, inl, inr, Bool-cases, find_first, ok, ensure, refuse, validation, conflict,
  Ensures, Ensures-map, Ensures-ok, Ensures->>=, Ensures-bind, Ensures-refuse,
}
use allies_foundry.Models.{Store, Attempt, Lease, ExecutionEvent, is_unresolved}
use allies_foundry.Delivery.Repair.{Wire}
use allies_foundry.Events.Append.{
  Append, Fresh, append_event_once, find_event, latest_sequence, with_digest, new_event, save_event,
  enqueue, max_terminal_sequence,
}
use allies_foundry.Events.Effects.{IsQueued, enqueue-IsQueued}
use allies_foundry.Events.Appended.{Appended, replayed, inserted, append-Appended, is_some-false}
use allies_foundry.Events.Expiry.{
  Expiry, append_lease_expired_failure, replay_failure, insert_failure, failure_event, same_failure,
}
use allies_foundry.Events.Numbering.{
  has_identity, Fits, IsNumbered, SameEvent, SameEvent-refl, AllSame, AllSame-refl,
  AllSame-IsNumbered, with_digest-AllSame,
}

-- What an append does to the log: the events are as they were, or one is new.
pub data Grows (xs ys : List ExecutionEvent) : Type 0 where
  as_before : AllSame xs ys → Grows xs ys
  grown : (e : ExecutionEvent) → Fits e xs → ys ≡ e ∷ xs → Grows xs ys

Appended-Grows :
    (w : Store → Wire) (ids : Fresh) (call : Append) (now : ℕ) (s : Store)
    (done : Store × ExecutionEvent)
    → IsNumbered s.events
    → Appended w ids call now s done
    → Grows s.events done.0.events
unfolding new_event
Appended-Grows w ids call now s done n (replayed h) = as_before (
    subst (λ (x : Store). AllSame s.events x.events) (sym h.store)
      (with_digest-AllSame (has_identity call.attempt_id call.event_id) h.existing s.events n
        h.found))
Appended-Grows w ids call now s done n (inserted h) =
    grown (new_event ids call now)
      (record { follows = h.follows; new_identity = h.not_found; new_key = h.new_key })
      (ap (λ (x : Store). x.events) h.store)

abbrev Grown : Store → Store × ExecutionEvent → Type 0
Grown s done = Grows s.events done.0.events

module _ (w : Store → Wire) (x : Expiry) (ids : Fresh) (attempt : Attempt) (now : ℕ)
    (s : Store) where
  replay_failure-Grows :
      (e : ExecutionEvent)
      → IsNumbered s.events
      → find_event attempt.id (x.event_id attempt.id) s ≡ some e
      → Ensures (Grown s) (replay_failure w x ids attempt e s)
  unfolding replay_failure
  replay_failure-Grows e n found =
      Ensures-bind (Grown s) (ensure (same_failure x e attempt) conflict) _ λ _.
        let u = save_event (with_digest e) s in
        Ensures->>= (IsQueued w ids.delivery (with_digest e) u) (Grown s)
          (enqueue w ids.delivery (with_digest e) u) _
          (enqueue-IsQueued w ids.delivery (with_digest e) u)
          λ t h. as_before (
            subst (λ (y : Store). AllSame s.events y.events) (sym h.3)
              (with_digest-AllSame (has_identity attempt.id (x.event_id attempt.id)) e s.events n
                found))

  insert_failure-Grows :
      find_event attempt.id (x.event_id attempt.id) s ≡ none
      → Ensures (Grown s) (insert_failure w x ids attempt now s)
  unfolding insert_failure failure_event
  insert_failure-Grows not_found =
      let sequence = latest_sequence attempt.id s.events + 1 in
      Ensures-bind (Grown s) (refuse (ltb max_terminal_sequence sequence) conflict) _ λ _.
        Ensures-refuse (Grown s) (is_some (find_first (λ e. e.id == ids.event) s.events)) conflict _
          λ new_key.
            let e = failure_event x ids attempt sequence now in
            let u = record s { events = e ∷ s.events } in
            Ensures->>= (IsQueued w ids.delivery e u) (Grown s) (enqueue w ids.delivery e u) _
              (enqueue-IsQueued w ids.delivery e u)
              λ t h.
                grown e
                  (record {
                    follows = omega arith;
                    new_identity = not_found;
                    new_key = is_some-false _ new_key;
                  })
                  (ap (λ (y : Store). y.events) h.3)

  failure-Grows :
      (lease : Lease)
      → IsNumbered s.events
      → Ensures (Grown s) (append_lease_expired_failure w x ids attempt lease now s)
  unfolding append_lease_expired_failure
  failure-Grows lease n =
      Ensures-bind (Grown s)
        (ensure (lease.attempt_id == attempt.id && is_unresolved lease.state) validation) _
        λ _.
          Ensures-bind (Grown s) (refuse (ltb now lease.expires_at) validation) _
            λ _. either (find_event attempt.id (x.event_id attempt.id) s) refl
    where
      either :
          (o : Option ExecutionEvent)
          → find_event attempt.id (x.event_id attempt.id) s ≡ o
          → Ensures (Grown s) (elim o [
            | some existing ↦ replay_failure w x ids attempt existing s
            | none ↦ insert_failure w x ids attempt now s
          ])
      either none e = insert_failure-Grows e
      either (some a) e = replay_failure-Grows a n e

-- A transaction that appends an event, or one that leaves the log alone.
pub data Step (w : Store → Wire) (x : Expiry) (s t : Store) : Type 0 where
  appended :
      (ids : Fresh) (call : Append) (now : ℕ) (e : ExecutionEvent)
      → append_event_once w ids call now s ≡ ok (t, e)
      → Step w x s t
  expired :
      (ids : Fresh) (attempt : Attempt) (lease : Lease) (now : ℕ) (e : ExecutionEvent)
      → append_lease_expired_failure w x ids attempt lease now s ≡ ok (t, e)
      → Step w x s t
  elsewhere : t.events ≡ s.events → Step w x s t

pub data History (w : Store → Wire) (x : Expiry) (start : Store) : Store → Type 0 where
  here : History w x start start
  next : {s t : Store} → History w x start s → Step w x s t → History w x start t

Step-Grows :
    (w : Store → Wire) (x : Expiry) (s t : Store)
    → IsNumbered s.events
    → Step w x s t
    → Grows s.events t.events
Step-Grows w x s t n (appended ids call now e eq) =
    Ensures-ok (Grown s) _
      (Ensures-map (Appended w ids call now s) (Grown s) (append_event_once w ids call now s)
        (λ done h. Appended-Grows w ids call now s done n h) (append-Appended w ids call now s))
      eq
Step-Grows w x s t n (expired ids attempt lease now e eq) =
    Ensures-ok (Grown s) _ (failure-Grows w x ids attempt now s lease n) eq
Step-Grows w x s t n (elsewhere eq) =
    as_before (subst (AllSame s.events) (sym eq) (AllSame-refl s.events))

Grows-IsNumbered : (xs ys : List ExecutionEvent) → IsNumbered xs → Grows xs ys → IsNumbered ys
Grows-IsNumbered xs ys n (as_before h) = AllSame-IsNumbered xs ys h n
Grows-IsNumbered xs ys n (grown e fits eq) = subst IsNumbered (sym eq) (fits, n)

-- If the events of a log have different keys and identities and are numbered upwards for each
-- attempt, then so they are after any history of appends and of transactions that write no event.
pub History-IsNumbered :
    (w : Store → Wire) (x : Expiry) (s t : Store)
    → History w x s t
    → IsNumbered s.events
    → IsNumbered t.events
History-IsNumbered w x s t here n = n
History-IsNumbered w x s t (next {s = u} h st) n =
    let before = History-IsNumbered w x s u h n in
    Grows-IsNumbered u.events t.events before (Step-Grows w x u t before st)

SameEvent-trans : (a b c : ExecutionEvent) → SameEvent a b → SameEvent b c → SameEvent a c
SameEvent-trans a b c h k = record {
  id = k.id ∙ h.id;
  attempt_id = k.attempt_id ∙ h.attempt_id;
  event_id = k.event_id ∙ h.event_id;
  stream_id = k.stream_id ∙ h.stream_id;
  sequence = k.sequence ∙ h.sequence;
  event_type = k.event_type ∙ h.event_type;
  payload = k.payload ∙ h.payload;
  digest = k.digest ∙ h.digest;
}

-- The event with an identity is there, unchanged.
abbrev pub Keeps : ℕ → ℕ → ExecutionEvent → List ExecutionEvent → Type 0
Keeps attempt_id event_id e ys =
    (b : ExecutionEvent) × (find_first (has_identity attempt_id event_id) ys ≡ some b)
    × SameEvent e b

AllSame-Keeps :
    (k i : ℕ) (e : ExecutionEvent) (xs ys : List ExecutionEvent)
    → AllSame xs ys
    → find_first (has_identity k i) xs ≡ some e
    → Keeps k i e ys
unfolding find_first
AllSame-Keeps k i e [] [] h f = cc
AllSame-Keeps k i e [] (y ∷ ys) h f = elim h [ ]
AllSame-Keeps k i e (x ∷ xs) [] h f = elim h [ ]
AllSame-Keeps k i e (x ∷ xs) (y ∷ ys) h f = elim (Bool-cases (has_identity k i x)) [
  | inl c ↦
      let same : x ≡ e = ground (arith, c, f) in
      let hit : has_identity k i y ≡ true = rw (h.0.attempt_id, h.0.event_id) c in
      rw hit (y, refl, subst (λ z. SameEvent z y) same h.0)
  | inr c ↦
      let miss : has_identity k i y ≡ false = rw (h.0.attempt_id, h.0.event_id) c in
      rw miss (AllSame-Keeps k i e xs ys h.1 (ground (arith, c, f)))
]

same_identity :
    (k i : ℕ) (e : ExecutionEvent)
    → has_identity k i e ≡ true
    → (e.attempt_id ≡ k) × (e.event_id ≡ i)
same_identity k i e c = ground arith

fresh-Keeps :
    (k i : ℕ) (e new : ExecutionEvent) (xs : List ExecutionEvent)
    → find_first (has_identity new.attempt_id new.event_id) xs ≡ none
    → find_first (has_identity k i) xs ≡ some e
    → Keeps k i e (new ∷ xs)
unfolding find_first
fresh-Keeps k i e new xs absent f = elim (Bool-cases (has_identity k i new)) [
  | inl c ↦
      let there : find_first (has_identity new.attempt_id new.event_id) xs ≡ some e =
        rw ((same_identity k i new c).0, (same_identity k i new c).1) f in
      ground (arith, absent, there)
  | inr c ↦ rw c (e, f, SameEvent-refl e)
]

Grows-Keeps :
    (k i : ℕ) (e : ExecutionEvent) (xs ys : List ExecutionEvent)
    → Grows xs ys
    → find_first (has_identity k i) xs ≡ some e
    → Keeps k i e ys
Grows-Keeps k i e xs ys (as_before h) f = AllSame-Keeps k i e xs ys h f
Grows-Keeps k i e xs ys (grown new fits eq) f =
    subst (Keeps k i e) (sym eq) (fresh-Keeps k i e new xs fits.new_identity f)

-- Through any history of appends and of transactions that write no event, from a numbered log, an
-- event that is stored is found under its attempt and identity, and its key, sequence number, type,
-- stream, payload and digest are the same.
pub History-Keeps :
    (w : Store → Wire) (x : Expiry) (k i : ℕ) (e : ExecutionEvent) (s t : Store)
    → History w x s t
    → IsNumbered s.events
    → find_event k i s ≡ some e
    → Keeps k i e t.events
History-Keeps w x k i e s t here n f = (e, f, SameEvent-refl e)
History-Keeps w x k i e s t (next {s = u} h st) n f =
    let before = History-Keeps w x k i e s u h n f in
    let after =
      Grows-Keeps k i before.0 u.events t.events
        (Step-Grows w x u t (History-IsNumbered w x s u h n) st) before.1 in
    (after.0, after.1, SameEvent-trans e before.0 after.0 before.2 after.2)
