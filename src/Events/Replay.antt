-- ===== src/Events/Replay.antt =====
-- An event that is sent again: the same content is answered with the stored event, another content
-- with an error.
use allies_foundry.Base.{
  ℕ, ◌≡◌, ◌≢◌, refl, ◌∙◌, subst, ◌&&◌, true, false, Bool, Option, none, some, List, [], ◌∷◌, ◌==◌,
  arith, inl, inr, Bool-cases, text_eq_refl, find_first, find_first-replace, update_where, ok,
  Ensures-ok, >>=-eq-ok,
}
use allies_foundry.Models.{Store, ExecutionEvent}
use allies_foundry.Delivery.Row.{Row}
use allies_foundry.Delivery.Repair.{Wire}
use allies_foundry.Delivery.Outbox.{enqueue_event_delivery}
use allies_foundry.Delivery.Enqueued.{enqueued_again}
use allies_foundry.Events.Append.{
  seen, Append, Fresh, append_event_once, check_append, find_event, authorize_replay, same_content,
  with_digest, new_event, replay_event, enqueue,
}
use allies_foundry.Events.Appended.{Appended, replayed, inserted, append-Appended}
use allies_foundry.Events.Numbering.{has_identity, IsNumbered, SameEvent, found_key}
use allies_foundry.Events.Expiry.{Expiry}
use allies_foundry.Events.History.{History, History-Keeps}

-- What an append leaves behind it.
record IsLogged (w : Store → Wire) (ids : Fresh) (call : Append) (s t : Store) (e : ExecutionEvent)
    : Type 0 where
  found : find_event call.attempt_id call.event_id t ≡ some e
  digested : with_digest e ≡ e
  same : same_content e call ≡ true
  row : Option Row
  queued :
      enqueue_event_delivery (seen w t) e.id ids.delivery e.created_at s.outbox ≡ ok (t.outbox, row)

found_new :
    (ids : Fresh) (call : Append) (now : ℕ) (xs : List ExecutionEvent)
    → find_first (has_identity call.attempt_id call.event_id) (new_event ids call now ∷ xs)
      ≡ some (new_event ids call now)
unfolding find_first new_event
found_new ids call now xs =
    let hit : (call.attempt_id == call.attempt_id && call.event_id == call.event_id) ≡ true =
      ground arith in
    rw hit refl

same_new :
    (ids : Fresh) (call : Append) (now : ℕ) → same_content (new_event ids call now) call ≡ true
unfolding same_content new_event
same_new ids call now =
    rw (text_eq_refl call.event_type, text_eq_refl call.stream_id) (ground arith)

with_digest-same :
    (e : ExecutionEvent) (call : Append) → same_content (with_digest e) call ≡ same_content e call
unfolding same_content
with_digest-same e call = refl

identity_found :
    (k i : ℕ) (e : ExecutionEvent) (xs : List ExecutionEvent)
    → find_first (has_identity k i) xs ≡ some e
    → has_identity k i e ≡ true
unfolding find_first
identity_found k i e [] f = cc
identity_found k i e (x ∷ xs) f = elim (Bool-cases (has_identity k i x)) [
  | inl c ↦ ground (arith, c, f)
  | inr c ↦ identity_found k i e xs (ground (arith, c, f))
]

Appended-IsLogged :
    (w : Store → Wire) (ids : Fresh) (call : Append) (now : ℕ) (s : Store)
    (done : Store × ExecutionEvent)
    → Appended w ids call now s done
    → IsLogged w ids call s done.0 done.1
unfolding new_event
Appended-IsLogged w ids call now s done (replayed h) =
    rw (h.store, h.event)
      (record {
        found =
            find_first-replace (λ e. e.id) (has_identity call.attempt_id call.event_id) h.existing
              (with_digest h.existing) s.events h.found
              (identity_found call.attempt_id call.event_id h.existing s.events h.found) refl;
        digested = refl;
        same = with_digest-same h.existing call ∙ h.same;
        row = h.row;
        queued = h.queued;
      })
Appended-IsLogged w ids call now s done (inserted h) =
    rw (h.store, h.event)
      (record {
        found = found_new ids call now s.events;
        digested = refl;
        same = same_new ids call now;
        row = h.row;
        queued = h.queued;
      })

absent_unchanged :
    (k : ℕ) (e : ExecutionEvent) (xs : List ExecutionEvent)
    → find_first (λ x. x.id == k) xs ≡ none
    → update_where (λ x. x.id == k) (λ _. e) xs ≡ xs
unfolding find_first update_where
absent_unchanged k e [] h = refl
absent_unchanged k e (x ∷ xs) h = elim (Bool-cases (x.id == k)) [
  | inl c ↦ ground (arith, c, h)
  | inr c ↦ rw (c, absent_unchanged k e xs (ground (arith, c, h))) refl
]

unchanged_head :
    (x : ExecutionEvent) (xs : List ExecutionEvent)
    → find_first (λ y. y.id == x.id) xs ≡ none
    → update_where (λ y. y.id == x.id) (λ _. x) (x ∷ xs) ≡ x ∷ xs
unfolding update_where
unchanged_head x xs h =
    let self : (x.id == x.id) ≡ true = ground arith in rw (self, absent_unchanged x.id x xs h) refl

-- An event that is saved as it was found changes nothing.
unchanged :
    (p : ExecutionEvent → Bool) (e : ExecutionEvent) (xs : List ExecutionEvent)
    → IsNumbered xs
    → find_first p xs ≡ some e
    → update_where (λ x. x.id == e.id) (λ _. e) xs ≡ xs
unfolding find_first update_where
unchanged p e [] n f = refl
unchanged p e (x ∷ xs) n f = elim (Bool-cases (p x)) [
  | inl c ↦
      let same : x ≡ e = ground (arith, c, f) in
      subst (λ z. update_where (λ y. y.id == z.id) (λ _. z) (x ∷ xs) ≡ x ∷ xs) same
        (unchanged_head x xs n.0.new_key)
  | inr c ↦
      let found : find_first p xs ≡ some e = ground (arith, c, f) in
      rw (found_key p x.id e xs found n.0.new_key, unchanged p e xs n.1 found) refl
]

replays :
    (w : Store → Wire) (ids : Fresh) (call : Append) (e : ExecutionEvent) (row : Option Row)
    (later : ℕ) (u : Store)
    → check_append call ≡ ok tt
    → find_event call.attempt_id call.event_id u ≡ some e
    → authorize_replay call later u ≡ ok tt
    → same_content e call ≡ true
    → with_digest e ≡ e
    → update_where (λ x. x.id == e.id) (λ _. e) u.events ≡ u.events
    → enqueue_event_delivery (seen w u) e.id ids.delivery e.created_at u.outbox ≡ ok (u.outbox, row)
    → append_event_once w ids call later u ≡ ok (u, e)
unfolding append_event_once replay_event enqueue
replays w ids call e row later u checked found allowed same digested kept queued =
    rw (checked, found, allowed, same, digested, kept, queued) refl

append_checks :
    (w : Store → Wire) (ids : Fresh) (call : Append) (now : ℕ) (s t : Store) (e : ExecutionEvent)
    → append_event_once w ids call now s ≡ ok (t, e)
    → check_append call ≡ ok tt
unfolding append_event_once
append_checks w ids call now s t e h = (>>=-eq-ok (check_append call) _ h).1

-- An event that was appended to a numbered log may be appended again with the same content: the
-- answer is the event as it was stored, and nothing is changed. The conditions are that the events
-- and the outbox are as the append left them, that the lease of the attempt authorizes the replay,
-- and that the execution and the attempt still give the event the same wire form.
pub replayed_append :
    (w : Store → Wire) (ids again : Fresh) (call : Append) (now later : ℕ) (s t u : Store)
    (e : ExecutionEvent)
    → IsNumbered t.events
    → append_event_once w ids call now s ≡ ok (t, e)
    → u.events ≡ t.events
    → u.outbox ≡ t.outbox
    → (seen w u).build_event_envelope e.id ≡ (seen w t).build_event_envelope e.id
    → authorize_replay call later u ≡ ok tt
    → append_event_once w again call later u ≡ ok (u, e)
replayed_append w ids again call now later s t u e n first events outbox form allowed =
    let h =
      Appended-IsLogged w ids call now s (t, e)
        (Ensures-ok (Appended w ids call now s) _ (append-Appended w ids call now s) first) in
    let queued =
      enqueued_again (seen w t) (seen w u) e.id ids.delivery e.created_at again.delivery
        e.created_at s.outbox t.outbox h.row form h.queued in
    let kept = unchanged (has_identity call.attempt_id call.event_id) e t.events n h.found in
    replays w again call e queued.0 later u (append_checks w ids call now s t e first)
      (rw events h.found) allowed h.same h.digested (rw events kept) (rw outbox queued.1)

same_content-SameEvent :
    (a b : ExecutionEvent) (call : Append)
    → SameEvent a b
    → same_content b call ≡ same_content a call
unfolding same_content
same_content-SameEvent a b call h = rw (h.sequence, h.event_type, h.stream_id, h.digest) refl

-- After an append and any history that follows it, an event with the same attempt and identity and
-- with another sequence number, type, stream or payload digest is never accepted.
pub conflicting_append :
    (w : Store → Wire) (x : Expiry) (ids again : Fresh) (call other : Append) (now later : ℕ)
    (s t u : Store) (e : ExecutionEvent) (done : Store × ExecutionEvent)
    → IsNumbered t.events
    → append_event_once w ids call now s ≡ ok (t, e)
    → History w x t u
    → other.attempt_id ≡ call.attempt_id
    → other.event_id ≡ call.event_id
    → same_content e other ≡ false
    → append_event_once w again other later u ≢ ok done
conflicting_append w x ids again call other now later s t u e done n first history same_attempt
      same_event differs second =
    let h =
      Appended-IsLogged w ids call now s (t, e)
        (Ensures-ok (Appended w ids call now s) _ (append-Appended w ids call now s) first) in
    let kept = History-Keeps w x call.attempt_id call.event_id e t u history n h.found in
    let there : find_event other.attempt_id other.event_id u ≡ some kept.0 =
      rw (same_attempt, same_event) kept.1 in
    elim (Ensures-ok (Appended w again other later u) _ (append-Appended w again other later u)
      second) [
        | replayed k ↦
            let same : k.existing ≡ kept.0 = cc in
            let agrees : same_content kept.0 other ≡ true =
              subst (λ b. same_content b other ≡ true) same k.same in
            let denies : same_content kept.0 other ≡ false =
              same_content-SameEvent e kept.0 other kept.2 ∙ differs in
            cc
        | inserted k ↦ cc
      ]
