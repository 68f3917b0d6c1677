-- ===== src/Events/Appended.antt =====
-- How an append of an event ends: the event is there with the same content, or it is new.
use allies_foundry.Base.{
  ℕ, ◌<◌, ◌≡◌, refl, ap, subst, ◌∙◌, List, ◌∷◌, ◌&&◌, true, false, Option, none, some, is_some, leb,
  ◌==◌, arith, find_first, ensure, refuse, ok, conflict, Ensures, Ensures-bind, Ensures->>=,
  Ensures-ensure, Ensures-refuse,
}
use allies_foundry.Models.{Store, ApprovalRequest, ExecutionEvent, is_live}
use allies_foundry.Delivery.Row.{Row}
use allies_foundry.Delivery.Repair.{Wire}
use allies_foundry.Delivery.Outbox.{enqueue_event_delivery}
use allies_foundry.Leases.Mutation.{authorize}
use allies_foundry.Events.Append.{
  seen, Append, Fresh, append_event_once, check_append, find_event, replay_event, insert_event,
  authorize_replay, same_content, with_digest, new_event, save_event, latest_sequence, enqueue,
  approval_effect,
}
use allies_foundry.Events.Effects.{IsEffect, approval_effect-IsEffect, IsQueued, enqueue-IsQueued}

leb-false : (a b : ℕ) → leb a b ≡ false → b < a
leb-false a b h = ground arith

pub is_some-false {ℓ} : {A : Type ℓ} (o : Option A) → is_some o ≡ false → o ≡ none
is_some-false none e = refl
is_some-false (some a) e = cc

module _ (w : Store → Wire) (ids : Fresh) (call : Append) (now : ℕ) (s : Store) where
  -- The event was there.
  pub record Replayed (t : Store) (e : ExecutionEvent) : Type 0 where
    pub existing : ExecutionEvent
    pub found : find_event call.attempt_id call.event_id s ≡ some existing
    pub same : same_content existing call ≡ true
    pub outbox : List Row
    pub row : Option Row
    pub queued :
        enqueue_event_delivery
          (seen w (save_event (with_digest existing) s))
          existing.id
          ids.delivery
          existing.created_at
          s.outbox
        ≡ ok (outbox, row)
    pub store : t ≡ record (save_event (with_digest existing) s) { outbox = outbox }
    pub event : e ≡ with_digest existing

  -- The event is new.
  pub record Inserted (t : Store) (e : ExecutionEvent) : Type 0 where
    pub not_found : find_event call.attempt_id call.event_id s ≡ none
    pub follows : latest_sequence call.attempt_id s.events < call.sequence
    pub new_key : find_first (λ x. x.id == ids.event) s.events ≡ none
    pub approvals : List ApprovalRequest
    pub outbox : List Row
    pub row : Option Row
    pub queued :
        enqueue_event_delivery
          (seen w (record s { events = new_event ids call now ∷ s.events; approvals = approvals }))
          ids.event
          ids.delivery
          now
          s.outbox
        ≡ ok (outbox, row)
    pub store : t ≡ record s {
      events = new_event ids call now ∷ s.events;
      approvals = approvals;
      outbox = outbox;
    }
    pub event : e ≡ new_event ids call now

  pub data Appended (done : Store × ExecutionEvent) : Type 0 where
    replayed : Replayed done.0 done.1 → Appended done
    inserted : Inserted done.0 done.1 → Appended done

  replay-Appended :
      (existing : ExecutionEvent)
      → find_event call.attempt_id call.event_id s ≡ some existing
      → Ensures Appended (replay_event w ids call existing now s)
  unfolding replay_event
  replay-Appended existing found = Ensures-bind Appended (authorize_replay call now s) _ λ _.
      Ensures-ensure Appended (same_content existing call) conflict _ λ same.
        let u = save_event (with_digest existing) s in
        Ensures->>= (IsQueued w ids.delivery (with_digest existing) u) Appended
          (enqueue w ids.delivery (with_digest existing) u) _
          (enqueue-IsQueued w ids.delivery (with_digest existing) u)
          λ t h. replayed (record {
            existing = existing;
            found = found;
            same = same;
            outbox = h.0;
            row = h.1;
            queued = h.2;
            store = h.3;
            event = refl;
          })

  insert-Appended :
      find_event call.attempt_id call.event_id s ≡ none
      → Ensures Appended (insert_event w ids call now s)
  unfolding insert_event new_event
  insert-Appended not_found =
      let u = record s { events = new_event ids call now ∷ s.events } in
      Ensures-bind Appended
        (authorize call.attempt_id call.lease_id call.token_digest call.machine_generation now s) _
        λ attempt. Ensures-bind Appended (ensure (is_live attempt.status) conflict) _ λ _.
          Ensures-refuse Appended (leb call.sequence (latest_sequence call.attempt_id s.events))
            conflict _
            λ follows.
              Ensures-bind Appended
                (refuse
                  (is_some (
                    find_first (λ e. e.attempt_id == call.attempt_id && e.sequence == call.sequence)
                      s.events))
                  conflict)
                _
                λ _.
                  Ensures-refuse Appended (is_some (find_first (λ e. e.id == ids.event) s.events))
                    conflict _
                    λ new_key.
                      Ensures->>= (IsEffect u) Appended (approval_effect attempt call now u) _
                        (approval_effect-IsEffect attempt call now u)
                        λ t effect.
                          Ensures->>= (IsQueued w ids.delivery (new_event ids call now) t) Appended
                            (enqueue w ids.delivery (new_event ids call now) t) _
                            (enqueue-IsQueued w ids.delivery (new_event ids call now) t)
                            λ v h. inserted (record {
                              not_found = not_found;
                              follows = leb-false _ _ follows;
                              new_key = is_some-false _ new_key;
                              approvals = effect.0;
                              outbox = h.0;
                              row = h.1;
                              queued =
                                  subst
                                    (λ (x : Store).
                                      enqueue_event_delivery (seen w x) ids.event ids.delivery now
                                        x.outbox
                                      ≡ ok (h.0, h.1))
                                    effect.1 h.2;
                              store = h.3 ∙ ap (λ (x : Store). record x { outbox = h.0 }) effect.1;
                              event = refl;
                            })

  pub append-Appended : Ensures Appended (append_event_once w ids call now s)
  unfolding append_event_once
  append-Appended =
      Ensures-bind Appended (check_append call) _
        λ _. either (find_event call.attempt_id call.event_id s) refl
    where
      either :
          (o : Option ExecutionEvent)
          → find_event call.attempt_id call.event_id s ≡ o
          → Ensures Appended (elim o [
            | some existing ↦ replay_event w ids call existing now s
            | none ↦ insert_event w ids call now s
          ])
      either none e = insert-Appended e
      either (some a) e = replay-Appended a e
