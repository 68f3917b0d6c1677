-- ===== src/Intents/Waking.antt =====
-- A prompt never leaves an existing Machine without an operation that wakes it.
use allies_foundry.Base.{
  ℕ, ◌≡◌, refl, Bool, true, false, ◌&&◌, ◌||◌, not, none, some, is_some, ltb, ◌+◌, arith, inl, inr,
  Bool-cases, Result, ok,
}
use allies_foundry.Models.{Workspace}
use allies_foundry.Claims.Ready.{is_runtime_ready}
use allies_foundry.Intents.Requests.{
  Power, RuntimeOperationTrigger, WakeSettings, is_idle, is_stopping, is_for_execution,
  has_existing_binding, extend_keep_warm, request_operation, replace_stop, take_over,
  wake_operation, request_execution_wake_locked,
}

-- An operation that is under way has an identity.
unfoldable pub has_identity : Power → Bool
unfolding is_idle
has_identity p = is_idle p.runtime_operation_state || is_some p.runtime_operation_id

-- An operation that starts the Machine for an execution.
unfoldable pub is_waking : Power → Bool
unfolding is_idle is_stopping is_for_execution
is_waking p =
    not (is_idle p.runtime_operation_state)
    && not (is_stopping p.runtime_operation_state)
    && is_for_execution p.runtime_operation_trigger
    && is_some p.runtime_operation_id

-- The workspace has no Machine to start.
unfoldable pub is_unprovisioned : Workspace → Power → Bool
unfolding is_idle has_existing_binding
is_unprovisioned w p = is_idle p.runtime_operation_state && not (has_existing_binding w)

record Woken (w : Workspace) (p : Power) (r : Result Power) : Type 0 where
  woken : Power
  returned : r ≡ ok woken
  identity : has_identity woken ≡ true
  wakes : (is_unprovisioned w p || is_waking woken) ≡ true

take_over-Woken :
    (now : ℕ) (w : Workspace) (p : Power)
    → is_idle p.runtime_operation_state ≡ false
    → is_stopping p.runtime_operation_state ≡ false
    → is_some p.runtime_operation_id ≡ true
    → Woken w p (take_over now p)
unfolding take_over has_identity is_waking is_unprovisioned
take_over-Woken now w p i s o = elim (Bool-cases (is_for_execution p.runtime_operation_trigger)) [
  | inl c ↦ record {
    woken = p;
    returned = rw (o, c) refl;
    identity = rw (o, i) refl;
    wakes = ground (arith, i, s, o, c);
  }
  | inr c ↦ record {
    woken = record p {
      runtime_operation_trigger = some RuntimeOperationTrigger.execution;
      runtime_operation_requested_at = some now;
      runtime_operation_retry_count = 0;
    };
    returned = rw (o, c) refl;
    identity = rw (o, i) refl;
    wakes = ground (arith, i, s, o, c);
  }
]

wake_operation-Woken :
    (fresh now : ℕ) (w : Workspace) (p : Power)
    → has_identity p ≡ true
    → Woken w p (wake_operation fresh now w p)
unfolding wake_operation has_identity is_waking is_unprovisioned request_operation replace_stop
wake_operation-Woken fresh now w p h = elim (Bool-cases (is_idle p.runtime_operation_state)) [
  | inl i ↦ elim (Bool-cases (has_existing_binding w)) [
    | inl b ↦ record {
      woken = request_operation fresh RuntimeOperationTrigger.execution now p;
      returned = rw (i, b) refl;
      identity = refl;
      wakes = rw (i, b) refl;
    }
    | inr b ↦ record { woken = p; returned = rw (i, b) refl; identity = h; wakes = rw (i, b) refl }
  ]
  | inr i ↦ elim (Bool-cases (is_stopping p.runtime_operation_state)) [
    | inl s ↦ record {
      woken = replace_stop fresh RuntimeOperationTrigger.execution now p;
      returned = rw (i, s) refl;
      identity = refl;
      wakes = rw i refl;
    }
    | inr s ↦ rw (i, s) (take_over-Woken now w p i s (ground (arith, h, i)))
  ]
]

-- The extension of the keep-warm time leaves the operation as it is.
pub warm-has_identity :
    (k now : ℕ) (p : Power) → has_identity p ≡ true → has_identity (extend_keep_warm k now p) ≡ true
unfolding extend_keep_warm has_identity
warm-has_identity k now p h =
    elim (Bool-cases
      (elim p.speculative_keep_warm_until [ none ↦ true | some t ↦ ltb t (now + k) ])) [
        | inl c ↦ rw c h
        | inr c ↦ rw c h
      ]

warm-is_unprovisioned :
    (k now : ℕ) (w : Workspace) (p : Power)
    → is_unprovisioned w (extend_keep_warm k now p) ≡ is_unprovisioned w p
unfolding extend_keep_warm is_unprovisioned
warm-is_unprovisioned k now w p =
    elim (Bool-cases
      (elim p.speculative_keep_warm_until [ none ↦ true | some t ↦ ltb t (now + k) ])) [
        | inl c ↦ rw c refl
        | inr c ↦ rw c refl
      ]

-- Where an operation that is under way has an identity, a prompt is never refused, and leaves the
-- same: afterwards the Machine is ready, or the workspace has no Machine and no operation, or an
-- operation with an identity is under way for an execution that is not the one that stops the
-- Machine.
pub execution_wakes :
    (settings : WakeSettings) (fresh now : ℕ) (w : Workspace) (p : Power)
    → has_identity p ≡ true
    → (q : Power) × (request_execution_wake_locked settings fresh now w p ≡ ok q)
      × (has_identity q ≡ true)
      × ((is_runtime_ready settings.freshness w now || (is_unprovisioned w p || is_waking q))
          ≡ true)
unfolding request_execution_wake_locked
execution_wakes settings fresh now w p h =
    let warm = extend_keep_warm settings.keep_warm now p in
    let warm_h = warm-has_identity settings.keep_warm now p h in
    let woken = wake_operation-Woken fresh now w warm warm_h in
    elim (Bool-cases (is_runtime_ready settings.freshness w now)) [
      | inl c ↦ (warm, rw c refl, warm_h, rw c refl)
      | inr c ↦ (
        woken.woken,
        rw c woken.returned,
        woken.identity,
        rw (c, ← warm-is_unprovisioned settings.keep_warm now w p) woken.wakes,
      )
    ]
