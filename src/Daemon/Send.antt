-- ===== src/Daemon/Send.antt =====
-- src/daemon.js: `send`, from the durable reservation over the transport to the stored outcome,
-- and `#recordDeliveryEvidence`, which moves a stored intent along the evidence chain.
use codex_hooks.Base.{
  String, Bool, true, false, none, some, [], ◌∷◌, Fault, ◌==◌, if◌then◌else◌, coded, fault, concat,
  is_blank,
}
use codex_hooks.Base.Exec.{on_option, Exec, pure, raise, lift, attempt, ◌>>=◌, ◌>>◌}
use codex_hooks.Protocol.Value.{Value, str, obj, Fields, end, set_field, is_text}
use codex_hooks.Protocol.Names.{DeliveryState, delivery_state_name, SendOperation}
use codex_hooks.Protocol.Normalize.{Intent}
use codex_hooks.Decision.{project_stop_decision}
use codex_hooks.Daemon.Record.{
  Delivery, Decision, IntentRecord, HookResult, Shown, fresh, kept, result, object, evidence_next,
}
use codex_hooks.Daemon.World.{
  Port, World, SendRequest, SteerRequest, sent, steered, ask, get_intent, note_call, transition,
  remember_intent, now, fail_intent,
}
use codex_hooks.Daemon.Receipts.{
  code_or, has_code, is_uncertain_transport_error, native_state, native_receipt,
  assert_accepted_receipt,
}
use codex_hooks.Daemon.EvidenceRules.{assert_delivery_evidence, assert_same_evidence}

-- `a === b`, for delivery states
unfoldable pub same_state : DeliveryState → DeliveryState → Bool
same_state a b = delivery_state_name a == delivery_state_name b

-- `DELIVERY_EVIDENCE_NEXT[from] === to`
unfoldable pub is_next : DeliveryState → DeliveryState → Bool
is_next from to = elim (evidence_next from) [ none ↦ false | some next ↦ same_state next to ]

unfoldable pub is_steer : SendOperation → Bool
is_steer SendOperation.steer = true
is_steer _ = false

module _ {E : Type 0} (port : Port E) where
  -- `this.steerMessage(request)`
  unfoldable pub steer_message : SteerRequest → Exec (World E) Value
  steer_message request =
      on_option port.steer_message
        (raise (coded "steer_capability_missing" "codexapp does not provide message steering"))
        (λ steer. do note_call (steered request); ask (steer request))

  -- `this.codexapp.send_message(request)`
  unfoldable pub send_message : SendRequest → Exec (World E) Value
  send_message request = do note_call (sent request); ask (port.send_message request)

  -- The native call of `send`.
  unfoldable pub transport : Intent → String → Exec (World E) Value
  transport intent attempt_id =
      if is_steer intent.operation
      then steer_message (record {
        target = intent.target;
        body = intent.body;
        attempt_id = attempt_id;
        turn_id = intent.turn_id;
      })
      else send_message
          (record { target = intent.target; body = intent.body; attempt_id = attempt_id })

  -- The end of `#recordDeliveryEvidence`, for evidence of the next state.
  unfoldable pub move_on : IntentRecord → DeliveryState → Fields → Exec (World E) Shown
  move_on existing state evidence = do
    lift (assert_delivery_evidence existing state (obj evidence))
    at ← now port
    delivery ← transition existing.intent state (obj (set_field "at" (str at) evidence))
    remember_intent existing.intent delivery existing.decision
    pure (fresh delivery)

  -- `#recordDeliveryEvidence` for a stored record and evidence that is an object.
  unfoldable pub advance_evidence : IntentRecord → DeliveryState → Fields → Exec (World E) Shown
  advance_evidence existing state evidence =
      if same_state existing.state state
      then (do
        lift (assert_same_evidence port.stringify existing state (obj evidence))
        pure (kept existing))
      else if is_next existing.state state
      then move_on existing state evidence
      else raise (
          coded "invalid_delivery_transition" (
            concat (
              "invalid delivery evidence transition: "
              ∷ delivery_state_name existing.state
              ∷ " -> "
              ∷ delivery_state_name state
              ∷ [])))

  -- `#recordDeliveryEvidence(intentId, state, evidence)`
  unfoldable pub record_delivery_evidence : String → DeliveryState → Value → Exec (World E) Shown
  record_delivery_evidence intent_id state (obj evidence) =
      if is_blank intent_id then raise (fault "intent_id is required") else do
        found ← get_intent intent_id
        on_option found
            (raise (coded "intent_not_found" (concat ("intent not found: " ∷ intent_id ∷ []))))
            (λ existing. advance_evidence existing state evidence)
  record_delivery_evidence intent_id state evidence =
      if is_blank intent_id
      then raise (fault "intent_id is required")
      else raise (fault "delivery evidence must be an object")

  -- The delivery that `send` shows: a native answer that is already "delivered" moves the record
  -- on at once.
  unfoldable pub confirm : Intent → String → Value → Delivery → Exec (World E) Shown
  confirm intent attempt_id native accepted =
      if is_text (native_state native) "delivered"
      then record_delivery_evidence intent.intent_id DeliveryState.delivered (
          object (
            ("native", native)
            ∷ ("target_receipt", native_receipt native)
            ∷ ("attempt_id", str attempt_id)
            ∷ []))
      else pure (fresh accepted)

  unfoldable pub stop_output : String → Exec (World E) Value
  stop_output kind =
      if kind == "stop"
      then lift (project_stop_decision (object (("action", str "inject") ∷ [])) true)
      else pure (obj end)

  -- The result of a send that was accepted.
  unfoldable pub answer :
      String → String → Intent → String → Value → Delivery → Exec (World E) HookResult
  answer event kind intent attempt_id native accepted = do
    delivered ← confirm intent attempt_id native accepted
    hook_output ← stop_output kind
    pure (record (result event kind Decision.sent) {
      delivery = some delivered;
      hook_output = some hook_output;
    })

  -- The body of the `try` block of `send`, from the native receipt on.
  unfoldable pub received :
      String → String → Intent → String → String → Value → Exec (World E) HookResult
  received event kind intent state attempt_id native = do
    lift (assert_accepted_receipt native attempt_id)
    at ← now port
    accepted ← transition intent DeliveryState.accepted (
        object (
          ("state", str state)
          ∷ ("attempt_id", str attempt_id)
          ∷ ("native", native)
          ∷ ("at", str at)
          ∷ []))
    remember_intent intent accepted Decision.sent
    answer event kind intent attempt_id native accepted

  -- The body of the `try` block of `send`.
  unfoldable pub deliver : String → String → Intent → String → String → Exec (World E) HookResult
  deliver event kind intent state attempt_id = do
    native ← transport intent attempt_id
    received event kind intent state attempt_id native

  -- A `catch` branch of `send` that keeps the intent: the delivery goes to `state'`.
  unfoldable pub settle :
      String
      → String
      → Intent
      → DeliveryState
      → Decision
      → String
      → String
      → String
      → String
      → Exec (World E) HookResult
  settle event kind intent reached decision state attempt_id code message = do
    at ← now port
    delivery ← transition intent reached (
        object (
          ("state", str state)
          ∷ ("code", str code)
          ∷ ("message", str message)
          ∷ ("attempt_id", str attempt_id)
          ∷ ("at", str at)
          ∷ []))
    remember_intent intent delivery decision
    pure (record (result event kind decision) {
      delivery = some (fresh delivery);
      error = some (record { code = code; message = message });
    })

  -- The `catch` block of `send`.
  unfoldable pub send_failed :
      String → String → Intent → String → String → Fault → Exec (World E) HookResult
  send_failed event kind intent state attempt_id error =
      if has_code "native_thread_busy" error
      then settle event kind intent DeliveryState.deferred Decision.deferred state attempt_id
          "native_thread_busy" error.message
      else if is_uncertain_transport_error error
      then settle event kind intent DeliveryState.unknown_delivery Decision.unknown_delivery state
          attempt_id (code_or "unknown_delivery" error) error.message
      else fail_intent port event kind intent (code_or "send_failed" error) state error.message

  -- What `send` writes before it crosses the transport.
  unfoldable pub reserve : Intent → String → String → Exec (World E) (Unit {0})
  reserve intent state attempt_id = do
    at ← now port
    emitted ←
        transition intent DeliveryState.emitted
          (object (("state", str state) ∷ ("attempt_id", str attempt_id) ∷ ("at", str at) ∷ []))
    remember_intent intent emitted Decision.emitted
    at' ← now port
    sending ←
        transition intent DeliveryState.sending
          (object (("state", str state) ∷ ("attempt_id", str attempt_id) ∷ ("at", str at') ∷ []))
    remember_intent intent sending Decision.sending

  -- `this.send(event, hookKind, intent, state, attemptId)`
  unfoldable pub send : String → String → Intent → String → String → Exec (World E) HookResult
  send event kind intent state attempt_id = do
    reserve intent state attempt_id
    attempt (deliver event kind intent state attempt_id)
        (send_failed event kind intent state attempt_id)
