-- ===== src/Daemon/Settled.antt =====
-- How a record is left settled: what the steps of a send store.
pub mod Send
use codex_hooks.Base.{
  is_blank, true, false, Outcome-cases, inr, inl, Bool-cases, Fault, String, ◌≡◌, refl, some, ok,
}
use codex_hooks.Base.Dict.{lookup, lookup-put_self}
use codex_hooks.Protocol.Names.{delivery_state_name, DeliveryState}
use codex_hooks.Protocol.Normalize.{Intent}
use codex_hooks.Protocol.Value.{is_text, Fields, Value, obj}
use codex_hooks.Daemon.Record.{
  Delivery, Delivery, Delivery, Delivery, Delivery, Delivery, Delivery, Delivery, Delivery,
  evidence_next, Delivery, Delivery, Shown, Delivery, Decision, Delivery, IntentRecord,
}
use codex_hooks.Daemon.World.{fail_intent, Port, World, primitives}
use codex_hooks.Daemon.Send.{
  move_on, is_next, same_state, settle, confirm, record_delivery_evidence, send_failed,
  advance_evidence,
}
use codex_hooks.Daemon.Receipts.{native_state, is_uncertain_transport_error, has_code}
use codex_hooks.Daemon.EvidenceRules.{assert_delivery_evidence}

-- The record that the world keeps for an intent has this state and this decision.
pub record IsStored {E : Type 0} (intent : Intent) (state : DeliveryState) (decision : Decision)
    (w : World E) : Type 0 where
  pub delivery : Delivery
  pub found :
      lookup intent.intent_id w.store.intents
      ≡ some (record { delivery = delivery; decision = decision; intent = intent })
  pub reached : delivery.state ≡ state

-- What `send` stores for an accepted message.
abbrev pub sent_record : Intent → Delivery → IntentRecord
sent_record intent accepted = record {
  delivery = accepted;
  decision = Decision.sent;
  intent = intent;
}

-- The ends of a send. The reservation's own states, "emitted" and "sending", are not among them.
pub data IsSettled {E : Type 0} (intent : Intent) (w : World E) : Type 0 where
  was_accepted : IsStored intent DeliveryState.accepted Decision.sent w → IsSettled intent w
  was_delivered : IsStored intent DeliveryState.delivered Decision.sent w → IsSettled intent w
  was_deferred : IsStored intent DeliveryState.deferred Decision.deferred w → IsSettled intent w
  is_unknown :
      IsStored intent DeliveryState.unknown_delivery Decision.unknown_delivery w
      → IsSettled intent w
  has_failed : IsStored intent DeliveryState.failed Decision.failed w → IsSettled intent w

module _ {E : Type 0} (port : Port E) (intent : Intent) where
  pub fail_intent-IsStored :
      (event kind code state message : String) (w : World E)
      → IsStored intent DeliveryState.failed Decision.failed
          (fail_intent port event kind intent code state message w).1
  unfolding fail_intent primitives
  fail_intent-IsStored event kind code state message w = record {
    delivery = _;
    found = lookup-put_self intent.intent_id _ w.store.intents;
    reached = refl;
  }

  settle-IsStored :
      (event kind : String) (reached : DeliveryState) (decision : Decision)
      (state attempt_id code message : String) (w : World E)
      → IsStored intent reached decision
          (settle port event kind intent reached decision state attempt_id code message w).1
  unfolding settle primitives
  settle-IsStored event kind reached decision state attempt_id code message w = record {
    delivery = _;
    found = lookup-put_self intent.intent_id _ w.store.intents;
    reached = refl;
  }

  pub send_failed-IsSettled :
      (event kind state attempt_id : String) (error : Fault) (w : World E)
      → IsSettled intent (send_failed port event kind intent state attempt_id error w).1
  unfolding send_failed
  send_failed-IsSettled event kind state attempt_id error w =
      elim (Bool-cases (has_code "native_thread_busy" error)) [
        | inl e ↦ rw e (was_deferred (settle-IsStored _ _ _ _ _ _ _ _ w))
        | inr e ↦ rw e (elim (Bool-cases (is_uncertain_transport_error error)) [
          | inl u ↦ rw u (is_unknown (settle-IsStored _ _ _ _ _ _ _ _ w))
          | inr u ↦ rw u (has_failed (fail_intent-IsStored _ _ _ _ _ w))
        ])
      ]

  -- A record whose evidence is recorded keeps its intent and its decision.
  pub move_on-IsStored :
      (existing : IntentRecord) (state : DeliveryState) (evidence : Fields) (w : World E)
      (shown : Shown)
      → existing.intent ≡ intent
      → (move_on port existing state evidence w).0 ≡ ok shown
      → IsStored intent state existing.decision (move_on port existing state evidence w).1
  unfolding move_on primitives
  move_on-IsStored existing state evidence w shown same done =
      elim (Outcome-cases (assert_delivery_evidence existing state (obj evidence))) [
        | inl (passed, e) ↦
            rw (e, same)
              (record {
                delivery = _;
                found = lookup-put_self intent.intent_id _ w.store.intents;
                reached = refl;
              })
        | inr (fault, e) ↦ let clash = rw e at done in cc
      ]

  -- Evidence of delivery for an accepted record: it is stored, or the call throws.
  advance_evidence-IsStored :
      (accepted : Delivery) (evidence : Fields) (w : World E) (shown : Shown)
      → accepted.state ≡ DeliveryState.accepted
      → (advance_evidence port (sent_record intent accepted) DeliveryState.delivered evidence w).0
        ≡ ok shown
      → IsStored intent DeliveryState.delivered Decision.sent
          (advance_evidence port (sent_record intent accepted) DeliveryState.delivered evidence w).1
  unfolding advance_evidence
  advance_evidence-IsStored accepted evidence w shown state done =
      let later : same_state accepted.state DeliveryState.delivered ≡ false =
        rw state (unfold same_state delivery_state_name in refl) in
      let next : is_next accepted.state DeliveryState.delivered ≡ true =
        rw state (unfold is_next evidence_next same_state delivery_state_name in refl) in
      rw (later, next)
        (move_on-IsStored (sent_record intent accepted) DeliveryState.delivered evidence w shown
          refl (rw (later, next) at done))

  pub confirm-IsSettled :
      (attempt_id : String) (native : Value) (accepted : Delivery) (w : World E) (shown : Shown)
      → accepted.state ≡ DeliveryState.accepted
      → lookup intent.intent_id w.store.intents ≡ some (sent_record intent accepted)
      → (confirm port intent attempt_id native accepted w).0 ≡ ok shown
      → IsSettled intent (confirm port intent attempt_id native accepted w).1
  unfolding confirm record_delivery_evidence primitives
  confirm-IsSettled attempt_id native accepted w shown state found done =
      elim (Bool-cases (is_text (native_state native) "delivered")) [
        | inr e ↦
            rw e (was_accepted (record { delivery = accepted; found = found; reached = state }))
        | inl e ↦ rw e (elim (Bool-cases (is_blank intent.intent_id)) [
          | inl b ↦ let clash = rw (e, b) at done in cc
          | inr b ↦
              rw (b, found)
                (was_delivered
                  (advance_evidence-IsStored accepted _ w shown state (rw (e, b, found) at done)))
        ])
      ]
