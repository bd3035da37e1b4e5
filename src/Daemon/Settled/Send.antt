-- ===== src/Daemon/Settled/Send.antt =====
-- src/daemon.js: how `send` ends. Whatever the native side does, the record is left settled.
use codex_hooks.Base.{
  ◌==◌, Outcome-cases, inr, inl, Bool-cases, String, ◌≡◌, refl, some, Outcome, ok, throws,
}
use codex_hooks.Base.Exec.{pure, continue, ◌>>=◌}
use codex_hooks.Base.Dict.{lookup, lookup-put_self}
use codex_hooks.Protocol.Names.{DeliveryState}
use codex_hooks.Protocol.Normalize.{Intent}
use codex_hooks.Protocol.Value.{Value}
use codex_hooks.Daemon.Record.{
  result, HookResult, Delivery, Delivery, Delivery, Delivery, Delivery, Delivery, Delivery,
  Delivery, Delivery, Delivery, Delivery, Shown, Delivery, Decision, Delivery,
}
use codex_hooks.Daemon.World.{Port, World, primitives}
use codex_hooks.Daemon.Send.{
  answer, stop_output, confirm, received, send, deliver, transport, reserve,
}
use codex_hooks.Daemon.Receipts.{assert_accepted_receipt}
use codex_hooks.Daemon.Settled.{sent_record, IsSettled, confirm-IsSettled, send_failed-IsSettled}

module _ {E : Type 0} (port : Port E) (intent : Intent) where
  stop_output-keeps : (kind : String) (w : World E) → (stop_output port kind w).1 ≡ w
  unfolding stop_output primitives
  stop_output-keeps kind w = elim (Bool-cases (kind == "stop")) [
    | inl e ↦ rw e refl
    | inr e ↦ rw e refl
  ]

  answer-IsSettled :
      (event kind attempt_id : String) (native : Value) (accepted : Delivery) (w : World E)
      (r : HookResult)
      → accepted.state ≡ DeliveryState.accepted
      → lookup intent.intent_id w.store.intents ≡ some (sent_record intent accepted)
      → (answer port event kind intent attempt_id native accepted w).0 ≡ ok r
      → IsSettled intent (answer port event kind intent attempt_id native accepted w).1
  unfolding answer ◌>>=◌
  answer-IsSettled event kind attempt_id native accepted w r state found done =
      elim (Outcome-cases (confirm port intent attempt_id native accepted w).0) [
        | inr (fault, e) ↦ let clash = rw e at done in cc
        | inl (shown, e) ↦ rw e (
            go shown e
              (stop_output port kind (confirm port intent attempt_id native accepted w).1).0)
      ]
    where
      go :
          (shown : Shown)
          → (confirm port intent attempt_id native accepted w).0 ≡ ok shown
          → (output : Outcome Value)
          → IsSettled intent
              (continue
                (λ hook_output. pure (record (result event kind Decision.sent) {
                  delivery = some shown;
                  hook_output = some hook_output;
                }))
                output
                (stop_output port kind (confirm port intent attempt_id native accepted w).1).1).1
      go shown e (ok output) =
          rw stop_output-keeps
            (confirm-IsSettled port intent attempt_id native accepted w shown state found e)
      go shown e (throws fault) =
          rw stop_output-keeps
            (confirm-IsSettled port intent attempt_id native accepted w shown state found e)

  received-IsSettled :
      (event kind state attempt_id : String) (native : Value) (w : World E) (r : HookResult)
      → (received port event kind intent state attempt_id native w).0 ≡ ok r
      → IsSettled intent (received port event kind intent state attempt_id native w).1
  unfolding received primitives
  received-IsSettled event kind state attempt_id native w r done =
      elim (Outcome-cases (assert_accepted_receipt native attempt_id)) [
        | inr (fault, e) ↦ let clash = rw e at done in cc
        | inl (receipt, e) ↦ rw e (
            answer-IsSettled event kind attempt_id native _ _ r refl
              (lookup-put_self intent.intent_id _ w.store.intents) (rw e at done))
      ]

  deliver-IsSettled :
      (event kind state attempt_id : String) (w : World E) (r : HookResult)
      → (deliver port event kind intent state attempt_id w).0 ≡ ok r
      → IsSettled intent (deliver port event kind intent state attempt_id w).1
  unfolding deliver ◌>>=◌
  deliver-IsSettled event kind state attempt_id w r done =
      elim (Outcome-cases (transport port intent attempt_id w).0) [
        | inr (fault, e) ↦ let clash = rw e at done in cc
        | inl (native, e) ↦
            rw e (received-IsSettled event kind state attempt_id native _ r (rw e at done))
      ]

  -- However the native side answers or fails, a send leaves the intent's record stored in one of
  -- five states with their decisions: accepted or delivered (sent), deferred, unknown_delivery
  -- or failed. The reservation's states emitted and sending are not among them.
  pub send-IsSettled :
      (event kind state attempt_id : String) (w : World E)
      → IsSettled intent (send port event kind intent state attempt_id w).1
  unfolding send primitives reserve
  send-IsSettled event kind state attempt_id w =
      elim (Outcome-cases (deliver port event kind intent state attempt_id reserved).0) [
        | inr (fault, e) ↦
            rw e (send_failed-IsSettled port intent event kind state attempt_id fault _)
        | inl (r, e) ↦ rw e (deliver-IsSettled event kind state attempt_id reserved r e)
      ]
    where
      reserved : World E
      reserved = (reserve port intent state attempt_id w).1
