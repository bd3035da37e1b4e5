-- ===== src/Daemon/Silent.antt =====
-- Which methods hand no message to the port, and what the others hand over.
use codex_hooks.Base.{
  append-nil, inr, sym, inl, if◌then◌else◌, Option-cases, Bool-cases, Option, String, ◌≡◌, refl,
  ◌∙◌, ap, List, [], ◌∷◌, ◌++◌, none, some, Outcome, ok, throws,
}
use codex_hooks.Base.Exec.{recover, continue, ◌>>=◌}
use codex_hooks.Base.Exec.Moves.{Moves, IsPreorder, moves_rules}
use codex_hooks.Protocol.Names.{DeliveryState}
use codex_hooks.Protocol.Normalize.{Intent}
use codex_hooks.Protocol.Value.{Fields, Value, obj}
use codex_hooks.Daemon.Record.{HookResult, IntentRecord}
use codex_hooks.Daemon.World.{
  SteerRequest, Port, World, primitives, get_intent, Call, sent, steered,
}
use codex_hooks.Daemon.Send.{
  send_message, is_steer, record_delivery_evidence, received, send, deliver, transport, reserve,
  send_failed, advance_evidence, steer_message,
}
use codex_hooks.Daemon.Dispatch.{ask_status}
use codex_hooks.Daemon.Frame.{
  received-Moves, IsFrame, advance_evidence-Moves, send_failed-Moves, reserve-Moves,
}

-- No message is handed over.
pub record Silent {E : Type 0} (w w' : World E) : Type 0 where
  pub same : w'.calls ≡ w.calls

pub Silent-IsPreorder : {E : Type 0} → IsPreorder (Silent {E = E})
Silent-IsPreorder = record {
  reflexive = λ w. record { same = refl };
  transitive = λ u v w p q. record { same = q.same ∙ p.same };
}

module _ {E : Type 0} (port : Port E) where
  pub Silent-IsFrame : (intent : Intent) → IsFrame port intent Silent
  unfolding primitives ask_status
  Silent-IsFrame intent = record {
    preorder = Silent-IsPreorder;
    on_transition = λ state evidence. record { at = λ w. record { same = refl } };
    on_remember = λ d decision. record { at = λ w. record { same = refl } };
    on_now = record { at = λ w. record { same = refl } };
    on_get = λ key. record { at = λ w. record { same = refl } };
    on_status = λ target. record { at = λ w. record { same = refl } };
  }

  advance_evidence-Silent :
      (existing : IntentRecord) (state : DeliveryState) (evidence : Fields)
      → Moves Silent (advance_evidence port existing state evidence)
  advance_evidence-Silent existing state evidence =
      advance_evidence-Moves port existing.intent Silent (Silent-IsFrame existing.intent) existing
        state evidence refl

  get_intent-Silent : (key : String) → Moves Silent (get_intent {E = E} key)
  unfolding primitives
  get_intent-Silent key = record { at = λ w. record { same = refl } }

  pub record_delivery_evidence-Silent :
      (intent_id : String) (state : DeliveryState) (evidence : Value)
      → Moves Silent (record_delivery_evidence port intent_id state evidence)
  unfolding record_delivery_evidence
  record_delivery_evidence-Silent intent_id state (obj evidence) =
      search (moves_rules, Silent-IsPreorder, get_intent-Silent, advance_evidence-Silent) depth 12
  record_delivery_evidence-Silent intent_id state evidence =
      search (moves_rules, Silent-IsPreorder) depth 12

  received-Silent :
      (event kind : String) (intent : Intent) (state attempt_id : String) (native : Value)
      → Moves Silent (received port event kind intent state attempt_id native)
  unfolding received
  received-Silent event kind intent state attempt_id native =
      received-Moves port intent Silent (Silent-IsFrame intent)
        (record_delivery_evidence-Silent intent.intent_id DeliveryState.delivered) event kind state
        attempt_id native

  -- Without the capability to steer, nothing is handed over.
  abbrev pub steer_calls : {A : Type 0} → Option A → SteerRequest → List Call
  steer_calls none request = []
  steer_calls (some steer) request = steered request ∷ []

  -- The messages that one call of `transport` hands over.
  unfoldable pub handed_over : Intent → String → List Call
  handed_over intent attempt_id =
      if is_steer intent.operation
      then steer_calls port.steer_message (record {
        target = intent.target;
        body = intent.body;
        attempt_id = attempt_id;
        turn_id = intent.turn_id;
      })
      else sent (record { target = intent.target; body = intent.body; attempt_id = attempt_id })
        ∷ []

  calls-steer_message :
      (request : SteerRequest) (w : World E)
      → (steer_message port request w).1.calls ≡ w.calls ++ steer_calls port.steer_message request
  unfolding steer_message primitives
  calls-steer_message request w = elim (Option-cases port.steer_message) [
    | inl e ↦ rw e (sym (append-nil w.calls))
    | inr (steer, e) ↦ rw e refl
  ]

  calls-transport :
      (intent : Intent) (attempt_id : String) (w : World E)
      → (transport port intent attempt_id w).1.calls ≡ w.calls ++ handed_over intent attempt_id
  unfolding transport send_message handed_over primitives
  calls-transport intent attempt_id w = elim (Bool-cases (is_steer intent.operation)) [
    | inl e ↦ rw e (calls-steer_message _ w)
    | inr e ↦ rw e refl
  ]

  calls-deliver :
      (event kind : String) (intent : Intent) (state attempt_id : String) (w : World E)
      → (deliver port event kind intent state attempt_id w).1.calls
        ≡ (transport port intent attempt_id w).1.calls
  unfolding deliver ◌>>=◌
  calls-deliver event kind intent state attempt_id w = go (transport port intent attempt_id w).0
    where
      go :
          (r : Outcome Value)
          → (continue
              (received port event kind intent state attempt_id)
              r
              (transport port intent attempt_id w).1).1.calls
            ≡ (transport port intent attempt_id w).1.calls
      go (ok native) = ((received-Silent event kind intent state attempt_id native).at _).same
      go (throws e) = refl

  -- A send hands over its own message once, and never again, whatever the native answer; a
  -- steering message for a port that cannot steer is not handed over at all.
  pub calls-send :
      (event kind : String) (intent : Intent) (state attempt_id : String) (w : World E)
      → (send port event kind intent state attempt_id w).1.calls
        ≡ w.calls ++ handed_over intent attempt_id
  unfolding send primitives reserve
  calls-send event kind intent state attempt_id w =
      go (deliver port event kind intent state attempt_id reserved).0
        (deliver port event kind intent state attempt_id reserved).1
        (calls-deliver event kind intent state attempt_id reserved
          ∙ calls-transport intent attempt_id reserved
          ∙ ap (λ cs. cs ++ handed_over intent attempt_id)
              ((reserve-Moves port intent Silent (Silent-IsFrame intent) state attempt_id).at
                w).same)
    where
      reserved : World E
      reserved = (reserve port intent state attempt_id w).1

      go :
          (r : Outcome HookResult) (t : World E)
          → t.calls ≡ w.calls ++ handed_over intent attempt_id
          → (recover (send_failed port event kind intent state attempt_id) r t).1.calls
            ≡ w.calls ++ handed_over intent attempt_id
      go (ok result) t e = e
      go (throws error) t e =
          ((send_failed-Moves port intent Silent (Silent-IsFrame intent) event kind state attempt_id
              error).at
            t).same
          ∙ e
