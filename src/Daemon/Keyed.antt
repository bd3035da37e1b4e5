-- ===== src/Daemon/Keyed.antt =====
-- Each stored record stays under the id of its intent, whatever the methods on an intent do.
use codex_hooks.Base.{String, ◌≡◌, refl, some, Outcome, ◌==◌, inl, inr, Bool-cases, eq_iff}
use codex_hooks.Base.Exec.Moves.{Moves, IsPreorder, moves_rules}
use codex_hooks.Base.Dict.{lookup, put, lookup-put}
use codex_hooks.Protocol.Names.{DeliveryState}
use codex_hooks.Protocol.Normalize.{Intent}
use codex_hooks.Protocol.Value.{Value, Fields, obj}
use codex_hooks.Daemon.Record.{Delivery, Decision, IntentRecord}
use codex_hooks.Daemon.World.{
  Call, ask, World, Port, primitives, remember_intent, get_intent, note_call,
}
use codex_hooks.Daemon.Send.{
  send, record_delivery_evidence, advance_evidence, transport, steer_message, send_message,
}
use codex_hooks.Daemon.Dispatch.{ask_status, dispatch}
use codex_hooks.Daemon.Frame.{IsFrame, advance_evidence-Moves}
use codex_hooks.Daemon.Frame.Dispatch.{dispatch-Moves, send-Moves}
use codex_hooks.Daemon.Outbox.{IsKeyed}

pub record KeepsKeys {E : Type 0} (w w' : World E) : Type 0 where
  pub keeps : IsKeyed w → IsKeyed w'

pub KeepsKeys-IsPreorder : {E : Type 0} → IsPreorder (KeepsKeys {E = E})
KeepsKeys-IsPreorder = record {
  reflexive = λ w. record { keeps = λ k. k };
  transitive = λ u v w p q. record { keeps = λ k. q.keeps (p.keeps k) };
}

module _ {E : Type 0} (port : Port E) where
  pub same-KeepsKeys : (w w' : World E) → w'.store.intents ≡ w.store.intents → KeepsKeys w w'
  same-KeepsKeys w w' same = record {
    keeps = λ k. record { keyed = λ key r found. k.keyed key r (rw same at found) };
  }

  pub remember_intent-KeepsKeys :
      (intent : Intent) (d : Delivery) (decision : Decision)
      → Moves KeepsKeys (remember_intent {E = E} intent d decision)
  unfolding primitives
  remember_intent-KeepsKeys intent d decision = record {
    at = λ w. record { keeps = λ k. record { keyed = λ key r found. go w k key r found } };
  }
    where
      stored : IntentRecord
      stored = record { delivery = d; decision = decision; intent = intent }

      go :
          (w : World E)
          → IsKeyed w
          → (key : String) (r : IntentRecord)
          → lookup key (put intent.intent_id stored w.store.intents) ≡ some r
          → r.intent.intent_id ≡ key
      go w k key r found = elim (Bool-cases (intent.intent_id == key)) [
        | inl e ↦
            let at_key = (eq_iff intent.intent_id key).0 e in
            let same : some stored ≡ some r =
              rw (lookup-put intent.intent_id key stored w.store.intents, e) at found in
            let own : stored ≡ r = cc in rw (← own) at_key
        | inr e ↦
            k.keyed key r (rw (lookup-put intent.intent_id key stored w.store.intents, e) at found)
      ]

  pub KeepsKeys-IsFrame : (intent : Intent) → IsFrame port intent KeepsKeys
  unfolding primitives ask_status
  KeepsKeys-IsFrame intent = record {
    preorder = KeepsKeys-IsPreorder;
    on_transition = λ state evidence. record { at = λ w. same-KeepsKeys w _ refl };
    on_remember = λ d decision. remember_intent-KeepsKeys intent d decision;
    on_now = record { at = λ w. same-KeepsKeys w _ refl };
    on_get = λ key. record { at = λ w. same-KeepsKeys w _ refl };
    on_status = λ target. record { at = λ w. same-KeepsKeys w _ refl };
  }

  pub get_intent-KeepsKeys : (key : String) → Moves KeepsKeys (get_intent {E = E} key)
  unfolding primitives
  get_intent-KeepsKeys key = record { at = λ w. same-KeepsKeys w _ refl }

  advance_evidence-KeepsKeys :
      (existing : IntentRecord) (state : DeliveryState) (evidence : Fields)
      → Moves KeepsKeys (advance_evidence port existing state evidence)
  advance_evidence-KeepsKeys existing state evidence =
      advance_evidence-Moves port existing.intent KeepsKeys (KeepsKeys-IsFrame existing.intent)
        existing state evidence refl

  pub record_delivery_evidence-KeepsKeys :
      (intent_id : String) (state : DeliveryState) (evidence : Value)
      → Moves KeepsKeys (record_delivery_evidence port intent_id state evidence)
  unfolding record_delivery_evidence
  record_delivery_evidence-KeepsKeys intent_id state (obj evidence) =
      search (moves_rules, KeepsKeys-IsPreorder, get_intent-KeepsKeys, advance_evidence-KeepsKeys)
        depth 12
  record_delivery_evidence-KeepsKeys intent_id state evidence =
      search (moves_rules, KeepsKeys-IsPreorder) depth 12

  note_call-KeepsKeys : (c : Call) → Moves KeepsKeys (note_call {E = E} c)
  unfolding primitives
  note_call-KeepsKeys c = record { at = λ w. same-KeepsKeys w _ refl }

  pub ask-KeepsKeys : {A : Type 0} (f : E → Outcome A × E) → Moves KeepsKeys (ask f)
  unfolding primitives
  ask-KeepsKeys f = record { at = λ w. same-KeepsKeys w _ refl }

  pub transport-KeepsKeys :
      (intent : Intent) (attempt_id : String) → Moves KeepsKeys (transport port intent attempt_id)
  unfolding transport steer_message send_message
  transport-KeepsKeys intent attempt_id =
      search (moves_rules, KeepsKeys-IsPreorder, note_call-KeepsKeys, ask-KeepsKeys) depth 8

  pub dispatch-KeepsKeys :
      (event kind : String) (intent : Intent) → Moves KeepsKeys (dispatch port event kind intent)
  dispatch-KeepsKeys event kind intent =
      dispatch-Moves port intent KeepsKeys (KeepsKeys-IsFrame intent)
        (λ evidence.
          record_delivery_evidence-KeepsKeys intent.intent_id DeliveryState.delivered evidence)
        (λ attempt_id. transport-KeepsKeys intent attempt_id) event kind

  pub send-KeepsKeys :
      (event kind : String) (intent : Intent) (state attempt_id : String)
      → Moves KeepsKeys (send port event kind intent state attempt_id)
  send-KeepsKeys event kind intent state attempt_id =
      send-Moves port intent KeepsKeys (KeepsKeys-IsFrame intent)
        (λ evidence.
          record_delivery_evidence-KeepsKeys intent.intent_id DeliveryState.delivered evidence)
        (λ id. transport-KeepsKeys intent id) event kind state attempt_id
