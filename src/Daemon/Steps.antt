-- ===== src/Daemon/Steps.antt =====
-- Each operation of the daemon keeps the stored records under the ids of their intents.
use codex_hooks.Base.{String, refl, Option, none, some, List, [], ◌∷◌, Outcome}
use codex_hooks.Base.Exec.Moves.{Moves-pure, Moves, moves_rules, Moves-bind}
use codex_hooks.Protocol.Value.{Value}
use codex_hooks.Protocol.Names.{HookKind, DeliveryState, SessionState}
use codex_hooks.Protocol.Normalize.{Intent, Target}
use codex_hooks.Daemon.Record.{HookResult, Delivery, IntentRecord, Decision, Shown}
use codex_hooks.Daemon.World.{
  EvidenceRequest, remember_intent, put_event, ask, get_intent, get_event, Port, primitives,
  transition, now, list_intents,
}
use codex_hooks.Daemon.Hook.{
  record_interrupt, handle_event, conclude, generate_intent, process_intent, process_hook,
  handle_hook, dispatch_intent,
}
use codex_hooks.Daemon.Resume.{
  flush, sort_result, flush_all, close_intent, close_all, resume_pending, flush_pending, FlushLists,
  sort_decision, skip_intent, flush_one,
}
use codex_hooks.Daemon.Recovery.{
  reconcile_record, fetch_evidence, recover_outbox, recover_one, recover_all,
  reconcile_delivery_evidence,
}
use codex_hooks.Daemon.Keyed.{
  record_delivery_evidence-KeepsKeys, get_intent-KeepsKeys, ask-KeepsKeys, dispatch-KeepsKeys,
  send-KeepsKeys, KeepsKeys, KeepsKeys-IsPreorder, same-KeepsKeys, remember_intent-KeepsKeys,
}
use codex_hooks.Daemon.Dispatch.{dispatch}
use codex_hooks.Daemon.Send.{record_delivery_evidence, send}
use codex_hooks.Protocol.Hooks.{HookEvent}

module _ {E : Type 0} (port : Port E) where
  transition-Keeps :
      (intent : Intent) (state : DeliveryState) (evidence : Value)
      → Moves KeepsKeys (transition {E = E} intent state evidence)
  unfolding primitives
  transition-Keeps intent state evidence = record { at = λ w. same-KeepsKeys port w _ refl }

  now-Keeps : Moves KeepsKeys (now port)
  unfolding primitives
  now-Keeps = record { at = λ w. same-KeepsKeys port w _ refl }

  list-Keeps : Moves KeepsKeys (list_intents {E = E})
  unfolding primitives
  list-Keeps = record { at = λ w. same-KeepsKeys port w _ refl }

  event-Keeps : (key : String) → Moves KeepsKeys (get_event {E = E} key)
  unfolding primitives
  event-Keeps key = record { at = λ w. same-KeepsKeys port w _ refl }

  put_event-Keeps : (key : String) (r : HookResult) → Moves KeepsKeys (put_event {E = E} key r)
  unfolding primitives
  put_event-Keeps key r = record { at = λ w. same-KeepsKeys port w _ refl }

  its-remember :
      (intent : Intent) (d : Delivery) (decision : Decision)
      → Moves KeepsKeys (remember_intent {E = E} intent d decision)
  its-remember = remember_intent-KeepsKeys port

  its-get : (key : String) → Moves KeepsKeys (get_intent {E = E} key)
  its-get = get_intent-KeepsKeys port

  its-ask : {A : Type 0} (f : E → Outcome A × E) → Moves KeepsKeys (ask f)
  its-ask = ask-KeepsKeys port

  its-dispatch :
      (event kind : String) (intent : Intent) → Moves KeepsKeys (dispatch port event kind intent)
  its-dispatch = dispatch-KeepsKeys port

  its-send :
      (event kind : String) (intent : Intent) (state attempt_id : String)
      → Moves KeepsKeys (send port event kind intent state attempt_id)
  its-send = send-KeepsKeys port

  its-record :
      (intent_id : String) (state : DeliveryState) (evidence : Value)
      → Moves KeepsKeys (record_delivery_evidence port intent_id state evidence)
  its-record = record_delivery_evidence-KeepsKeys port

  ruleset keeps_rules = (
    moves_rules, KeepsKeys-IsPreorder, transition-Keeps, now-Keeps, list-Keeps, event-Keeps,
    put_event-Keeps, its-remember, its-get, its-ask, its-dispatch, its-send, its-record,
  )

  record_interrupt-Keeps : (event : HookEvent) → Moves KeepsKeys (record_interrupt port event)
  unfolding record_interrupt primitives
  record_interrupt-Keeps event = record { at = λ w. same-KeepsKeys port w _ refl }

  generate_intent-Keeps :
      (event : HookEvent) (kind : HookKind) (given : Value)
      → Moves KeepsKeys (generate_intent port event kind given)
  unfolding generate_intent
  generate_intent-Keeps event kind given = search keeps_rules depth 12

  conclude-Keeps : (key : String) (r : HookResult) → Moves KeepsKeys (conclude port key r)
  unfolding conclude
  conclude-Keeps key r = search keeps_rules depth 12

  process_intent-Keeps :
      (event : HookEvent) (kind : HookKind) (key : String) (generated : Value)
      → Moves KeepsKeys (process_intent port event kind key generated)
  unfolding process_intent
  process_intent-Keeps event kind key generated = search (keeps_rules, conclude-Keeps) depth 12

  process_hook-Keeps :
      (event : HookEvent) (kind : HookKind) (key : String) (given : Value)
      → Moves KeepsKeys (process_hook port event kind key given)
  unfolding process_hook
  process_hook-Keeps event kind key given =
      search
        (
          keeps_rules, conclude-Keeps, record_interrupt-Keeps, generate_intent-Keeps,
          process_intent-Keeps,
        )
        depth 14

  handle_event-Keeps :
      (event : HookEvent) (kind : HookKind) (key : String) (given : Value)
      → Moves KeepsKeys (handle_event port event kind key given)
  unfolding handle_event
  handle_event-Keeps event kind key given = search (keeps_rules, process_hook-Keeps) depth 12

  pub handle_hook-Keeps :
      (raw given : Value) (kind : Option String) → Moves KeepsKeys (handle_hook port raw given kind)
  unfolding handle_hook
  handle_hook-Keeps raw given kind = search (keeps_rules, handle_event-Keeps) depth 12

  pub dispatch_intent-Keeps :
      (raw : Value) (kind : String) → Moves KeepsKeys (dispatch_intent port raw kind)
  unfolding dispatch_intent
  dispatch_intent-Keeps raw kind = search keeps_rules depth 12

  skip_intent-Keeps :
      (intent : Intent) (state : SessionState) (evidence : Value)
      → Moves KeepsKeys (skip_intent port intent state evidence)
  unfolding skip_intent
  skip_intent-Keeps intent state evidence = search keeps_rules depth 12

  sort_decision-Keeps :
      (decision : Decision) (intent : Intent) (state : SessionState) (lists : FlushLists)
      (shown : Option Shown)
      → Moves KeepsKeys (sort_decision port decision intent state lists shown)
  unfolding sort_decision
  sort_decision-Keeps Decision.deferred intent state lists shown =
      search (keeps_rules, skip_intent-Keeps) depth 12
  sort_decision-Keeps _ intent state lists shown = search keeps_rules depth 12

  resume_pending-Keeps :
      (intent : Intent) (state : SessionState) → Moves KeepsKeys (resume_pending port intent state)
  unfolding resume_pending
  resume_pending-Keeps intent state = search keeps_rules depth 14

  flush_one-Keeps :
      (state : SessionState) (intent : Intent) (lists : FlushLists)
      → Moves KeepsKeys (flush_one port state intent lists)
  unfolding flush_one sort_result
  flush_one-Keeps state intent lists =
      search (keeps_rules, resume_pending-Keeps, sort_decision-Keeps) depth 12

  flush_all-Keeps :
      (state : SessionState) (intents : List Intent) (lists : FlushLists)
      → Moves KeepsKeys (flush_all port state intents lists)
  unfolding flush_all
  flush_all-Keeps state [] lists = search keeps_rules depth 8
  flush_all-Keeps state (intent ∷ rest) lists =
      search (keeps_rules, flush_one-Keeps, flush_all-Keeps state rest) depth 8

  close_intent-Keeps :
      (state : SessionState) (intent : Intent) → Moves KeepsKeys (close_intent port state intent)
  unfolding close_intent
  close_intent-Keeps state intent = search keeps_rules depth 12

  close_all-Keeps :
      (state : SessionState) (intents : List Intent)
      → Moves KeepsKeys (close_all port state intents)
  unfolding close_all
  close_all-Keeps state [] = search keeps_rules depth 8
  close_all-Keeps state (intent ∷ rest) =
      Moves-bind KeepsKeys-IsPreorder _ _ (close_intent-Keeps state intent) (λ d.
        Moves-bind KeepsKeys-IsPreorder _ _ (close_all-Keeps state rest)
          (λ ds. Moves-pure KeepsKeys-IsPreorder _))

  pub flush_pending-Keeps : (target : Target) → Moves KeepsKeys (flush_pending port target)
  unfolding flush_pending flush
  flush_pending-Keeps target = search (keeps_rules, flush_all-Keeps, close_all-Keeps) depth 14

  recover_one-Keeps : (r : IntentRecord) → Moves KeepsKeys (recover_one port r)
  unfolding recover_one
  recover_one-Keeps r = search keeps_rules depth 12

  recover_all-Keeps : (rs : List IntentRecord) → Moves KeepsKeys (recover_all port rs)
  unfolding recover_all
  recover_all-Keeps [] = search keeps_rules depth 8
  recover_all-Keeps (r ∷ rs) = Moves-bind KeepsKeys-IsPreorder _ _ (recover_one-Keeps r) (λ d.
      Moves-bind KeepsKeys-IsPreorder _ _ (recover_all-Keeps rs)
        (λ ds. Moves-pure KeepsKeys-IsPreorder _))

  pub recover_outbox-Keeps : Moves KeepsKeys (recover_outbox port)
  unfolding recover_outbox
  recover_outbox-Keeps = search (keeps_rules, recover_all-Keeps) depth 10

  fetch_evidence-Keeps :
      (intent_id : String) (existing : IntentRecord) (next : DeliveryState)
      (capability : Option (EvidenceRequest → E → Outcome Value × E))
      → Moves KeepsKeys (fetch_evidence port intent_id existing next capability)
  unfolding fetch_evidence
  fetch_evidence-Keeps intent_id existing next none = search keeps_rules depth 8
  fetch_evidence-Keeps intent_id existing next (some f) = search keeps_rules depth 8

  pub reconcile-Keeps :
      (intent_id : String) → Moves KeepsKeys (reconcile_delivery_evidence port intent_id)
  unfolding reconcile_delivery_evidence reconcile_record
  reconcile-Keeps intent_id = search (keeps_rules, fetch_evidence-Keeps) depth 14
