-- ===== src/Daemon/Tests.antt =====
-- The daemon on concrete inputs: an outside that counts the calls it answers.
use codex_hooks.Base.{
  inr, eq_iff, inl, Bool-cases, ◌⊎◌, if◌then◌else◌, ℕ, suc, true, false, ◌≡◌, refl, none, some, [],
  ◌∷◌, ok, ◌==◌,
}
use codex_hooks.Protocol.Value.{Value, str, null, bool}
use codex_hooks.Protocol.Names.{
  kind_name, hook_name, SessionState, SendMode, SendOperation, BusyPolicy, MessageSource,
  DeliveryState,
}
use codex_hooks.Protocol.Normalize.{Target, Intent, Observation}
use codex_hooks.Daemon.Record.{result, is_unresolved, object, IntentRecord, Decision}
use codex_hooks.Daemon.World.{primitives, Call, Port, World}
use codex_hooks.Daemon.Gate.{gate-Follows, verdict, Follows}
use codex_hooks.Daemon.Settled.{IsSettled}
use codex_hooks.Daemon.Outbox.{recover_outbox-resolves, IsKeyed}
use codex_hooks.Daemon.Silent.{calls-send, handed_over}
use codex_hooks.Base.Dict.{put, lookup}
use codex_hooks.Daemon.Evidence.{reconcile-Reconciles, Reconciles}
use codex_hooks.Daemon.Dispatch
use codex_hooks.Daemon.Dispatch.{gate, dispatch}
use codex_hooks.Daemon.Send.{is_steer, send}
use codex_hooks.Daemon.Once.{dispatch_twice}
use codex_hooks.Daemon.Recovery.{
  recover_one, recover_all, recover_outbox, reconcile_delivery_evidence,
}
use codex_hooks.Daemon.Settled.Send.{send-IsSettled}
use codex_hooks.Daemon.Cleared.{dispatch-IsCleared, IsCleared}
use codex_hooks.Daemon.Hook.{
  is_interrupt_event, is_guarded, generate_intent, conclude, process_intent, process_hook,
  handle_event, handle_hook,
}
use codex_hooks.Protocol.Hooks.{
  event_key, infer_kind, classify_hook, normalize_hook_event, keyed_event,
}
use codex_hooks.Daemon.Replay.{handle_hook_twice}

abbrev pub main_thread : Target
main_thread = record {
  namespace = "ns";
  appserver_id = "app";
  session_id = "session";
  thread_id = "thread";
  scope_id = none;
}

-- An outside that accepts every message and knows a session at rest.
abbrev pub accepting : Port ℕ
accepting = record {
  session_status = λ target n. (ok (str "idle"), suc n);
  send_message = λ request n. (
    ok (
        object (
          ("state", str "accepted")
          ∷ ("accepted", bool true)
          ∷ ("attempt_id", str request.attempt_id)
          ∷ [])),
    suc n,
  );
  steer_message = none;
  delivery_evidence = none;
  intent_factory = none;
  clock = λ n. ("2026-01-01T00:00:00.000Z", n);
  parse_date = λ text. if text == "" then none else some 0;
  stringify = λ v. "";
  text_le = λ a b. true;
}

abbrev pub greeting : Intent
greeting = record {
  intent_id = "intent-1";
  source = MessageSource.operator;
  target = main_thread;
  body = "hello";
  send_mode = SendMode.idle_only;
  busy_policy = BusyPolicy.defer;
  operation = SendOperation.queue;
  turn_id = none;
  event_key = "key-1";
  expires_at = none;
}

abbrev pub empty_world : World ℕ
empty_world = record {
  store = record { events = []; intents = []; transitions = []; stop_suppression = [] };
  outside = 0;
  calls = [];
}

abbrev pub at_rest : Observation
at_rest = record { state = SessionState.idle; input_active = false; active_turn_id = null }

-- A store with one record, whose send was cut off.
abbrev pub interrupted_record : IntentRecord
interrupted_record = record {
  delivery = record {
    intent_id = "intent-1";
    source = MessageSource.operator;
    target = main_thread;
    body = "hello";
    send_mode = SendMode.idle_only;
    state = DeliveryState.sending;
    evidence = object (("attempt_id", str "intent-1") ∷ []);
  };
  decision = Decision.sending;
  intent = greeting;
}

abbrev pub interrupted_world : World ℕ
interrupted_world = record empty_world {
  store = record empty_world.store { intents = ("intent-1", interrupted_record) ∷ [] };
}

gate-Follows_example :
    Follows accepting greeting empty_world
      (gate accepting "Stop" "stop" greeting at_rest empty_world).1
      (verdict greeting at_rest)
gate-Follows_example = gate-Follows accepting "Stop" "stop" greeting at_rest empty_world

dispatch-IsCleared_example :
    ((dispatch accepting "Stop" "stop" greeting empty_world).1.calls ≡ [])
    ⊎ IsCleared accepting greeting empty_world
        (dispatch accepting "Stop" "stop" greeting empty_world).1
dispatch-IsCleared_example = dispatch-IsCleared accepting "Stop" "stop" greeting empty_world

dispatch_twice_example :
    (dispatch accepting "Stop" "stop" greeting
      (dispatch accepting "Stop" "stop" greeting empty_world).1).1
    ≡ (dispatch accepting "Stop" "stop" greeting empty_world).1
dispatch_twice_example = dispatch_twice accepting "Stop" "stop" greeting empty_world

send-IsSettled_example :
    IsSettled greeting (send accepting "Stop" "stop" greeting "idle" "intent-1" empty_world).1
send-IsSettled_example =
    send-IsSettled accepting greeting "Stop" "stop" "idle" "intent-1" empty_world

calls-send_example :
    (send accepting "Stop" "stop" greeting "idle" "intent-1" empty_world).1.calls
    ≡ Call.sent (record { target = main_thread; body = "hello"; attempt_id = "intent-1" }) ∷ []
unfolding handed_over is_steer
calls-send_example = calls-send accepting "Stop" "stop" greeting "idle" "intent-1" empty_world

interrupted_world-IsKeyed : IsKeyed interrupted_world
unfolding lookup
interrupted_world-IsKeyed = record {
  keyed = λ key r found. elim (Bool-cases ("intent-1" == key)) [
    | inl e ↦
        let named : "intent-1" ≡ key = (eq_iff "intent-1" key).0 e in
        let same : some interrupted_record ≡ some r = rw e at found in
        let own : interrupted_record ≡ r = cc in rw (← own) named
    | inr e ↦ let clash = rw e at found in cc
  ];
}

reconcile-Reconciles_example :
    Reconciles accepting "intent-1" interrupted_world
      (reconcile_delivery_evidence accepting "intent-1" interrupted_world).0
      (reconcile_delivery_evidence accepting "intent-1" interrupted_world).1
reconcile-Reconciles_example = reconcile-Reconciles accepting "intent-1" interrupted_world

recover_outbox-resolves_example : is_unresolved DeliveryState.unknown_delivery ≡ false
unfolding recover_outbox recover_all recover_one primitives lookup put
recover_outbox-resolves_example =
    recover_outbox-resolves accepting interrupted_world interrupted_world-IsKeyed "intent-1" _ refl

-- A Stop event as the official hook hands it over.
abbrev stop_event : Value
stop_event = object (
    ("session_id", str "session")
    ∷ ("turn_id", str "turn-1")
    ∷ ("hook_event_name", str "Stop")
    ∷ ("cwd", str "/tmp")
    ∷ [])

handle_hook_twice_example :
    handle_hook accepting stop_event null none
      (handle_hook accepting stop_event null none empty_world).1
    ≡ (
      ok (record (result "Stop" "stop" Decision.observed) { idempotent = true }),
      (handle_hook accepting stop_event null none empty_world).1,
    )
unfolding handle_hook handle_event process_hook process_intent conclude generate_intent keyed_event
    normalize_hook_event classify_hook infer_kind event_key is_guarded is_interrupt_event primitives
    lookup put hook_name kind_name
handle_hook_twice_example =
    handle_hook_twice accepting stop_event null null none empty_world
      (result "Stop" "stop" Decision.observed) refl

-- An outside whose session is disconnected.
abbrev disconnected : Port ℕ
disconnected = record accepting { session_status = λ target n. (ok (str "disconnected"), n) }

abbrev greeting_value : Value
greeting_value = object (
    ("intent_id", str "intent-1")
    ∷ ("source", str "operator")
    ∷ ("send_mode", str "idle_only")
    ∷ ("body", str "hello")
    ∷ ("event_key", str "key-1")
    ∷ (
      "target",
      object (
          ("namespace", str "ns")
          ∷ ("appserver_id", str "app")
          ∷ ("session_id", str "session")
          ∷ ("thread_id", str "thread")
          ∷ []),
    )
    ∷ [])
