-- ===== src/Protocol/Tests.antt =====
-- The normalisers of src/protocol.js on concrete inputs.
use codex_hooks.Base.{none, some, refl}
use codex_hooks.Protocol.Value.{Value, str, obj, field, end}
use codex_hooks.Protocol.Names.{MessageSource, SendMode, SendOperation, BusyPolicy}
use codex_hooks.Protocol.Normalize.{normalize_intent, Intent}
use codex_hooks.Protocol.Normalize.Valid.{normalize_intent-IsValid, IsValidIntent}

abbrev thread_value : Value
thread_value = obj (
    field "namespace" (str "ns") (
      field "appserver_id" (str "app")
        (field "session_id" (str "session") (field "thread_id" (str "thread") end))))

abbrev steering : Value
steering = obj (
    field "intent_id" (str "intent-1") (
      field "source" (str "operator") (
        field "send_mode" (str "working_allowed") (
          field "operation" (str "steer") (
            field "turn_id" (str "turn-1") (
              field "body" (str "go on")
                (field "event_key" (str "key-1") (field "target" thread_value end))))))))

abbrev steering_intent : Intent
steering_intent = record {
  intent_id = "intent-1";
  source = MessageSource.operator;
  target = record {
    namespace = "ns";
    appserver_id = "app";
    session_id = "session";
    thread_id = "thread";
    scope_id = none;
  };
  body = "go on";
  send_mode = SendMode.working_allowed;
  busy_policy = BusyPolicy.defer;
  operation = SendOperation.steer;
  turn_id = some "turn-1";
  event_key = "key-1";
  expires_at = none;
}

normalize_intent-IsValid_example : IsValidIntent (λ text. none) steering_intent
unfolding normalize_intent
normalize_intent-IsValid_example =
    normalize_intent-IsValid (λ text. none) steering steering_intent refl
