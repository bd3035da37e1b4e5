-- ===== src/Daemon/Identity.antt =====
-- src/daemon.js: when two targets or two intents are the same (`sameTarget`, `assertSameIntent`).
use codex_hooks.Base.{
  String, Bool, true, false, ◌&&◌, Option, none, some, [], ◌∷◌, Outcome, ok, throws, ◌==◌,
  if◌then◌else◌, coded, concat,
}
use codex_hooks.Protocol.Names.{source_name, send_mode_name, operation_name}
use codex_hooks.Protocol.Normalize.{Target, Intent}

-- `left === right`, for strings that may be null
abbrev pub same_optional : Option String → Option String → Bool
same_optional none none = true
same_optional (some a) (some b) = a == b
same_optional _ _ = false

unfoldable pub same_target : Target → Target → Bool
same_target a b =
    a.namespace == b.namespace
    && a.appserver_id == b.appserver_id
    && a.session_id == b.session_id
    && a.thread_id == b.thread_id
    && same_optional a.scope_id b.scope_id

unfoldable pub same_intent : Intent → Intent → Bool
same_intent a b =
    a.intent_id == b.intent_id
    && source_name a.source == source_name b.source
    && a.body == b.body
    && send_mode_name a.send_mode == send_mode_name b.send_mode
    && operation_name a.operation == operation_name b.operation
    && same_optional a.turn_id b.turn_id
    && same_target a.target b.target
    && a.event_key == b.event_key

-- `assertSameIntent`
unfoldable pub assert_same_intent : Intent → Intent → Outcome (Unit {0})
assert_same_intent left right =
    if same_intent left right
    then ok tt
    else throws (
        coded "intent_id_conflict"
          (concat ("intent_id already used with different intent: " ∷ right.intent_id ∷ [])))
