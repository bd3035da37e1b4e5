-- ===== src/Protocol/Hooks.antt =====
-- src/protocol.js: `normalizeHookEvent`, `classifyHook` and the keys of events and suppressions.
use codex_hooks.Base.{
  String, Bool, true, false, Option, none, some, [], ◌∷◌, ◌==◌, join, if◌then◌else◌, concat,
  Outcome, ok, throws, fault, ◌>>=◌, ◌>>◌, require,
}
use codex_hooks.Protocol.Value.{
  Value, null, str, get, is_nullish, is_object, is_true, is_text, or_value, opt_str, join_text,
}
use codex_hooks.Protocol.Names.{
  HookName, hook_name, hook_names, HookKind, kind_name, hook_kinds, find_named,
}
use codex_hooks.Protocol.Normalize.{assert_non_empty, optional_non_empty}

pub record HookEvent : Type 0 where
  pub session_id : String
  pub turn_id : Option String
  pub hook_event_name : HookName
  pub cwd : String
  pub tool_name : Value
  pub tool_use_id : Option String
  pub event_id : Option String
  pub stop_hook_active : Bool
  pub permission_mode : Value
  pub transcript_path : Value
  pub model : Value
  pub prompt : Value
  pub tool_input : Value
  pub tool_response : Value
  pub agent_id : Value
  pub agent_type : Value
  pub agent_transcript_path : Value
  pub last_assistant_message : Value
  pub source : Value
  pub trigger : Value
  pub reason : Value
  pub raw : Value

-- `value || null`
abbrev pub or_null : Value → Value
or_null v = or_value v null

-- `value == null ? null : clone(value)`
abbrev pub given : Value → Value
given v = if is_nullish v then null else v

unfoldable pub supported_event : String → Outcome HookName
unfolding find_named hook_name
supported_event text = elim (find_named hook_name hook_names text) [
  | none ↦ throws (fault (concat ("unsupported hook event: " ∷ text ∷ [])))
  | some name ↦ ok name
]

unfoldable pub normalize_hook_event : Value → Outcome HookEvent
unfolding assert_non_empty optional_non_empty supported_event get or_value
normalize_hook_event v = do
  require (is_object v) (fault "hook event is required")
  text ← assert_non_empty (get v "hook_event_name") "hook_event_name"
  event_name ← supported_event text
  session_id ← assert_non_empty (get v "session_id") "session_id"
  turn_id ← optional_non_empty (get v "turn_id") "turn_id"
  cwd ← assert_non_empty (get v "cwd") "cwd"
  tool_use_id ← optional_non_empty (get v "tool_use_id") "tool_use_id"
  event_id ← optional_non_empty (get v "event_id") "event_id"
  ok (record {
    session_id = session_id;
    turn_id = turn_id;
    hook_event_name = event_name;
    cwd = cwd;
    tool_name = or_null (or_value (get v "tool_name") (get (get v "tool") "name"));
    tool_use_id = tool_use_id;
    event_id = event_id;
    stop_hook_active = is_true (get v "stop_hook_active");
    permission_mode = or_null (get v "permission_mode");
    transcript_path = or_null (get v "transcript_path");
    model = or_null (get v "model");
    prompt = or_null (get v "prompt");
    tool_input = given (get v "tool_input");
    tool_response = given (get v "tool_response");
    agent_id = or_null (get v "agent_id");
    agent_type = or_null (get v "agent_type");
    agent_transcript_path = or_null (get v "agent_transcript_path");
    last_assistant_message = or_null (get v "last_assistant_message");
    source = or_null (get v "source");
    trigger = or_null (get v "trigger");
    reason = or_null (get v "reason");
    raw = v;
  })

-- `classifyHook(event)` with no explicit kind; the tests on the name are the patterns, in the
-- order of the source where two could fit. Every event of `HOOK_EVENTS` has a kind, so that the
-- last `throw` of the source is not reached.
infer_for : HookName → Bool → HookKind
infer_for HookName.stop _ = HookKind.stop
infer_for HookName.subagent_stop _ = HookKind.stop
infer_for HookName.user_prompt_submit _ = HookKind.input
infer_for HookName.session_start _ = HookKind.input
infer_for HookName.subagent_start _ = HookKind.input
infer_for HookName.pre_compact _ = HookKind.input
infer_for HookName.post_compact _ = HookKind.input
infer_for HookName.pre_tool_use goal_tool =
    if goal_tool then HookKind.update_goal else HookKind.tool_call
infer_for HookName.post_tool_use goal_tool =
    if goal_tool then HookKind.update_goal else HookKind.tool_call
infer_for HookName.permission_request _ = HookKind.tool_call
infer_for HookName.session_end _ = HookKind.lifecycle
infer_for HookName.interrupt _ = HookKind.lifecycle

unfoldable pub infer_kind : HookEvent → HookKind
unfolding infer_for
infer_kind event = infer_for event.hook_event_name (is_text event.tool_name "update_goal")

-- `classifyHook(event, explicitKind)`
unfoldable pub classify_hook : HookEvent → Option String → Outcome HookKind
unfolding infer_kind find_named kind_name
classify_hook event none = ok (infer_kind event)
classify_hook event (some text) = elim (find_named kind_name hook_kinds text) [
  | none ↦ throws (fault (concat ("unsupported hook kind: " ∷ text ∷ [])))
  | some kind ↦
      if kind_name (infer_kind event) == kind_name kind
      then ok kind
      else throws (
          fault (
            concat (
              "hook kind mismatch: expected "
              ∷ kind_name (infer_kind event)
              ∷ ", received "
              ∷ text
              ∷ [])))
]

abbrev pub is_tool_invocation : HookName → Bool
is_tool_invocation HookName.pre_tool_use = true
is_tool_invocation HookName.post_tool_use = true
is_tool_invocation _ = false

-- The invocation of an event that is no tool call.
abbrev pub invocation_value : HookEvent → Value
invocation_value event = or_value (opt_str event.event_id) (
    or_value event.agent_id (
      or_value event.source (or_value event.trigger (or_value event.reason (str "no-invocation")))))

-- The last part of an event's key, or the error for a tool call without an id.
unfoldable pub invocation_id : HookEvent → Outcome String
unfolding or_value hook_name join_text
invocation_id event =
    if is_tool_invocation event.hook_event_name
    then elim event.tool_use_id [
      | none ↦ throws (
          fault (
            concat
              (hook_name event.hook_event_name ∷ " requires tool_use_id for idempotency" ∷ [])))
      | some id ↦ ok id
    ]
    else ok (join_text (invocation_value event))

abbrev pub turn_or : String → Option String → String
turn_or default none = default
turn_or default (some turn) = turn

unfoldable pub event_key : HookEvent → HookKind → Outcome String
unfolding invocation_id hook_name kind_name
event_key event kind = do
  invocation ← invocation_id event
  ok (
      join "/" (
        event.session_id
        ∷ turn_or "no-turn" event.turn_id
        ∷ hook_name event.hook_event_name
        ∷ kind_name kind
        ∷ invocation
        ∷ []))

-- The session and the turn are strings that `assertNonEmpty` has let through before.
unfoldable pub interrupt_suppression_key : String → Option String → String
interrupt_suppression_key session_id turn_id = concat (session_id ∷ ":" ∷ turn_or "*" turn_id ∷ [])

-- The first three lines of `handleHook` of src/daemon.js: the event, its kind and its key.
unfoldable pub keyed_event : Value → Option String → Outcome (HookEvent × HookKind × String)
keyed_event raw explicit_kind = do
  event ← normalize_hook_event raw
  kind ← classify_hook event explicit_kind
  key ← event_key event kind
  ok (event, kind, key)
