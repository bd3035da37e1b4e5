-- ===== src/Timer/Requests.antt =====
-- src/timer.js: the values that `tick` builds for the functions it calls, and those it reads.
use codex_hooks.Base.{
  String, Bool, true, Option, none, some, List, [], ◌∷◌, ◌==◌, ◌&&◌, if◌then◌else◌, Fault, or_else,
}
use codex_hooks.Protocol.Value.{
  Value, Items, get, str, null, bool, is_text, or_value, is_nullish, text?, obj, opt_str,
}
use codex_hooks.Protocol.Normalize.{Target, TargetScope}
use codex_hooks.Daemon.Record.{object}
use codex_hooks.Timer.Schedule.{Schedule, or_text, is_session_missing}

-- `value == null ? {} : { key: value }`
abbrev pub given : String → Value → List (String × Value) → List (String × Value)
given key value rest = if is_nullish value then rest else (key, value) ∷ rest

abbrev pub target_value : Target → Value
target_value t = object (
    ("namespace", str t.namespace)
    ∷ ("appserver_id", str t.appserver_id)
    ∷ ("session_id", str t.session_id)
    ∷ ("thread_id", str t.thread_id)
    ∷ given "scope_id" (opt_str t.scope_id) [])

abbrev pub scope_value : TargetScope → Value
scope_value t = object (
    ("namespace", str t.namespace)
    ∷ ("appserver_id", str t.appserver_id)
    ∷ given "scope_id" (opt_str t.scope_id) [])

-- The intent that `dispatchNotify` dispatches.
abbrev pub notify_intent : Schedule → String → Target → Value
notify_intent s occurrence_id target = object (
    ("intent_id", str occurrence_id)
    ∷ ("source", or_value s.source (str "timer"))
    ∷ ("target", target_value target)
    ∷ ("body", s.body)
    ∷ ("send_mode", or_value s.send_mode (str "idle_only"))
    ∷ ("busy_policy", str (or_text s.busy_policy "defer"))
    ∷ ("operation", str "queue")
    ∷ ("event_key", str occurrence_id)
    ∷ ("expires_at", or_value s.expires_at null)
    ∷ [])

abbrev pub subagent_request : Schedule → String → String → TargetScope → Value
subagent_request s occurrence_id at target = object (
    ("target", scope_value target)
    ∷ ("prompt", s.body)
    ∷ ("attempt_id", str occurrence_id)
    ∷ ("scheduled_at", str at)
    ∷ given "cwd" s.cwd
        (given "model" s.model (given "effort" s.effort (("ephemeral", bool true) ∷ []))))

abbrev pub registration : Schedule → String → String → TargetScope → Value → Value
registration s occurrence_id at target receipt = object (
    ("thread_id", get receipt "thread_id")
    ∷ ("turn_id", get receipt "turn_id")
    ∷ ("target", scope_value target)
    ∷ ("prompt", s.body)
    ∷ given "owner_session_id" s.owner_session_id (
        given "model" s.model (
          given "effort" s.effort (
            ("ephemeral", bool true)
            ∷ ("schedule_id", str s.id)
            ∷ ("occurrence_id", str occurrence_id)
            ∷ ("created_at", str at)
            ∷ []))))

-- The receipt of a created subagent, with or without `ephemeral`.
abbrev pub subagent_delivery : String → Value → List (String × Value) → Value
subagent_delivery occurrence_id receipt more = object (
    ("intent_id", str occurrence_id)
    ∷ ("state", str "accepted")
    ∷ ("attempt_id", str occurrence_id)
    ∷ ("thread_id", get receipt "thread_id")
    ∷ ("turn_id", get receipt "turn_id")
    ∷ more)

-- The state of a schedule whose dispatch returned.
unfoldable pub state_after : Value → String
state_after result =
    if is_text (get result "decision") "sent"
    then "sent"
    else if is_text (get result "decision") "deferred"
    then "deferred_while_working"
    else if is_text (get result "decision") "unknown_delivery"
    then "unknown_delivery"
    else if is_session_missing (text? (get (get result "error") "code"))
    then "session_missing"
    else "failed"

-- `find`, for the delivery of an intent id
unfoldable pub find_delivery : String → Items → Option Value
find_delivery id Items.nil = none
find_delivery id (Items.cons v vs) =
    if is_text (get v "intent_id") id then some v else find_delivery id vs

-- `result.list?.find(…)`
unfoldable pub find_in : String → Value → String → Option Value
unfolding find_delivery get
find_in key (obj fs) id = elim (get (obj fs) key) [
  | Value.arr items ↦ find_delivery id items
  | _ ↦ none
]
find_in key v id = none

-- `{ code: error.code || "timer_dispatch_failed", message: error.message }`
abbrev pub failure_of : Fault → Value
failure_of e = object (
    ("code", str (or_text (or_else e.code "") "timer_dispatch_failed"))
    ∷ ("message", str e.message)
    ∷ [])

-- `typeof status === "string" ? status : status?.state`
abbrev pub or_status : Value → Value
or_status (str s) = str s
or_status v = get v "state"

-- The state of an occurrence whose resumed delivery failed.
abbrev pub failed_state : Value → String
failed_state failed =
    if is_text (get failed "state") "unknown_delivery" then "unknown_delivery" else "failed"

-- The delivery for which a resumed occurrence is skipped.
unfoldable pub skipped_delivery : String → Option Value → Option Value → Option Value
skipped_delivery busy_policy (some skipped) deferred = some skipped
skipped_delivery busy_policy none none = none
skipped_delivery busy_policy none (some deferred) =
    if busy_policy == "skip" && is_text (get (get deferred "evidence") "code") "native_thread_busy"
    then some deferred
    else none

-- `sort`, which is stable, by the id
unfoldable pub insert_by_id : (String → String → Bool) → Schedule → List Schedule → List Schedule
insert_by_id text_le s [] = s ∷ []
insert_by_id text_le s (x ∷ xs) =
    if text_le s.id x.id then s ∷ x ∷ xs else x ∷ insert_by_id text_le s xs

unfoldable pub sort_by_id : (String → String → Bool) → List Schedule → List Schedule
sort_by_id text_le [] = []
sort_by_id text_le (s ∷ rest) = insert_by_id text_le s (sort_by_id text_le rest)
