-- ===== src/Control/Upsert.antt =====
-- src/control.js: `upsertSchedule`, `addSchedule`, `addWait` and the checks of a schedule's fields.
use codex_hooks.Base.{
  ℕ, String, Bool, Option, some, none, List, [], ◌∷◌, concat, join, eqb, if◌then◌else◌, is_some,
  require, fault, coded, Outcome, ok, throws, ◌>>=◌, ◌>>◌, true, false,
}
use codex_hooks.Protocol.Value.{Value, get, str, undefined, is_nullish, is_true, or_given}
use codex_hooks.Protocol.Names.{
  ScheduleAction, ScheduleMode, SendMode, BusyPolicy, action_name, schedule_actions,
  schedule_mode_name, schedule_modes, send_mode_name, send_modes, busy_policy_name, busy_policies,
  source_name, message_sources,
}
use codex_hooks.Protocol.Normalize.{
  assert_non_empty, default_member, member_of, normalize_target, normalize_target_scope,
}
use codex_hooks.Timer.Schedule.{Schedule}
use codex_hooks.Timer.Requests.{target_value, scope_value}

-- The names in the list whose field is not null.
unfoldable pub given_fields : Value → List String → List String
given_fields request [] = []
given_fields request (name ∷ more) =
    let rest = given_fields request more in
    if is_nullish (get request name) then rest else name ∷ rest

-- The error of `assertScheduleActionOptions`, for the fields that it found.
unfoldable pub require_none : List String → Outcome (Unit {0})
require_none [] = ok tt
require_none given =
    throws (fault (concat ("schedule fields require action=subagent: " ∷ join ", " given ∷ [])))

unfoldable pub assert_schedule_action_options : ScheduleAction → Value → Outcome (Unit {0})
assert_schedule_action_options ScheduleAction.subagent request =
    require (is_nullish (get request "profile")) (
      coded "unsupported_profile"
        "schedule subagent profile is not supported by the native App Server create boundary")
assert_schedule_action_options action request = require_none (
    given_fields request
      ("cwd" ∷ "model" ∷ "effort" ∷ "profile" ∷ "allow_concurrent" ∷ "ephemeral" ∷ []))

-- `Number.isInteger(value) && value >= 1`
unfoldable pub positive_of : Value → Option ℕ
positive_of (Value.num n) = if eqb n 0 then none else some n
positive_of _ = none

unfoldable pub assert_wait_once : ScheduleAction → ScheduleMode → Outcome (Unit {0})
assert_wait_once ScheduleAction.wait ScheduleMode.interval =
    throws (fault "wait schedules must be one-shot")
assert_wait_once action mode = ok tt

-- An interval that is there, or the error.
abbrev pub require_interval : Option ℕ → Outcome (Option ℕ)
require_interval none = throws (fault "schedule interval_ms must be a positive integer")
require_interval (some n) = ok (some n)

-- The interval of a schedule: `merged` is the one in force, `given` the one of the request.
unfoldable pub checked_interval : ScheduleMode → Value → Value → Outcome (Option ℕ)
checked_interval ScheduleMode.interval merged given = require_interval (positive_of merged)
checked_interval ScheduleMode.once merged given =
    if is_nullish given
    then ok none
    else throws (fault "schedule interval_ms is only valid for interval mode")

unfoldable pub assert_concurrent : ScheduleAction → ScheduleMode → Bool → Outcome (Unit {0})
assert_concurrent ScheduleAction.subagent ScheduleMode.interval allow_concurrent =
    require allow_concurrent (fault "recurring subagent schedules require allow_concurrent: true")
assert_concurrent action mode allow_concurrent = ok tt

-- `action === SUBAGENT ? normalizeTargetScope(target) : normalizeTarget(target)`
unfoldable pub schedule_target : ScheduleAction → Value → Outcome Value
schedule_target ScheduleAction.subagent target = do
  scope ← normalize_target_scope target
  ok (scope_value scope)
schedule_target action target = do own ← normalize_target target; ok (target_value own)

-- `value == null ? {} : { name: assertNonEmpty(value, name) }`
unfoldable pub optional_text : Value → String → Outcome Value
optional_text value name =
    if is_nullish value then ok undefined else do text ← assert_non_empty value name; ok (str text)

unfoldable pub optional_source : Value → Outcome Value
optional_source value = if is_nullish value then ok undefined else do
  text ← assert_non_empty value "source"
  source ← member_of source_name message_sources "message source" text
  ok (str (source_name source))

-- `request.owner_session_id ?? (… target.thread_id …)`
unfoldable pub owner_of : ScheduleAction → Value → Value → Value
owner_of ScheduleAction.subagent given target = given
owner_of action given target = or_given given (get target "thread_id")

-- The fields that only a schedule of a subagent has.
pub record SubagentOptions : Type 0 where
  pub cwd : Value
  pub model : Value
  pub effort : Value
  pub ephemeral : Bool
  pub allow_concurrent : Option Bool

unfoldable pub subagent_options : ScheduleAction → Value → Outcome SubagentOptions
subagent_options ScheduleAction.subagent request = do
  cwd ← optional_text (get request "cwd") "cwd"
  model ← optional_text (get request "model") "model"
  effort ← optional_text (get request "effort") "effort"
  ok (record {
    cwd = cwd;
    model = model;
    effort = effort;
    ephemeral = true;
    allow_concurrent = if is_true (get request "allow_concurrent") then some true else none;
  })
subagent_options action request = ok (record {
  cwd = undefined;
  model = undefined;
  effort = undefined;
  ephemeral = false;
  allow_concurrent = none;
})

-- The fields of a request that are texts or names.
pub record ScheduleTexts : Type 0 where
  pub id : String
  pub at : String
  pub body : String
  pub send_mode : SendMode
  pub busy_policy : BusyPolicy
  pub source : Value

-- The end of `upsertSchedule`: the checks of time, interval and target, and the schedule.
unfoldable pub timed_schedule :
    (String → Option ℕ) → Value → ScheduleAction → ScheduleMode → ScheduleTexts → Outcome Schedule
timed_schedule parse_date request action mode texts = do
  require (is_some (parse_date texts.at)) (fault "schedule time must be an ISO timestamp")
  assert_wait_once action mode
  interval_ms ← checked_interval mode (get request "interval_ms") (get request "interval_ms")
  assert_concurrent action mode (is_true (get request "allow_concurrent"))
  target ← schedule_target action (get request "target")
  owner ← optional_text (owner_of action (get request "owner_session_id") target) "owner_session_id"
  options ← subagent_options action request
  ok (record {
    id = texts.id;
    at = texts.at;
    enabled = some true;
    state = "configured";
    mode = schedule_mode_name mode;
    next_at = "";
    interval_ms = interval_ms;
    action = action_name action;
    busy_policy = busy_policy_name texts.busy_policy;
    current_occurrence = "";
    last_occurrence = "";
    last_decision = undefined;
    last_delivery = undefined;
    failure = undefined;
    stamps = [];
    target = target;
    source = texts.source;
    body = str texts.body;
    send_mode = str (send_mode_name texts.send_mode);
    expires_at = undefined;
    cwd = options.cwd;
    model = options.model;
    effort = options.effort;
    owner_session_id = owner;
    ephemeral = options.ephemeral;
    allow_concurrent = options.allow_concurrent;
  })

-- The schedule that `upsertSchedule` stores.
unfoldable pub new_schedule : (String → Option ℕ) → Value → Outcome Schedule
new_schedule parse_date request = do
  id ← assert_non_empty (get request "id") "id"
  action ←
      default_member action_name schedule_actions "schedule action" ScheduleAction.notify
        (get request "action")
  assert_schedule_action_options action request
  mode ←
      default_member schedule_mode_name schedule_modes "schedule mode" ScheduleMode.once
        (get request "mode")
  at ← assert_non_empty (get request "at") "at"
  body ← assert_non_empty (get request "body") "body"
  send_mode ←
      default_member send_mode_name send_modes "send mode" SendMode.idle_only
        (get request "send_mode")
  busy_policy ←
      default_member busy_policy_name busy_policies "busy policy" BusyPolicy.defer
        (get request "busy_policy")
  source ← optional_source (get request "source")
  timed_schedule parse_date request action mode (record {
    id = id;
    at = at;
    body = body;
    send_mode = send_mode;
    busy_policy = busy_policy;
    source = source;
  })
