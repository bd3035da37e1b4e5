-- ===== src/Control/Patch.antt =====
-- src/control.js: `normalizeSchedulePatch`.
use codex_hooks.Base.{
  ℕ, String, Bool, Option, some, none, List, [], ◌∷◌, ◌==◌, concat, if◌then◌else◌, is_some, require,
  fault, Outcome, ok, throws, ◌>>=◌, ◌>>◌, true,
}
use codex_hooks.Protocol.Value.{
  Value, get, str, undefined, is_nullish, is_true, or_given, join_text,
}
use codex_hooks.Protocol.Names.{
  ScheduleAction, ScheduleMode, SendMode, BusyPolicy, action_name, schedule_actions,
  schedule_mode_name, schedule_modes, send_mode_name, send_modes, busy_policy_name, busy_policies,
}
use codex_hooks.Protocol.Normalize.{assert_non_empty, member_of}
use codex_hooks.Timer.Schedule.{Schedule}
use codex_hooks.Control.Operators.{bool?}
use codex_hooks.Control.Upsert.{
  assert_schedule_action_options, assert_wait_once, checked_interval, assert_concurrent,
  schedule_target,
}

-- The patch of a schedule: what the request gives.
pub record SchedulePatch : Type 0 where
  pub action : Option ScheduleAction
  pub mode : Option ScheduleMode
  pub at : Option String
  pub body : Option String
  pub owner_session_id : Option String
  pub send_mode : Option SendMode
  pub busy_policy : Option BusyPolicy
  pub target : Option Value
  pub cwd : Option String
  pub model : Option String
  pub effort : Option String
  pub ephemeral : Bool
  pub allow_concurrent : Option Bool
  pub interval_ms : Option ℕ

-- `Object.values(NAMES).includes(value)`, or the error that names the value
unfoldable pub named {ℓ} : {A : Type ℓ} → (A → String) → List A → String → Value → Outcome A
named name all_members what (Value.str s) = member_of name all_members what s
named name all_members what v =
    throws (fault (concat ("unsupported " ∷ what ∷ ": " ∷ join_text v ∷ [])))

-- A field of a patch: none when the request does not give it, else what the check makes of it.
unfoldable pub if_given {ℓ} : {A : Type ℓ} → Value → Outcome A → Outcome (Option A)
if_given value checked = if is_nullish value then ok none else do a ← checked; ok (some a)

-- A field of a schedule as a value, where a missing one is undefined.
abbrev pub text_value : String → Value
text_value s = if s == "" then undefined else str s

abbrev pub number_value : Option ℕ → Value
number_value none = undefined
number_value (some n) = Value.num n

abbrev pub flag_value : Option Bool → Value
flag_value none = undefined
flag_value (some b) = Value.bool b

unfoldable pub checked_at : (String → Option ℕ) → Value → Outcome String
checked_at parse_date value = do
  at ← assert_non_empty value "at"
  require (is_some (parse_date at)) (fault "schedule time must be an ISO timestamp")
  ok at

unfoldable pub checked_ephemeral : Value → Outcome Bool
checked_ephemeral value = do
  require (is_true value) (fault "ephemeral must be true when supplied")
  ok true

unfoldable pub checked_flag : Value → Outcome Bool
checked_flag value = elim (bool? value) [
  | none ↦ throws (fault "allow_concurrent must be boolean")
  | some b ↦ ok b
]

-- `x != null ? a : undefined` of a field that was checked before
abbrev pub when_given {ℓ} : {A : Type ℓ} → Value → A → Option A
when_given value a = if is_nullish value then none else some a

-- `patch.interval_ms = request.interval_ms`
abbrev pub given_interval : Value → Option ℕ → Option ℕ
given_interval value interval = if is_nullish value then none else interval

-- The fields of a patch that stand before its target.
pub record PatchTexts : Type 0 where
  pub body : Option String
  pub owner_session_id : Option String
  pub send_mode : Option SendMode
  pub busy_policy : Option BusyPolicy

unfoldable pub patch_texts : Value → Outcome PatchTexts
patch_texts request = do
  body ← if_given (get request "body") (assert_non_empty (get request "body") "body")
  owner ←
      if_given (get request "owner_session_id")
        (assert_non_empty (get request "owner_session_id") "owner_session_id")
  send_mode ←
      if_given (get request "send_mode")
        (named send_mode_name send_modes "send mode" (get request "send_mode"))
  busy_policy ←
      if_given (get request "busy_policy")
        (named busy_policy_name busy_policies "busy policy" (get request "busy_policy"))
  ok (record {
    body = body;
    owner_session_id = owner;
    send_mode = send_mode;
    busy_policy = busy_policy;
  })

-- The fields of a patch that only a schedule of a subagent has.
pub record PatchOptions : Type 0 where
  pub cwd : Option String
  pub model : Option String
  pub effort : Option String
  pub ephemeral : Bool

unfoldable pub patch_options : Value → Outcome PatchOptions
patch_options request = do
  cwd ← if_given (get request "cwd") (assert_non_empty (get request "cwd") "cwd")
  model ← if_given (get request "model") (assert_non_empty (get request "model") "model")
  effort ← if_given (get request "effort") (assert_non_empty (get request "effort") "effort")
  ephemeral ← if_given (get request "ephemeral") (checked_ephemeral (get request "ephemeral"))
  ok (record { cwd = cwd; model = model; effort = effort; ephemeral = is_some ephemeral })

-- `normalizeSchedulePatch`, where the action and the target of the request stand apart
unfoldable pub normalize_schedule_patch :
    (String → Option ℕ) → Value → Value → Value → Schedule → Outcome SchedulePatch
normalize_schedule_patch parse_date given_action given_target request current = do
  action ←
      named action_name schedule_actions "schedule action"
        (or_given given_action (or_given (text_value current.action) (str "notify")))
  assert_schedule_action_options action request
  mode ←
      named schedule_mode_name schedule_modes "schedule mode"
        (or_given (get request "mode") (or_given (text_value current.mode) (str "once")))
  assert_wait_once action mode
  at ← if_given (get request "at") (checked_at parse_date (get request "at"))
  texts ← patch_texts request
  target ←
      if_given (or_given given_target given_action)
        (schedule_target action (or_given given_target current.target))
  options ← patch_options request
  allow_concurrent ←
      if_given (get request "allow_concurrent") (checked_flag (get request "allow_concurrent"))
  interval ←
      checked_interval mode
        (or_given (get request "interval_ms") (number_value current.interval_ms))
        (get request "interval_ms")
  assert_concurrent action mode
      (is_true (or_given (get request "allow_concurrent") (flag_value current.allow_concurrent)))
  ok (record {
    action = when_given given_action action;
    mode = when_given (get request "mode") mode;
    at = at;
    body = texts.body;
    owner_session_id = texts.owner_session_id;
    send_mode = texts.send_mode;
    busy_policy = texts.busy_policy;
    target = target;
    cwd = options.cwd;
    model = options.model;
    effort = options.effort;
    ephemeral = options.ephemeral;
    allow_concurrent = allow_concurrent;
    interval_ms = given_interval (get request "interval_ms") interval;
  })
