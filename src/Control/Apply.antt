-- ===== src/Control/Apply.antt =====
-- src/control.js: what `updateSchedule` makes of a schedule and the changes to it.
use codex_hooks.Base.{
  String, Bool, Option, some, none, ◌==◌, ◌||◌, if◌then◌else◌, or_else, is_some, true,
}
use codex_hooks.Protocol.Value.{Value, str, undefined}
use codex_hooks.Protocol.Names.{
  SendMode, action_name, schedule_mode_name, send_mode_name, busy_policy_name,
}
use codex_hooks.Timer.Schedule.{Schedule}
use codex_hooks.Control.Patch.{SchedulePatch}

-- `a ?? old`, for a field of a patch
abbrev pub patched_text : Option String → Value → Value
patched_text none old = old
patched_text (some new) old = str new

abbrev pub patched_name {ℓ} : {A : Type ℓ} → (A → String) → Option A → String → String
patched_name name none old = old
patched_name name (some a) old = name a

abbrev pub patched_mode : Option SendMode → Value → Value
patched_mode none old = old
patched_mode (some m) old = str (send_mode_name m)

abbrev pub patched_option {ℓ} : {A : Type ℓ} → Option A → Option A → Option A
patched_option none old = old
patched_option (some a) old = some a

-- `{ ...current, ...patch }`
unfoldable pub patch_over : SchedulePatch → Schedule → Schedule
patch_over p s = record s {
  action = patched_name action_name p.action s.action;
  mode = patched_name schedule_mode_name p.mode s.mode;
  at = or_else p.at s.at;
  body = patched_text p.body s.body;
  owner_session_id = patched_text p.owner_session_id s.owner_session_id;
  send_mode = patched_mode p.send_mode s.send_mode;
  busy_policy = patched_name busy_policy_name p.busy_policy s.busy_policy;
  target = or_else p.target s.target;
  cwd = patched_text p.cwd s.cwd;
  model = patched_text p.model s.model;
  effort = patched_text p.effort s.effort;
  ephemeral = p.ephemeral || s.ephemeral;
  allow_concurrent = patched_option p.allow_concurrent s.allow_concurrent;
  interval_ms = patched_option p.interval_ms s.interval_ms;
}

-- `if (updated.action === NOTIFY) { delete … }`
unfoldable pub drop_subagent_options : Schedule → Schedule
drop_subagent_options s =
    if s.action == "notify"
    then record s {
      cwd = undefined;
      model = undefined;
      effort = undefined;
      allow_concurrent = none;
    }
    else s

-- `scheduleFieldsChanged`
unfoldable pub changes_schedule : SchedulePatch → Bool
changes_schedule p =
    is_some p.at || is_some p.mode || is_some p.interval_ms || is_some p.target || is_some p.action

-- `if (scheduleFieldsChanged) { … }`
unfoldable pub configure_again : Bool → Schedule → Schedule
configure_again changed s =
    if changed
    then record s {
      state = "configured";
      enabled = some true;
      next_at = "";
      current_occurrence = "";
    }
    else s

-- `if (updated.mode === ONCE) delete updated.interval_ms`
unfoldable pub drop_interval : Schedule → Schedule
drop_interval s = if s.mode == "once" then record s { interval_ms = none } else s

unfoldable pub updated_schedule : SchedulePatch → Schedule → Schedule
updated_schedule p s =
    drop_interval (configure_again (changes_schedule p) (drop_subagent_options (patch_over p s)))
