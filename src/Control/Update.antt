-- ===== src/Control/Update.antt =====
-- src/control.js: `updateSchedule` on the stored controls.
use codex_hooks.Base.{Bool, ◌&&◌, ◌||◌, not, fault, if◌then◌else◌, Outcome, ok, throws}
use codex_hooks.Base.Exec.{Exec, pure, lift, ◌>>=◌, ◌>>◌}
use codex_hooks.Protocol.Value.{Value, get, str, is_nullish, is_text, or_given, or_value}
use codex_hooks.Protocol.Normalize.{assert_non_empty}
use codex_hooks.Timer.Schedule.{Schedule}
use codex_hooks.Timer.Requests.{target_value}
use codex_hooks.Control.Store.{ControlState, Host, schedules_of}
use codex_hooks.Control.Operators.{resolve_session_target}
use codex_hooks.Control.Schedules.{require_schedule, require_live, replace_schedule}
use codex_hooks.Control.Patch.{text_value, normalize_schedule_patch}
use codex_hooks.Control.Apply.{updated_schedule}

-- `[NOTIFY, WAIT].includes(action)`
abbrev pub is_session_action : Value → Bool
is_session_action v = is_text v "notify" || is_text v "wait"

-- The checks on a request that names a session.
unfoldable pub assert_session_update : Value → Schedule → Outcome (Unit {0})
assert_session_update request current =
    if not (is_nullish (get request "target"))
    then throws (fault "pass either session or target, not both")
    else if not (is_nullish (get request "action"))
        && not (is_session_action (get request "action"))
    then throws (fault "session target requires action notify or wait")
    else if not (is_session_action (text_value current.action)) && is_nullish (get request "action")
    then throws (fault "session target requires action notify or wait for subagent schedules")
    else ok tt

-- `patchRequest.action` and `patchRequest.target`
pub record Aim : Type 0 where
  pub action : Value
  pub target : Value

-- `if (patchRequest.target != null) patchRequest.action ??= current.action`
unfoldable pub aim_at : Value → Value → Schedule → Aim
aim_at action target current = record {
  action = if is_nullish target then action else or_given action (text_value current.action);
  target = target;
}

module _ {D : Type 0} (host : Host D) where
  unfoldable pub aim_of : Value → Schedule → Exec (ControlState D) Aim
  aim_of request current =
      if is_nullish (get request "session")
      then pure (aim_at (get request "action") (get request "target") current)
      else do
        lift (assert_session_update request current)
        target ← resolve_session_target (get request "session")
        pure (aim_at (or_value (get request "action") (str "notify")) (target_value target) current)

  unfoldable pub update_schedule : Value → Exec (ControlState D) Schedule
  update_schedule request = do
    id ← lift (assert_non_empty (get request "id") "id")
    schedules ← schedules_of
    current ← require_schedule schedules id
    require_live id current
    aim ← aim_of request current
    patch ← lift (normalize_schedule_patch host.parse_date aim.action aim.target request current)
    replace_schedule id (updated_schedule patch current) schedules
