-- ===== src/Control/Add.antt =====
-- src/control.js: `upsertSchedule`, `addSchedule` and `addWait` on the stored controls.
use codex_hooks.Base.{
  String, Option, some, none, [], ◌∷◌, concat, require, fault, if◌then◌else◌, true, ◌||◌,
}
use codex_hooks.Base.Exec.{Exec, pure, raise, lift, ◌>>=◌, ◌>>◌}
use codex_hooks.Base.Dict.{put}
use codex_hooks.Protocol.Value.{
  end, field, Value, get, str, set_field, is_nullish, is_text, or_value, join_text,
}
use codex_hooks.Protocol.Normalize.{assert_non_empty}
use codex_hooks.Timer.Schedule.{Schedule}
use codex_hooks.Timer.Requests.{target_value}
use codex_hooks.Control.Store.{
  ControlState, Host, schedules_of, put_schedules, operators_of, put_operators,
}
use codex_hooks.Control.Operators.{bound_target}
use codex_hooks.Control.Upsert.{new_schedule}

-- `{ ...value, name: new }`, on an object or null
unfoldable pub with_field : String → Value → Value → Value
with_field name value (Value.obj fs) = Value.obj (set_field name value fs)
with_field name value v = Value.obj (field name value end)

-- What `addSchedule` returns: the schedule, and the alias that its session was named by.
pub record Added : Type 0 where
  pub schedule : Schedule
  pub session : Option String

module _ {D : Type 0} (host : Host D) where
  -- `schedules[id] = schedule`, and what is returned
  unfoldable pub store_schedule : Schedule → Exec (ControlState D) Schedule
  store_schedule s = do schedules ← schedules_of; put_schedules (put s.id s schedules); pure s

  unfoldable pub upsert_schedule : Value → Exec (ControlState D) Schedule
  upsert_schedule request = do s ← lift (new_schedule host.parse_date request); store_schedule s

  -- The end of `addSchedule`: the schedule is stored, and the timer switched on.
  unfoldable pub add_with : Value → Option String → Exec (ControlState D) Added
  add_with request alias = do
    s ← upsert_schedule request
    operators ← operators_of
    put_operators (put "timer" true operators)
    pure (record { schedule = s; session = alias })

  -- `addSchedule` on a request whose action is given
  unfoldable pub add_for : Value → Value → Exec (ControlState D) Added
  add_for request action =
      if is_text action "notify" || is_text action "wait"
      then (do
        alias ← lift (assert_non_empty (get request "session") "session")
        target ← bound_target alias
        add_with (with_field "target" (target_value target) (with_field "action" action request))
            (some alias))
      else if is_text action "subagent"
      then add_with (with_field "action" action request) none
      else raise (fault (concat ("unsupported schedule action: " ∷ join_text action ∷ [])))

  unfoldable pub add_schedule : Value → Exec (ControlState D) Added
  add_schedule request = add_for request (or_value (get request "action") (str "notify"))

  unfoldable pub add_wait : Value → Exec (ControlState D) Added
  add_wait request = do
    lift (
        require (is_nullish (get request "mode") || is_text (get request "mode") "once")
          (fault "wait schedules must be one-shot"))
    add_schedule (with_field "mode" (str "once") (with_field "action" (str "wait") request))
