-- ===== src/Control/Mutate.antt =====
-- src/control.js: `mutate`, which hands a request to the operation that it names.
use codex_hooks.Base.{
  String, Bool, Option, [], ◌∷◌, ◌==◌, ◌||◌, concat, require, fault, if◌then◌else◌, true, false,
}
use codex_hooks.Base.Exec.{Exec, pure, raise, lift, ◌>>=◌, ◌>>◌}
use codex_hooks.Protocol.Value.{Value, get, is_object}
use codex_hooks.Protocol.Normalize.{assert_non_empty}
use codex_hooks.Timer.Schedule.{Schedule}
use codex_hooks.Control.Store.{Binding, LongHorizon, ControlState, Host}
use codex_hooks.Control.Operators.{set_operator, bind_session, unbind_session}
use codex_hooks.Control.Add.{Added, upsert_schedule, add_schedule, add_wait}
use codex_hooks.Control.Schedules.{remove_schedule, pause_schedule, resume_schedule, stop_schedule}
use codex_hooks.Control.Update.{update_schedule}
use codex_hooks.Control.LongHorizon.{register_long_horizon}
use codex_hooks.Control.Switch.{set_long_horizon_enabled}
use codex_hooks.Control.Liveness.{stop_long_horizon, remove_long_horizon}
use codex_hooks.Control.Subagents.{create_subagent, stop_subagent}

-- What the operations return.
pub data ControlResult : Type 0 where
  operator_set : String × Bool → ControlResult
  bound : Binding → ControlResult
  unbound : String × Option Binding → ControlResult
  scheduled : Schedule → ControlResult
  added : Added → ControlResult
  horizon : LongHorizon → ControlResult
  subagent : Value → ControlResult

module _ {D : Type 0} where
  -- The result of an operation, among those of all.
  unfoldable pub answer :
      {A : Type 0}
      → (A → ControlResult)
      → Exec (ControlState D) A
      → Exec (ControlState D) ControlResult
  answer wrap operation = do a ← operation; pure (wrap a)

module _ {D : Type 0} (host : Host D) where
  -- The operations on schedules that are there already.
  unfoldable pub mutate_schedule : String → Value → Exec (ControlState D) ControlResult
  mutate_schedule operation request =
      if operation == "schedule.remove"
      then answer ControlResult.scheduled (remove_schedule host request)
      else if operation == "schedule.pause"
      then answer ControlResult.scheduled (pause_schedule request)
      else if operation == "schedule.resume"
      then answer ControlResult.scheduled (resume_schedule request)
      else if operation == "schedule.update"
      then answer ControlResult.scheduled (update_schedule host request)
      else if operation == "schedule.stop"
      then answer ControlResult.scheduled (stop_schedule host request)
      else raise (fault (concat ("unsupported control operation: " ∷ operation ∷ [])))

  -- The operations on long-horizon records and subagents, and those after them.
  unfoldable pub mutate_horizon : String → Value → Exec (ControlState D) ControlResult
  mutate_horizon operation request =
      if operation == "longhorizon.activate"
      then answer ControlResult.horizon (set_long_horizon_enabled host request true)
      else if operation == "longhorizon.pause"
      then answer ControlResult.horizon (set_long_horizon_enabled host request false)
      else if operation == "longhorizon.stop"
      then answer ControlResult.horizon (stop_long_horizon host request)
      else if operation == "longhorizon.remove"
      then answer ControlResult.horizon (remove_long_horizon host request)
      else mutate_schedule operation request

  unfoldable pub mutate_subagent : String → Value → Exec (ControlState D) ControlResult
  mutate_subagent operation request =
      if operation == "subagent.create"
      then answer ControlResult.subagent (create_subagent host request)
      else if operation == "subagent.stop"
      then answer ControlResult.subagent (stop_subagent host request)
      else mutate_horizon operation request

  -- The operations that make a schedule.
  unfoldable pub mutate_new : String → Value → Exec (ControlState D) ControlResult
  mutate_new operation request =
      if operation == "schedule.add"
      then answer ControlResult.added (add_schedule host request)
      else if operation == "schedule.upsert"
      then answer ControlResult.scheduled (upsert_schedule host request)
      else if operation == "wait.create" || operation == "wait.block"
      then answer ControlResult.added (add_wait host request)
      else if operation == "longhorizon.register"
      then answer ControlResult.horizon (register_long_horizon host request)
      else mutate_subagent operation request

  unfoldable pub mutate_operation : String → Value → Exec (ControlState D) ControlResult
  mutate_operation operation request =
      if operation == "operator.set_enabled"
      then answer ControlResult.operator_set (set_operator host request)
      else if operation == "session.bind"
      then answer ControlResult.bound (bind_session host request)
      else if operation == "session.unbind"
      then answer ControlResult.unbound (unbind_session host request)
      else mutate_new operation request

  unfoldable pub mutate : Value → Exec (ControlState D) ControlResult
  mutate request = do
    lift (require (is_object request) (fault "control mutation is required"))
    operation ← lift (assert_non_empty (get request "operation") "operation")
    mutate_operation operation request
