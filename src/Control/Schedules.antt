-- ===== src/Control/Schedules.antt =====
-- src/control.js: `removeSchedule`, `pauseSchedule`, `resumeSchedule` and `stopSchedule`.
use codex_hooks.Base.{false, true, String, Bool, some, [], ◌∷◌, not, member, concat, require, fault}
use codex_hooks.Base.Exec.{Exec, pure, raise, lift, on_option, ◌>>=◌, ◌>>◌}
use codex_hooks.Base.Dict.{Dict, lookup, put}
use codex_hooks.Protocol.Value.{Value, get}
use codex_hooks.Protocol.Normalize.{assert_non_empty}
use codex_hooks.Timer.Schedule.{Schedule, stamped}
use codex_hooks.Control.Store.{ControlState, Host, schedules_of, put_schedules, read_clock}

-- `isTerminalSchedule`
unfoldable pub is_terminal : Schedule → Bool
is_terminal s = member s.state ("cancelled" ∷ "stopped" ∷ "session_missing" ∷ [])

-- `STOPPABLE_SCHEDULE_STATES.has(schedule.state)`
unfoldable pub is_stoppable : Schedule → Bool
is_stoppable s =
    member s.state
      ("configured" ∷ "enabled" ∷ "disabled" ∷ "deferred_while_working" ∷ "send_pending" ∷ [])

-- What the operations make of a schedule.
abbrev pub paused : Schedule → Schedule
paused s = record s { enabled = some false; state = "disabled" }

abbrev pub resumed : Schedule → Schedule
resumed s = record s { enabled = some true; state = "enabled" }

abbrev pub cancelled : String → Schedule → Schedule
cancelled at s = stamped "cancelled_at" at (record s { enabled = some false; state = "cancelled" })

abbrev pub halted : String → Schedule → Schedule
halted at s = stamped "stopped_at" at (record s { enabled = some false; state = "stopped" })

module _ {D : Type 0} where
  unfoldable pub require_schedule : Dict Schedule → String → Exec (ControlState D) Schedule
  require_schedule schedules id =
      on_option (lookup id schedules) (raise (fault (concat ("schedule not found: " ∷ id ∷ []))))
        (λ s. pure s)

  -- `if (isTerminalSchedule(schedule)) throw …`
  unfoldable pub require_live : String → Schedule → Exec (ControlState D) Unit
  require_live id s =
      lift (require (not (is_terminal s)) (fault (concat ("schedule is terminal: " ∷ id ∷ []))))

  -- `schedules[id] = changed`, and what is returned
  unfoldable pub replace_schedule :
      String → Schedule → Dict Schedule → Exec (ControlState D) Schedule
  replace_schedule id changed schedules = do put_schedules (put id changed schedules); pure changed

  unfoldable pub pause_schedule : Value → Exec (ControlState D) Schedule
  pause_schedule request = do
    id ← lift (assert_non_empty (get request "id") "id")
    schedules ← schedules_of
    s ← require_schedule schedules id
    require_live id s
    replace_schedule id (paused s) schedules

  unfoldable pub resume_schedule : Value → Exec (ControlState D) Schedule
  resume_schedule request = do
    id ← lift (assert_non_empty (get request "id") "id")
    schedules ← schedules_of
    s ← require_schedule schedules id
    require_live id s
    replace_schedule id (resumed s) schedules

module _ {D : Type 0} (host : Host D) where
  unfoldable pub remove_schedule : Value → Exec (ControlState D) Schedule
  remove_schedule request = do
    id ← lift (assert_non_empty (get request "id") "id")
    schedules ← schedules_of
    s ← require_schedule schedules id
    at ← read_clock host.date_now
    replace_schedule id (cancelled at s) schedules

  unfoldable pub stop_schedule : Value → Exec (ControlState D) Schedule
  stop_schedule request = do
    id ← lift (assert_non_empty (get request "id") "id")
    schedules ← schedules_of
    s ← require_schedule schedules id
    lift (
        require (is_stoppable s)
          (fault (concat ("schedule cannot be stopped from state: " ∷ s.state ∷ []))))
    at ← read_clock host.date_now
    replace_schedule id (halted at s) schedules
