-- ===== src/Control/Invariant.antt =====
-- Every stored schedule stays well formed under `mutate`.
use codex_hooks.Base.{List, ℕ, String, Bool, Option, Gives-eq}
use codex_hooks.Base.Dict.{lookup}
use codex_hooks.Protocol.Value.{Value}
use codex_hooks.Timer.Schedule.{Schedule}
use codex_hooks.Control.Store.{ControlState, Host}
use codex_hooks.Control.Calls.{stored}
use codex_hooks.Control.Steps.{ScheduleStep}
use codex_hooks.Control.Refines.{Steps}
use codex_hooks.Control.Mutated.{AllowsCalls}
use codex_hooks.Control.Mutate.{mutate}
use codex_hooks.Control.Installs.{IsNew, mutate-Steps}
use codex_hooks.Control.Retired.{OnEntry}
use codex_hooks.Control.Valid.{IsValidSchedule, new_schedule-Gives}
use codex_hooks.Control.Patched.{normalize_schedule_patch-Gives}

-- A change of the state, the switch and the stamps leaves a schedule well formed.
marked-IsValid :
    (parse_date : String → Option ℕ) (s : Schedule) (enabled : Option Bool) (state : String)
    (stamps : List (String × String))
    → IsValidSchedule parse_date s
    → IsValidSchedule parse_date (record s { enabled = enabled; state = state; stamps = stamps })
marked-IsValid parse_date s enabled state stamps valid = record {
  action = valid.action;
  mode = valid.mode;
  has_action = valid.has_action;
  has_mode = valid.has_mode;
  has_time = valid.has_time;
  waits_once = valid.waits_once;
  has_interval = valid.has_interval;
  is_allowed = valid.is_allowed;
  is_aimed = valid.is_aimed;
}

step-IsValid :
    {parse_date : String → Option ℕ} {a b : Option Schedule}
    → ScheduleStep parse_date (IsNew parse_date) a b
    → OnEntry (IsValidSchedule parse_date) a
    → OnEntry (IsValidSchedule parse_date) b
step-IsValid {parse_date = parse} (ScheduleStep.kept o) h = h
step-IsValid {parse_date = parse} (ScheduleStep.installed o s (request, e)) h =
    Gives-eq _ (new_schedule-Gives parse request) e
step-IsValid {parse_date = parse} (ScheduleStep.pauses s live) h = marked-IsValid parse s _ _ _ h
step-IsValid {parse_date = parse} (ScheduleStep.resumes s live) h = marked-IsValid parse s _ _ _ h
step-IsValid {parse_date = parse} (ScheduleStep.updates s action target request p live e) h =
    Gives-eq _ (normalize_schedule_patch-Gives action target request s h) e
step-IsValid {parse_date = parse} (ScheduleStep.stops s at stoppable) h =
    marked-IsValid parse s _ _ _ h
step-IsValid {parse_date = parse} (ScheduleStep.cancels s at) h = marked-IsValid parse s _ _ _ h
step-IsValid {parse_date = parse} (ScheduleStep.then_step a b c p q) h =
    step-IsValid q (step-IsValid p h)

-- Every stored schedule is well formed.
pub record AllValid {D : Type 0} (host : Host D) (t : ControlState D) : Type 0 where
  pub at : (id : String) → OnEntry (IsValidSchedule host.parse_date) (lookup id (stored t))

module _ {D : Type 0} (host : Host D) where
  -- If every stored schedule is well formed (its action, mode and time are known ones, a recurring
  -- one has a positive interval and no other has one, one that waits has one occurrence, recurring
  -- subagents allow to run side by side, and its target is normalised), then it is so after any
  -- request to `mutate`, whether it returns or throws. What others do while the App Server is
  -- awaited is supposed to be such requests likewise.
  pub mutate-AllValid :
      (request : Value) (t : ControlState D)
      → AllowsCalls (Steps host (IsNew host.parse_date)) host
      → AllValid host t
      → AllValid host (mutate host request t).1
  mutate-AllValid request t calls valid = record {
    at = λ id. step-IsValid (((mutate-Steps host calls request).at t).at id) (valid.at id);
  }
