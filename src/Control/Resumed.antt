-- ===== src/Control/Resumed.antt =====
-- A pause that is followed by a resumption leaves no trace.
use codex_hooks.Base.{String, ◌≡◌, some, or_else, []}
use codex_hooks.Base.Dict.{put}
use codex_hooks.Protocol.Value.{Value}
use codex_hooks.Timer.Schedule.{Schedule}
use codex_hooks.Control.Store.{ControlState}
use codex_hooks.Control.Schedules.{resume_schedule, paused}

module _ {D : Type 0} where
  -- What a resumption makes of the state that a pause left.
  record Forgets (request : Value) (t : ControlState D) (s : Schedule) (t' : ControlState D)
      : Type 0 where
    at : resume_schedule request t' ≡ resume_schedule request t

  -- The state that a pause of `s` leaves.
  abbrev pausing : String → Schedule → ControlState D → ControlState D
  pausing id s t = record t {
    controls = record t.controls {
      schedules = some (put id (paused s) (or_else t.controls.schedules []));
    };
  }
