-- ===== src/Timer/World.antt =====
-- The state of the operator of src/timer.js and the functions it is built with.
use codex_hooks.Base.{ℕ, String, Bool, Option, some, Outcome, ok}
use codex_hooks.Base.Exec.{Exec, ◌>>=◌}
use codex_hooks.Base.Dict.{Dict, put}
use codex_hooks.Protocol.Value.{Value}
use codex_hooks.Protocol.Normalize.{Target}
use codex_hooks.Timer.Schedule.{Schedule}

-- What the store keeps and others may change while a message is dispatched: the two controls, and
-- the rest, which the functions below work on.
pub record Shared (D : Type 0) : Type 0 where
  pub timer_enabled : Bool
  pub schedules : Option (Dict Schedule)
  pub rest : D

-- The operator's view: the store, and the copy of the schedules that a tick works on.
pub record TimerState (D : Type 0) : Type 0 where
  pub shared : Shared D
  pub copy : Dict Schedule

-- The constructor's arguments, the optional ones as options, with `Date.parse`, the text of a
-- time (none out of the range of a date) and `localeCompare`.
pub record Operator (D : Type 0) : Type 0 where
  pub dispatch : Value → Shared D → Outcome Value × Shared D
  pub resume : Option (Target → Shared D → Outcome Value × Shared D)
  pub create_subagent : Option (Value → Shared D → Outcome Value × Shared D)
  pub register_subagent : Option (Value → Shared D → Outcome Value × Shared D)
  pub session_status : Option (Target → Shared D → Outcome Value × Shared D)
  pub intent_of : Option (String → D → Option Value)
  pub clock : D → String × D
  pub parse_date : String → Option ℕ
  pub iso : ℕ → Option String
  pub text_le : String → String → Bool

module _ {D : Type 0} where
  -- `await f(…)`, for a function the operator is built with
  unfoldable pub call : {A : Type 0} → (Shared D → Outcome A × Shared D) → Exec (TimerState D) A
  call f t = let (r, s) = f t.shared in (r, record t { shared = s })

  -- `this.store.getControl("schedules")`
  unfoldable pub stored_schedules : Exec (TimerState D) (Option (Dict Schedule))
  stored_schedules t = (ok t.shared.schedules, t)

  -- `this.updateSchedule(schedules, current, patch)` on the copy of the tick
  unfoldable pub update_schedule : Schedule → (Schedule → Schedule) → Exec (TimerState D) Unit
  update_schedule current patch t =
      let copy' = put current.id (patch current) t.copy in
      (ok tt, record t { shared = record t.shared { schedules = some copy' }; copy = copy' })

  -- `this.updateSchedule(latestSchedules, latest, patch)`: the copy of the tick stays
  unfoldable pub update_latest :
      Dict Schedule → Schedule → (Schedule → Schedule) → Exec (TimerState D) Unit
  update_latest latest_schedules current patch t = (
    ok tt,
    record t {
      shared = record t.shared {
        schedules = some (put current.id (patch current) latest_schedules);
      };
    },
  )

  -- `this.clock.now()`
  unfoldable pub clock_now : Operator D → Exec (TimerState D) String
  clock_now op t =
      let (at, d) = op.clock t.shared.rest in
      (ok at, record t { shared = record t.shared { rest = d } })

-- Opening this opens the primitive methods.
unfoldable pub timer_primitives : Unit {0}
unfolding ◌>>=◌ call stored_schedules update_schedule update_latest clock_now
timer_primitives = tt
