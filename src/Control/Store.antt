-- ===== src/Control/Store.antt =====
-- src/control.js: the controls of the state store, and what the control plane is built with.
use codex_hooks.Base.{ℕ, String, Bool, Option, some, List, [], or_else, Outcome, ok, fault}
use codex_hooks.Base.Exec.{Exec, pure, raise, on_option}
use codex_hooks.Base.Dict.{Dict}
use codex_hooks.Protocol.Value.{Value}
use codex_hooks.Protocol.Normalize.{Target}
use codex_hooks.Timer.Schedule.{Schedule}

-- An entry of the control `session_bindings`.
pub record Binding : Type 0 where
  pub alias : String
  pub target : Target
  pub bound_at : String

-- An entry of the control `longhorizon`. A text that is missing is the empty one; `review` has the
-- fields that only the goal review writes.
pub record LongHorizon : Type 0 where
  pub id : String
  pub mode : String
  pub enabled : Bool
  pub state : String
  pub activated_at : String
  pub goal_file : String
  pub prompt : String
  pub session : String
  pub interval_ms : Option ℕ
  pub owner_session_id : String
  pub review_budget : Option ℕ
  pub review_count : Option ℕ
  pub target : Option Target
  pub schedule_id : String
  pub schedule_state : String
  pub liveness_schedule_id : String
  pub liveness_check_due_at : String
  pub liveness_state : String
  pub stamps : List (String × String)
  pub review : Value

-- The controls that `getControl` and `putControl` reach; one that was never put is none.
pub record Controls : Type 0 where
  pub operators : Option (Dict Bool)
  pub session_bindings : Option (Dict Binding)
  pub schedules : Option (Dict Schedule)
  pub subagents : Option (Dict Value)
  pub longhorizon : Option (Dict LongHorizon)

pub record ControlState (D : Type 0) : Type 0 where
  pub controls : Controls
  pub rest : D

-- The constructor's arguments, with the clock, `Date.parse`, the text of a time (none out of the
-- range of a date) `JSON.stringify` and the digest. A call of the App Server is awaited, and others may change the
-- controls meanwhile.
pub record Host (D : Type 0) : Type 0 where
  pub now : D → String × D
  pub date_now : D → String × D
  pub attempt_name : D → String × D
  pub parse_date : String → Option ℕ
  pub iso : ℕ → Option String
  pub digest : String → String
  pub stringify : Value → String
  pub create_subagent : Option (Value → ControlState D → Outcome Value × ControlState D)
  pub session_status : Option (Value → ControlState D → Outcome Value × ControlState D)
  pub interrupt_subagent : Option (Value → ControlState D → Outcome Value × ControlState D)

module _ {D : Type 0} where
  -- `this.store.getControl(…)`, a copy
  unfoldable pub controls_of : Exec (ControlState D) Controls
  controls_of t = (ok t.controls, t)

  unfoldable pub operators_of : Exec (ControlState D) (Dict Bool)
  operators_of t = (ok (or_else t.controls.operators []), t)

  unfoldable pub bindings_of : Exec (ControlState D) (Dict Binding)
  bindings_of t = (ok (or_else t.controls.session_bindings []), t)

  unfoldable pub schedules_of : Exec (ControlState D) (Dict Schedule)
  schedules_of t = (ok (or_else t.controls.schedules []), t)

  unfoldable pub subagents_of : Exec (ControlState D) (Dict Value)
  subagents_of t = (ok (or_else t.controls.subagents []), t)

  unfoldable pub horizons_of : Exec (ControlState D) (Dict LongHorizon)
  horizons_of t = (ok (or_else t.controls.longhorizon []), t)

  -- `this.store.putControl(…)`
  unfoldable pub put_operators : Dict Bool → Exec (ControlState D) Unit
  put_operators d t = (ok tt, record t { controls = record t.controls { operators = some d } })

  unfoldable pub put_bindings : Dict Binding → Exec (ControlState D) Unit
  put_bindings d t =
      (ok tt, record t { controls = record t.controls { session_bindings = some d } })

  unfoldable pub put_schedules : Dict Schedule → Exec (ControlState D) Unit
  put_schedules d t = (ok tt, record t { controls = record t.controls { schedules = some d } })

  unfoldable pub put_subagents : Dict Value → Exec (ControlState D) Unit
  put_subagents d t = (ok tt, record t { controls = record t.controls { subagents = some d } })

  unfoldable pub put_horizons : Dict LongHorizon → Exec (ControlState D) Unit
  put_horizons d t = (ok tt, record t { controls = record t.controls { longhorizon = some d } })

  -- `this.now()`, `new Date().toISOString()`
  unfoldable pub read_clock : (D → String × D) → Exec (ControlState D) String
  read_clock clock t = let (at, d) = clock t.rest in (ok at, record t { rest = d })

  -- `new Date(Date.parse(text) + delay).toISOString()`, for the sum
  unfoldable pub iso_of : Host D → ℕ → Exec (ControlState D) String
  iso_of host ms = on_option (host.iso ms) (raise (fault "Invalid time value")) (λ text. pure text)
