-- ===== src/Control/Refines.antt =====
-- The operations that are built from those on one schedule, and `mutate`, go by the steps too.
use codex_hooks.Base.{ℕ, String, Bool, true, false, ◌≡◌, refl}
use codex_hooks.Base.Exec.{Exec}
use codex_hooks.Base.Exec.Moves.{IsPreorder, Moves, moves_rules}
use codex_hooks.Base.Dict.{Dict}
use codex_hooks.Protocol.Value.{Value}
use codex_hooks.Timer.Schedule.{Schedule}
use codex_hooks.Control.Store.{
  ControlState, Host, LongHorizon, Binding, schedules_of, bindings_of, read_clock, operators_of,
  subagents_of, horizons_of, put_operators, put_bindings, put_subagents, put_horizons, iso_of,
}
use codex_hooks.Control.Operators.{
  bind_to, bound_target, set_operator, bind_session, unbind_session, sync_operator_state,
  resolve_session_target,
}
use codex_hooks.Control.Calls.{stored, OnSchedules}
use codex_hooks.Control.Steps.{Changes}
use codex_hooks.Control.Transitions.{
  OnSchedules-IsPreorder, pause_schedule-Steps, resume_schedule-Steps, remove_schedule-Steps,
  stop_schedule-Steps, update_schedule-Steps,
}
use codex_hooks.Control.LongHorizon.{delayed}
use codex_hooks.Control.Switch.{
  switch_live, move_liveness, assert_can_activate, switch_goal, switch_schedule, switch_record,
  switch_periodic, set_long_horizon_enabled,
}
use codex_hooks.Control.Schedules.{stop_schedule, remove_schedule, pause_schedule, resume_schedule}
use codex_hooks.Control.Liveness.{
  stop_record, remove_long_horizon, stop_if, stop_periodic, stop_goal, stop_long_horizon,
}
use codex_hooks.Control.Update.{update_schedule}

module _ {D : Type 0} (host : Host D) (Fresh : Schedule → Type 0) where
  abbrev pub Steps : ControlState D → ControlState D → Type 0
  Steps = OnSchedules (Changes host.parse_date Fresh)

  pub Steps-IsPreorder : IsPreorder Steps
  Steps-IsPreorder = OnSchedules-IsPreorder host Fresh

  -- A method that changes no schedule.
  quiet :
      {A : Type 0} (m : Exec (ControlState D) A)
      → ((t : ControlState D) → stored t ≡ stored (m t).1)
      → Moves Steps m
  quiet m same = record { at = λ t. rw (← same t) (Steps-IsPreorder.reflexive t) }

  pub operators_of-Steps : Moves Steps (operators_of {D = D})
  unfolding operators_of
  operators_of-Steps = quiet _ (λ t. refl)

  pub put_operators-Steps : (d : Dict Bool) → Moves Steps (put_operators {D = D} d)
  unfolding put_operators
  put_operators-Steps d = quiet _ (λ t. refl)

  pub bindings_of-Steps : Moves Steps (bindings_of {D = D})
  unfolding bindings_of
  bindings_of-Steps = quiet _ (λ t. refl)

  pub put_bindings-Steps : (d : Dict Binding) → Moves Steps (put_bindings {D = D} d)
  unfolding put_bindings
  put_bindings-Steps d = quiet _ (λ t. refl)

  pub schedules_of-Steps : Moves Steps (schedules_of {D = D})
  unfolding schedules_of
  schedules_of-Steps = quiet _ (λ t. refl)

  pub subagents_of-Steps : Moves Steps (subagents_of {D = D})
  unfolding subagents_of
  subagents_of-Steps = quiet _ (λ t. refl)

  pub put_subagents-Steps : (d : Dict Value) → Moves Steps (put_subagents {D = D} d)
  unfolding put_subagents
  put_subagents-Steps d = quiet _ (λ t. refl)

  pub horizons_of-Steps : Moves Steps (horizons_of {D = D})
  unfolding horizons_of
  horizons_of-Steps = quiet _ (λ t. refl)

  pub put_horizons-Steps : (d : Dict LongHorizon) → Moves Steps (put_horizons {D = D} d)
  unfolding put_horizons
  put_horizons-Steps d = quiet _ (λ t. refl)

  pub read_clock-Steps : (clock : D → String × D) → Moves Steps (read_clock clock)
  unfolding read_clock
  read_clock-Steps clock = quiet _ (λ t. refl)

  pub ruleset steps_rules = (
    moves_rules, Steps-IsPreorder, operators_of-Steps, put_operators-Steps, bindings_of-Steps,
    put_bindings-Steps, schedules_of-Steps, subagents_of-Steps, put_subagents-Steps,
    horizons_of-Steps, put_horizons-Steps, read_clock-Steps,
  )

  pub set_operator-Steps : (request : Value) → Moves Steps (set_operator host request)
  unfolding set_operator
  set_operator-Steps request = search steps_rules depth 16

  pub bind_session-Steps : (request : Value) → Moves Steps (bind_session host request)
  unfolding bind_session bind_to
  bind_session-Steps request = search steps_rules depth 16

  pub unbind_session-Steps : (request : Value) → Moves Steps (unbind_session host request)
  unfolding unbind_session
  unbind_session-Steps request = search steps_rules depth 16

  pub sync-Steps : (records : Dict LongHorizon) → Moves Steps (sync_operator_state {D = D} records)
  unfolding sync_operator_state
  sync-Steps records = search steps_rules depth 16

  pub iso_of-Steps : (ms : ℕ) → Moves Steps (iso_of host ms)
  unfolding iso_of
  iso_of-Steps ms = search steps_rules depth 16

  pub delayed-Steps : (text : String) → Moves Steps (delayed host text)
  unfolding delayed
  delayed-Steps text = search (steps_rules, iso_of-Steps) depth 16

  pub resolve-Steps : (alias : Value) → Moves Steps (resolve_session_target {D = D} alias)
  unfolding resolve_session_target bound_target
  resolve-Steps alias = search steps_rules depth 16

  pub its-pause : (request : Value) → Moves Steps (pause_schedule {D = D} request)
  its-pause = pause_schedule-Steps host Fresh

  pub its-resume : (request : Value) → Moves Steps (resume_schedule {D = D} request)
  its-resume = resume_schedule-Steps host Fresh

  pub its-update : (request : Value) → Moves Steps (update_schedule host request)
  its-update = update_schedule-Steps host Fresh

  pub its-stop : (request : Value) → Moves Steps (stop_schedule host request)
  its-stop = stop_schedule-Steps host Fresh

  pub its-remove : (request : Value) → Moves Steps (remove_schedule host request)
  its-remove = remove_schedule-Steps host Fresh

  pub switch_schedule-Steps :
      (enabled : Bool) (id : String) → Moves Steps (switch_schedule {D = D} enabled id)
  unfolding switch_schedule
  switch_schedule-Steps true id = its-resume _
  switch_schedule-Steps false id = its-pause _

  pub move_liveness-Steps :
      (enabled : Bool) (id at : String) → Moves Steps (move_liveness host enabled id at)
  unfolding move_liveness
  move_liveness-Steps true id at = search (steps_rules, delayed-Steps, its-update) depth 16
  move_liveness-Steps false id at = search steps_rules

  ruleset switch_rules =
      (steps_rules, delayed-Steps, sync-Steps, switch_schedule-Steps, move_liveness-Steps)

  pub switch_periodic-Steps :
      (enabled : Bool) (id : String) (r : LongHorizon) (records : Dict LongHorizon)
      → Moves Steps (switch_periodic {D = D} enabled id r records)
  unfolding switch_periodic
  switch_periodic-Steps enabled id r records = search switch_rules depth 16

  pub switch_live-Steps :
      (enabled : Bool) (id at : String) (r : LongHorizon) (records : Dict LongHorizon)
      → Moves Steps (switch_live host enabled id at r records)
  unfolding switch_live
  switch_live-Steps enabled id at r records = search switch_rules depth 16

  pub switch_goal-Steps :
      (enabled : Bool) (id at : String) (r : LongHorizon) (records : Dict LongHorizon)
      → Moves Steps (switch_goal host enabled id at r records)
  unfolding switch_goal
  switch_goal-Steps enabled id at r records = search (switch_rules, switch_live-Steps) depth 16

  pub assert_can_activate-Steps :
      (enabled : Bool) (r : LongHorizon) → Moves Steps (assert_can_activate {D = D} enabled r)
  unfolding assert_can_activate
  assert_can_activate-Steps enabled r = search steps_rules depth 16

  pub switch_record-Steps :
      (id : String) (enabled : Bool) (r : LongHorizon) (records : Dict LongHorizon)
      → Moves Steps (switch_record host id enabled r records)
  unfolding switch_record
  switch_record-Steps id enabled r records =
      search (switch_rules, switch_periodic-Steps, switch_goal-Steps, assert_can_activate-Steps)
        depth 20

  pub set_long_horizon_enabled-Steps :
      (request : Value) (enabled : Bool)
      → Moves Steps (set_long_horizon_enabled host request enabled)
  unfolding set_long_horizon_enabled
  set_long_horizon_enabled-Steps request enabled =
      search (steps_rules, switch_record-Steps) depth 16

  pub stop_if-Steps : (test : Schedule → Bool) (id : String) → Moves Steps (stop_if host test id)
  unfolding stop_if
  stop_if-Steps test id = search (steps_rules, its-stop) depth 16

  pub stop_periodic-Steps : (r : LongHorizon) → Moves Steps (stop_periodic host r)
  unfolding stop_periodic
  stop_periodic-Steps r = search (steps_rules, stop_if-Steps) depth 16

  pub stop_goal-Steps :
      (id : String) (r : LongHorizon) (records : Dict LongHorizon)
      → Moves Steps (stop_goal host id r records)
  unfolding stop_goal
  stop_goal-Steps id r records = search (steps_rules, stop_if-Steps) depth 16

  pub stop_record-Steps :
      (id : String) (r : LongHorizon) (records : Dict LongHorizon)
      → Moves Steps (stop_record host id r records)
  unfolding stop_record
  stop_record-Steps id r records =
      search (steps_rules, sync-Steps, stop_periodic-Steps, stop_goal-Steps) depth 16

  pub stop_long_horizon-Steps : (request : Value) → Moves Steps (stop_long_horizon host request)
  unfolding stop_long_horizon
  stop_long_horizon-Steps request = search (steps_rules, stop_record-Steps) depth 16

  pub remove_long_horizon-Steps : (request : Value) → Moves Steps (remove_long_horizon host request)
  unfolding remove_long_horizon
  remove_long_horizon-Steps request = search (steps_rules, stop_long_horizon-Steps) depth 16
