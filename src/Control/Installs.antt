-- ===== src/Control/Installs.antt =====
-- The operations that store a new schedule go by the steps, where the new schedules are the fresh
-- ones; with them, `mutate` does.
use codex_hooks.Base.{ℕ, String, ◌≡◌, refl, Option, ok, Outcome, throws}
use codex_hooks.Base.Exec.{lift, ◌>>=◌}
use codex_hooks.Base.Exec.Moves.{IsPreorder, Moves}
use codex_hooks.Base.Dict.{Dict, lookup}
use codex_hooks.Protocol.Value.{Value}
use codex_hooks.Timer.Schedule.{Schedule}
use codex_hooks.Control.Store.{put_schedules, LongHorizon, schedules_of, ControlState, Host}
use codex_hooks.Control.Refines.{
  unbind_session-Steps, bind_session-Steps, delayed-Steps, set_operator-Steps, resolve-Steps,
  sync-Steps, steps_rules, Steps, Steps-IsPreorder,
}
use codex_hooks.Control.Mutated.{AllowsCalls, mutate_subagent-Steps, answer-Steps}
use codex_hooks.Control.Mutate.{mutate_new, mutate, mutate_operation}
use codex_hooks.Control.LongHorizon.{
  register_periodic, register_long_horizon, register_new, described, start_of, register_goal,
}
use codex_hooks.Control.Upsert.{new_schedule}
use codex_hooks.Control.Add.{
  add_for, upsert_schedule, add_with, add_schedule, store_schedule, add_wait,
}
use codex_hooks.Control.Operators.{bound_target}
use codex_hooks.Control.Steps.{ScheduleStep, put-Changes}
use codex_hooks.Control.Calls.{stored}

-- A schedule that `upsertSchedule` makes of some request.
abbrev pub IsNew : (String → Option ℕ) → Schedule → Type 0
IsNew parse_date s = (request : Value) × (new_schedule parse_date request ≡ ok s)

module _ {D : Type 0} (host : Host D) where
  abbrev NewSteps : ControlState D → ControlState D → Type 0
  NewSteps = Steps host (IsNew host.parse_date)

  new-IsPreorder : IsPreorder NewSteps
  new-IsPreorder = Steps-IsPreorder host (IsNew host.parse_date)

  store_schedule-Steps :
      (s : Schedule) → IsNew host.parse_date s → Moves NewSteps (store_schedule host s)
  unfolding store_schedule ◌>>=◌ schedules_of put_schedules
  store_schedule-Steps s new = record {
    at = λ t. put-Changes (stored t) s.id s (ScheduleStep.installed (lookup s.id (stored t)) s new);
  }

  upsert_of-Steps :
      (request : Value) (r : Outcome Schedule)
      → new_schedule host.parse_date request ≡ r
      → Moves NewSteps (lift r >>= store_schedule host)
  unfolding ◌>>=◌
  upsert_of-Steps request (ok s) e = store_schedule-Steps s (request, e)
  upsert_of-Steps request (throws x) e = record { at = new-IsPreorder.reflexive }

  upsert_schedule-Steps : (request : Value) → Moves NewSteps (upsert_schedule host request)
  unfolding upsert_schedule
  upsert_schedule-Steps request = upsert_of-Steps request _ refl

  add_with-Steps :
      (request : Value) (alias : Option String) → Moves NewSteps (add_with host request alias)
  unfolding add_with
  add_with-Steps request alias = search (steps_rules, upsert_schedule-Steps) depth 16

  bound_target-Steps : (alias : String) → Moves NewSteps (bound_target {D = D} alias)
  unfolding bound_target
  bound_target-Steps alias = search steps_rules depth 16

  add_schedule-Steps : (request : Value) → Moves NewSteps (add_schedule host request)
  unfolding add_schedule add_for
  add_schedule-Steps request = search (steps_rules, bound_target-Steps, add_with-Steps) depth 16

  add_wait-Steps : (request : Value) → Moves NewSteps (add_wait host request)
  unfolding add_wait
  add_wait-Steps request = search (steps_rules, add_schedule-Steps) depth 16

  described-Steps :
      (id mode : String) (request : Value) → Moves NewSteps (described host id mode request)
  unfolding described
  described-Steps id mode request = search steps_rules depth 20

  start_of-Steps : (request : Value) → Moves NewSteps (start_of host request)
  unfolding start_of
  start_of-Steps request = search steps_rules depth 16

  register_periodic-Steps :
      (r : LongHorizon) (request : Value) → Moves NewSteps (register_periodic host r request)
  unfolding register_periodic
  register_periodic-Steps r request =
      search (steps_rules, resolve-Steps, start_of-Steps, upsert_schedule-Steps) depth 16

  register_goal-Steps : (r : LongHorizon) → Moves NewSteps (register_goal host r)
  unfolding register_goal
  register_goal-Steps r =
      search (steps_rules, resolve-Steps, delayed-Steps, upsert_schedule-Steps) depth 16

  register_new-Steps :
      (id mode : String) (request : Value) (records : Dict LongHorizon)
      → Moves NewSteps (register_new host id mode request records)
  unfolding register_new
  register_new-Steps id mode request records =
      search
        (steps_rules, described-Steps, register_periodic-Steps, register_goal-Steps, sync-Steps)
        depth 16

  register_long_horizon-Steps :
      (request : Value) → Moves NewSteps (register_long_horizon host request)
  unfolding register_long_horizon
  register_long_horizon-Steps request = search (steps_rules, register_new-Steps) depth 18

module _ {D : Type 0} (host : Host D) where
  mutate_operation-Steps :
      AllowsCalls (Steps host (IsNew host.parse_date)) host
      → (operation : String) (request : Value)
      → Moves (Steps host (IsNew host.parse_date)) (mutate_operation host operation request)
  unfolding mutate_operation mutate_new
  mutate_operation-Steps calls operation request =
      search
        (
          steps_rules,
          answer-Steps host (IsNew host.parse_date) calls,
          set_operator-Steps,
          bind_session-Steps,
          unbind_session-Steps,
          add_schedule-Steps,
          upsert_schedule-Steps,
          add_wait-Steps,
          register_long_horizon-Steps,
          mutate_subagent-Steps,
          calls,
        )
        depth 20

  pub mutate-Steps :
      AllowsCalls (Steps host (IsNew host.parse_date)) host
      → (request : Value) → Moves (Steps host (IsNew host.parse_date)) (mutate host request)
  unfolding mutate
  mutate-Steps calls request = search (steps_rules, mutate_operation-Steps calls) depth 16
