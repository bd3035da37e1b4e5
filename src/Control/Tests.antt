-- ===== src/Control/Tests.antt =====
-- The control plane on concrete inputs: one session, one schedule, one goal.
use codex_hooks.Base.{
  ℕ, String, Bool, true, false, ◌≡◌, refl, Option, some, none, [], ◌∷◌, ◌==◌, if◌then◌else◌, eqb,
  if-cases,
}
use codex_hooks.Base.Exec.{◌>>=◌}
use codex_hooks.Base.Dict.{put, lookup}
use codex_hooks.Protocol.Value.{get_field, Value, str, undefined, get}
use codex_hooks.Protocol.Normalize.{
  member_of, default_member, normalize_target, optional_non_empty, Target, assert_non_empty,
}
use codex_hooks.Protocol.Names.{
  source_name, busy_policy_name, send_mode_name, find_named, schedule_mode_name, action_name,
  ScheduleAction, ScheduleMode,
}
use codex_hooks.Daemon.Record.{object}
use codex_hooks.Timer.Schedule.{Schedule}
use codex_hooks.Timer.Requests.{target_value}
use codex_hooks.Control.Store.{
  put_operators, operators_of, put_horizons, iso_of, horizons_of, read_clock, put_schedules,
  put_bindings, bindings_of, schedules_of, Binding, LongHorizon, ControlState, Host,
}
use codex_hooks.Control.Mutated.{AllowsCalls}
use codex_hooks.Control.Upsert.{
  subagent_options, optional_text, owner_of, schedule_target, assert_concurrent, positive_of,
  checked_interval, assert_wait_once, timed_schedule, optional_source, require_none, given_fields,
  assert_schedule_action_options, new_schedule,
}
use codex_hooks.Control.Mutate.{mutate}
use codex_hooks.Control.Invariant.{AllValid, mutate-AllValid}
use codex_hooks.Control.Retired.{IsOver, IsEntry, OnEntry, mutate-KeepsRetired}
use codex_hooks.Control.Operators.{
  sync_operator_state, bound_target, resolve_session_target, bind_to, is_taken, require_free,
  bind_session,
}
use codex_hooks.Control.Schedules.{is_terminal}
use codex_hooks.Control.Valid.{IsValidSchedule}
use codex_hooks.Control.Atomic.{Thrown}
use codex_hooks.Control.Final.{retired_horizon-IsFinal, IsRefused}
use codex_hooks.Control.LongHorizon.{delayed, register_long_horizon}
use codex_hooks.Control.Switch.{set_long_horizon_enabled}
use codex_hooks.Control.Calls.{stored, SameControls}
use codex_hooks.Control.Untouched.{mutate-Thrown}
use codex_hooks.Control.Liveness.{
  store_reconciled, served_by, renew, reconcile_goal, is_active_goal, reconcile_one, reconcile_all,
  reconcile_long_horizon,
}
use codex_hooks.Control.Add.{store_schedule, upsert_schedule}
use codex_hooks.Control.Bindings.{bind_session-resolve, Resolves}
use codex_hooks.Control.Reconciled.{reconcile_long_horizon-AllServed, AllServed}

abbrev times : String → Option ℕ
times text = if text == "0" then some 0 else none

abbrev host : Host Unit
host = record {
  now = λ d. ("0", d);
  date_now = λ d. ("0", d);
  attempt_name = λ d. ("attempt", d);
  parse_date = times;
  iso = λ n. if eqb n 60000 then some "0" else none;
  digest = λ text. text;
  stringify = λ v. "";
  create_subagent = none;
  session_status = none;
  interrupt_subagent = none;
}

abbrev session : Target
session = record {
  namespace = "ns";
  appserver_id = "app";
  session_id = "session";
  thread_id = "thread";
  scope_id = none;
}

abbrev plan : String → Schedule
plan state = record {
  id = "plan";
  at = "0";
  enabled = some true;
  state = state;
  mode = "once";
  next_at = "";
  interval_ms = none;
  action = "notify";
  busy_policy = "defer";
  current_occurrence = "";
  last_occurrence = "";
  last_decision = undefined;
  last_delivery = undefined;
  failure = undefined;
  stamps = [];
  target = target_value session;
  source = undefined;
  body = str "hello";
  send_mode = str "idle_only";
  expires_at = undefined;
  cwd = undefined;
  model = undefined;
  effort = undefined;
  owner_session_id = str "thread";
  ephemeral = false;
  allow_concurrent = none;
}

abbrev goal : String → LongHorizon
goal state = record {
  id = "ship";
  mode = "goal";
  enabled = true;
  state = state;
  activated_at = "0";
  goal_file = "goal.md";
  prompt = "";
  session = "main";
  interval_ms = none;
  owner_session_id = "";
  review_budget = none;
  review_count = some 0;
  target = none;
  schedule_id = "";
  schedule_state = "";
  liveness_schedule_id = "";
  liveness_check_due_at = "";
  liveness_state = "";
  stamps = [];
  review = undefined;
}

abbrev main_binding : Binding
main_binding = record { alias = "main"; target = session; bound_at = "0" }

abbrev state_with : Schedule → LongHorizon → ControlState Unit
state_with s r = record {
  controls = record {
    operators = none;
    session_bindings = some (("main", main_binding) ∷ []);
    schedules = some (("plan", s) ∷ []);
    subagents = none;
    longhorizon = some (("ship", r) ∷ []);
  };
  rest = tt;
}

abbrev request : String → String → Value
request operation id = object (("operation", str operation) ∷ ("id", str id) ∷ [])

no_calls : (R : ControlState Unit → ControlState Unit → Type 0) → AllowsCalls R host
no_calls R = record { create = tt; status = tt; interrupt = tt }

plan-IsValid : IsValidSchedule times (plan "configured")
unfolding action_name schedule_mode_name
plan-IsValid = record {
  action = ScheduleAction.notify;
  mode = ScheduleMode.once;
  has_action = refl;
  has_mode = refl;
  has_time = refl;
  waits_once = tt;
  has_interval = refl;
  is_allowed = tt;
  is_aimed = (session, refl);
}

state-AllValid : AllValid host (state_with (plan "configured") (goal "active"))
unfolding lookup
state-AllValid = record {
  at = λ id.
      if-cases (OnEntry (IsValidSchedule times)) ("plan" == id) (some (plan "configured")) none
        (λ e. plan-IsValid) (λ e. tt);
}

mutate-AllValid_example :
    AllValid host
      (mutate host
        (request "schedule.pause" "plan")
        (state_with (plan "configured") (goal "active"))).1
mutate-AllValid_example =
    mutate-AllValid host (request "schedule.pause" "plan")
      (state_with (plan "configured") (goal "active")) (no_calls _) state-AllValid

mutate-KeepsRetired_example : IsEntry IsOver (
    lookup "plan" (
      stored
        (mutate host
          (request "schedule.resume" "plan")
          (state_with (plan "stopped") (goal "active"))).1))
unfolding lookup is_terminal get get_field
mutate-KeepsRetired_example =
    mutate-KeepsRetired host "schedule.resume" (request "schedule.resume" "plan")
      (state_with (plan "stopped") (goal "active")) "plan" (no_calls _) refl refl refl

mutate-Thrown_example :
    Thrown
      (SameControls (state_with (plan "stopped") (goal "active")))
      (mutate host (request "schedule.stop" "plan") (state_with (plan "stopped") (goal "active")))
unfolding get get_field
mutate-Thrown_example =
    mutate-Thrown host "schedule.stop" (request "schedule.stop" "plan")
      (state_with (plan "stopped") (goal "active")) refl refl

abbrev bind_request : Value
bind_request = object (("alias", str "next") ∷ ("target", target_value session) ∷ [])

abbrev next_binding : Binding
next_binding = record { alias = "next"; target = session; bound_at = "0" }

abbrev both_bound : ControlState Unit
both_bound = record (state_with (plan "configured") (goal "active")) {
  controls = record (state_with (plan "configured") (goal "active")).controls {
    session_bindings = some (("main", main_binding) ∷ ("next", next_binding) ∷ []);
  };
}

bind_session-resolve_example :
    Resolves (state_with (plan "configured") (goal "active")) next_binding both_bound
unfolding bind_session require_free is_taken bind_to bindings_of put_bindings read_clock
    assert_non_empty optional_non_empty normalize_target get get_field lookup put ◌>>=◌
bind_session-resolve_example =
    bind_session-resolve host bind_request (state_with (plan "configured") (goal "active"))
      next_binding both_bound refl

retired_horizon-IsFinal_example :
    ((enabled : Bool)
      → IsRefused (state_with (plan "configured") (goal "stopped")) (
          set_long_horizon_enabled host
            (request "longhorizon.activate" "ship")
            enabled
            (state_with (plan "configured") (goal "stopped"))))
    × ((register_long_horizon host
          (request "longhorizon.activate" "ship")
          (state_with (plan "configured") (goal "stopped"))).1
        ≡ state_with (plan "configured") (goal "stopped"))
unfolding assert_non_empty get get_field lookup
retired_horizon-IsFinal_example =
    retired_horizon-IsFinal host (request "longhorizon.activate" "ship") "ship" (goal "stopped")
      (state_with (plan "configured") (goal "stopped")) refl refl refl

abbrev active : ControlState Unit
active = state_with (plan "configured") (goal "active")

reconcile_long_horizon-AllServed_example : AllServed host (reconcile_long_horizon host active).1
unfolding reconcile_long_horizon horizons_of schedules_of reconcile_all reconcile_one is_active_goal
    reconcile_goal renew resolve_session_target bound_target bindings_of read_clock delayed iso_of
    upsert_schedule new_schedule assert_schedule_action_options given_fields require_none
    default_member member_of find_named action_name schedule_mode_name send_mode_name
    busy_policy_name source_name optional_source timed_schedule assert_wait_once checked_interval
    positive_of assert_concurrent schedule_target owner_of optional_text subagent_options
    store_schedule put_schedules served_by store_reconciled put_horizons sync_operator_state
    operators_of put_operators normalize_target optional_non_empty assert_non_empty get get_field
    lookup ◌>>=◌
reconcile_long_horizon-AllServed_example =
    reconcile_long_horizon-AllServed host active (reconcile_long_horizon host active).1 _ refl
