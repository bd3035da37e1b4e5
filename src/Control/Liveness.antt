-- ===== src/Control/Liveness.antt =====
-- src/control.js: `reconcileLongHorizon`, `stopLongHorizon` and `removeLongHorizon`.
use codex_hooks.Base.{
  ℕ, String, Bool, Option, some, none, List, [], ◌∷◌, ◌==◌, ◌&&◌, not, concat, require, fault,
  if◌then◌else◌, false, or_else,
}
use codex_hooks.Base.Exec.{Exec, pure, raise, lift, on_option, ◌>>=◌, ◌>>◌}
use codex_hooks.Base.Dict.{Dict, lookup, put}
use codex_hooks.Protocol.Value.{Value, get, str, undefined, is_text, decimal}
use codex_hooks.Protocol.Normalize.{assert_non_empty}
use codex_hooks.Timer.Schedule.{Schedule, or_text, is_timer_terminal_schedule}
use codex_hooks.Control.Store.{
  LongHorizon, ControlState, Host, schedules_of, horizons_of, put_horizons, read_clock,
}
use codex_hooks.Control.Operators.{resolve_session_target, sync_operator_state, is_on}
use codex_hooks.Control.Add.{upsert_schedule}
use codex_hooks.Control.Schedules.{is_terminal, is_stoppable, stop_schedule}
use codex_hooks.Control.LongHorizon.{
  liveness_delay_ms, liveness_body, horizon_request, schedule_request, delayed,
}

-- An element of what `reconcileLongHorizon` returns.
pub record Reconciled : Type 0 where
  pub id : String
  pub schedule_id : String
  pub at : String

-- What the loop makes of an entry: the record that it keeps, and what it reports.
pub record Kept : Type 0 where
  pub horizon : LongHorizon
  pub report : Option Reconciled

-- `record?.mode === "goal" && record.enabled === true && record.state === "active"`
unfoldable pub is_active_goal : LongHorizon → Bool
is_active_goal r = r.mode == "goal" && r.enabled && r.state == "active"

-- The test on the schedule that a goal has.
unfoldable pub is_live : Schedule → Bool
is_live s =
    is_on s
    && not (is_timer_terminal_schedule s)
    && s.mode == "interval"
    && is_text s.source "longhorizon"

abbrev pub base_id : String → String
base_id id = concat ("longhorizon-liveness:" ∷ id ∷ [])

-- `${Date.parse(text)}`
abbrev pub millis_text : Option ℕ → String
millis_text none = "NaN"
millis_text (some ms) = decimal ms

-- The record and the report for the schedule that serves it.
unfoldable pub served_by : String → String → String → LongHorizon → Kept
served_by id schedule_id at r = record {
  horizon = record r {
    liveness_schedule_id = schedule_id;
    liveness_check_due_at = at;
    liveness_state = "scheduled";
  };
  report = some (record { id = id; schedule_id = schedule_id; at = at });
}

abbrev pub on_report : Option Reconciled → List Reconciled → List Reconciled
on_report none more = more
on_report (some r) more = r ∷ more

abbrev pub stopped_at : String → LongHorizon → LongHorizon
stopped_at at r = record r {
  enabled = false;
  state = "stopped";
  stamps = ("stopped_at", at) ∷ r.stamps;
}

-- `{ ...undefined }`, as a record
abbrev pub missing_horizon : LongHorizon
missing_horizon = record {
  id = "";
  mode = "";
  enabled = false;
  state = "";
  activated_at = "";
  goal_file = "";
  prompt = "";
  session = "";
  interval_ms = none;
  owner_session_id = "";
  review_budget = none;
  review_count = none;
  target = none;
  schedule_id = "";
  schedule_state = "";
  liveness_schedule_id = "";
  liveness_check_due_at = "";
  liveness_state = "";
  stamps = [];
  review = undefined;
}

abbrev pub removed_at : String → LongHorizon → LongHorizon
removed_at at r = record r { state = "removed"; stamps = ("removed_at", at) ∷ r.stamps }

module _ {D : Type 0} (host : Host D) where
  -- A new schedule for an active goal.
  unfoldable pub renew : String → String → LongHorizon → Exec (ControlState D) Kept
  renew id schedule_id r = do
    target ← resolve_session_target (str r.session)
    now ← read_clock host.now
    at ← delayed host now
    s ← upsert_schedule host (
        horizon_request schedule_id (str at) liveness_delay_ms (liveness_body r.goal_file) target
          (or_text r.owner_session_id target.thread_id))
    pure (
        served_by id s.id s.at (record r {
          target = some target;
          owner_session_id = or_text r.owner_session_id target.thread_id;
        }))

  unfoldable pub renew_generation : String → LongHorizon → Exec (ControlState D) Kept
  renew_generation id r = do
    now ← read_clock host.now
    renew id (concat (base_id id ∷ ":generation:" ∷ millis_text (host.parse_date now) ∷ [])) r

  unfoldable pub reconcile_goal : Dict Schedule → String → LongHorizon → Exec (ControlState D) Kept
  reconcile_goal schedules id r =
      let existing_id = or_text r.liveness_schedule_id (base_id id) in
      on_option (lookup existing_id schedules) (renew id existing_id r) (λ s.
        if is_live s
        then pure (served_by id existing_id (or_text s.next_at s.at) r)
        else renew_generation id r)

  -- The body of the loop.
  unfoldable pub reconcile_one : Dict Schedule → String → LongHorizon → Exec (ControlState D) Kept
  reconcile_one schedules id r =
      if is_active_goal r
      then (do
        lift (
            require (not (r.goal_file == "") && not (r.session == "")) (
              fault
                (concat ("active longhorizon goal is missing goal_file or session: " ∷ id ∷ []))))
        reconcile_goal schedules id r)
      else pure (record { horizon = r; report = none })

  -- The loop: the records in their order, each in its place, and the reports.
  unfoldable pub reconcile_all :
      Dict Schedule → Dict LongHorizon → Exec (ControlState D) (Dict LongHorizon × List Reconciled)
  reconcile_all schedules [] = pure ([], [])
  reconcile_all schedules ((id, r) ∷ more) = do
    kept ← reconcile_one schedules id r
    rest ← reconcile_all schedules more
    pure ((id, kept.horizon) ∷ rest.0, on_report kept.report rest.1)

  -- `if (reconciled.length > 0) { … }`
  unfoldable pub store_reconciled :
      Dict LongHorizon → List Reconciled → Exec (ControlState D) (List Reconciled)
  store_reconciled records [] = pure []
  store_reconciled records (r ∷ more) = do
    put_horizons records
    sync_operator_state records
    pure (r ∷ more)

  unfoldable pub reconcile_long_horizon : Exec (ControlState D) (List Reconciled)
  reconcile_long_horizon = do
    records ← horizons_of
    schedules ← schedules_of
    done ← reconcile_all schedules records
    store_reconciled done.0 done.1

  -- A schedule that is there and passes the test is stopped.
  unfoldable pub stop_if : (Schedule → Bool) → String → Exec (ControlState D) Unit
  stop_if test id = do
    schedules ← schedules_of
    on_option (lookup id schedules) (pure tt) (λ s.
        if test s
        then (do stop_schedule host (schedule_request "schedule.stop" id []); pure tt)
        else pure tt)

  unfoldable pub stop_periodic : LongHorizon → Exec (ControlState D) Unit
  stop_periodic r =
      if r.mode == "periodic" && not (r.schedule_id == "")
      then stop_if (λ s. not (is_terminal s)) r.schedule_id
      else pure tt

  unfoldable pub stop_goal :
      String → LongHorizon → Dict LongHorizon → Exec (ControlState D) LongHorizon
  stop_goal id r records =
      if r.mode == "goal" && not (r.liveness_schedule_id == "")
      then (do
        stop_if is_stoppable r.liveness_schedule_id
        put_horizons (put id (record r { liveness_state = "stopped" }) records)
        pure (record r { liveness_state = "stopped" }))
      else pure r

  unfoldable pub stop_record :
      String → LongHorizon → Dict LongHorizon → Exec (ControlState D) LongHorizon
  stop_record id r records = do
    at ← read_clock host.date_now
    put_horizons (put id (stopped_at at r) records)
    stop_periodic (stopped_at at r)
    final ← stop_goal id (stopped_at at r) records
    sync_operator_state (put id final records)
    pure final

  unfoldable pub stop_long_horizon : Value → Exec (ControlState D) LongHorizon
  stop_long_horizon request = do
    id ← lift (assert_non_empty (get request "id") "id")
    records ← horizons_of
    on_option (lookup id records) (raise (fault (concat ("longhorizon not found: " ∷ id ∷ []))))
        (λ r. stop_record id r records)

  unfoldable pub remove_long_horizon : Value → Exec (ControlState D) LongHorizon
  remove_long_horizon request = do
    stopped ← stop_long_horizon request
    records ← horizons_of
    at ← read_clock host.date_now
    put_horizons (
        put stopped.id (removed_at at (or_else (lookup stopped.id records) missing_horizon))
          records)
    pure (removed_at at (or_else (lookup stopped.id records) missing_horizon))
