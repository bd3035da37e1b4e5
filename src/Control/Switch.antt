-- ===== src/Control/Switch.antt =====
-- src/control.js: `setLongHorizonEnabled`.
use codex_hooks.Base.{
  String, Bool, [], ◌∷◌, ◌==◌, ◌&&◌, not, concat, require, fault, if◌then◌else◌, true, false,
  Outcome, ok, throws,
}
use codex_hooks.Base.Exec.{Exec, pure, raise, lift, on_option, ◌>>=◌, ◌>>◌}
use codex_hooks.Base.Dict.{Dict, lookup, put}
use codex_hooks.Protocol.Value.{Value, get, str}
use codex_hooks.Protocol.Normalize.{assert_non_empty}
use codex_hooks.Timer.Schedule.{Schedule}
use codex_hooks.Control.Store.{
  LongHorizon, ControlState, Host, schedules_of, horizons_of, put_horizons, read_clock,
}
use codex_hooks.Control.Operators.{sync_operator_state}
use codex_hooks.Control.Schedules.{is_terminal, pause_schedule, resume_schedule}
use codex_hooks.Control.Update.{update_schedule}
use codex_hooks.Control.LongHorizon.{delayed, schedule_request}

-- The record that an activation or a pause leaves.
unfoldable pub switched : Bool → String → LongHorizon → LongHorizon
switched true at r = record r { enabled = true; state = "active"; activated_at = at }
switched false at r = record r {
  enabled = false;
  state = "paused";
  stamps = ("paused_at", at) ∷ r.stamps;
}

-- The refusals of `setLongHorizonEnabled`.
unfoldable pub assert_not_retired : String → LongHorizon → Outcome (Unit {0})
assert_not_retired id r =
    if r.state == "removed"
    then throws (
        fault
          (concat ("longhorizon is removed: " ∷ id ∷ "; register it again before activation" ∷ [])))
    else if r.state == "stopped"
    then throws (
        fault
          (concat ("longhorizon is stopped: " ∷ id ∷ "; register it again before activation" ∷ [])))
    else ok tt

module _ {D : Type 0} where
  -- `if (enabled && record.mode === "periodic" && record.schedule_id) { … }`
  unfoldable pub assert_can_activate : Bool → LongHorizon → Exec (ControlState D) Unit
  assert_can_activate enabled r =
      if enabled && r.mode == "periodic" && not (r.schedule_id == "")
      then (do
        schedules ← schedules_of
        on_option (lookup r.schedule_id schedules)
            (raise (fault (concat ("longhorizon schedule not found: " ∷ r.schedule_id ∷ []))))
            (λ s. lift (
              require (not (is_terminal s)) (
                fault (
                  concat (
                    "longhorizon schedule is terminal: " ∷ r.schedule_id
                    ∷ "; register it again before activation" ∷ []))))))
      else pure tt

  -- `this.mutate({ operation: enabled ? "schedule.resume" : "schedule.pause", id })`
  unfoldable pub switch_schedule : Bool → String → Exec (ControlState D) Schedule
  switch_schedule true id = resume_schedule (schedule_request "schedule.resume" id [])
  switch_schedule false id = pause_schedule (schedule_request "schedule.pause" id [])

  -- A periodic record's schedule follows the record.
  unfoldable pub switch_periodic :
      Bool → String → LongHorizon → Dict LongHorizon → Exec (ControlState D) LongHorizon
  switch_periodic enabled id r records =
      if r.mode == "periodic" && not (r.schedule_id == "")
      then (do
        switch_schedule enabled r.schedule_id
        put_horizons (
            put id (record r { schedule_state = if enabled then "enabled" else "disabled" })
              records)
        pure (record r { schedule_state = if enabled then "enabled" else "disabled" }))
      else pure r

module _ {D : Type 0} (host : Host D) where
  -- `if (enabled) this.mutate({ operation: "schedule.update", id, at })`
  unfoldable pub move_liveness : Bool → String → String → Exec (ControlState D) Unit
  move_liveness false id at = pure tt
  move_liveness true id at = do
    due ← delayed host at
    update_schedule host (schedule_request "schedule.update" id (("at", str due) ∷ []))
    pure tt

  unfoldable pub switch_live :
      Bool → String → String → LongHorizon → Dict LongHorizon → Exec (ControlState D) LongHorizon
  switch_live enabled id at r records = do
    switch_schedule enabled r.liveness_schedule_id
    move_liveness enabled r.liveness_schedule_id at
    due ← delayed host at
    put_horizons (
        put id
          (record r {
            liveness_check_due_at = due;
            liveness_state = if enabled then "scheduled" else "paused";
          })
          records)
    pure (record r {
      liveness_check_due_at = due;
      liveness_state = if enabled then "scheduled" else "paused";
    })

  -- A goal's liveness schedule follows the record, unless it is gone or terminal.
  unfoldable pub switch_goal :
      Bool → String → String → LongHorizon → Dict LongHorizon → Exec (ControlState D) LongHorizon
  switch_goal enabled id at r records =
      if r.mode == "goal" && not (r.liveness_schedule_id == "")
      then (do
        schedules ← schedules_of
        on_option (lookup r.liveness_schedule_id schedules) (pure r)
            (λ s. if is_terminal s then pure r else switch_live enabled id at r records))
      else pure r

  unfoldable pub switch_record :
      String → Bool → LongHorizon → Dict LongHorizon → Exec (ControlState D) LongHorizon
  switch_record id enabled r records = do
    lift (assert_not_retired id r)
    assert_can_activate enabled r
    at ← read_clock host.now
    put_horizons (put id (switched enabled at r) records)
    periodic ← switch_periodic enabled id (switched enabled at r) records
    final ← switch_goal enabled id at periodic records
    sync_operator_state (put id final records)
    pure final

  unfoldable pub set_long_horizon_enabled : Value → Bool → Exec (ControlState D) LongHorizon
  set_long_horizon_enabled request enabled = do
    id ← lift (assert_non_empty (get request "id") "id")
    records ← horizons_of
    on_option (lookup id records) (raise (fault (concat ("longhorizon not found: " ∷ id ∷ []))))
        (λ r. switch_record id enabled r records)
