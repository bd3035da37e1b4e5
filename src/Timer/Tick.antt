-- ===== src/Timer/Tick.antt =====
-- src/timer.js: `tick`.
use codex_hooks.Base.{
  String, Option, none, some, List, [], ◌∷◌, ◌==◌, ◌&&◌, ◌||◌, if◌then◌else◌, Fault, coded, or_else,
  Outcome, ok, throws, member,
}
use codex_hooks.Base.Exec.{Exec, pure, raise, lift, attempt, on_option, ◌>>=◌, ◌>>◌}
use codex_hooks.Base.Dict.{values}
use codex_hooks.Protocol.Value.{Value, get, str, null, is_text, or_value}
use codex_hooks.Protocol.Normalize.{Target, normalize_target}
use codex_hooks.Daemon.Record.{object}
use codex_hooks.Timer.Schedule.{
  unless_null, Schedule, Occurrence, patch_to, or_text, is_disabled, is_timer_terminal_schedule,
  is_session_missing, stamped,
}
use codex_hooks.Timer.World.{Shared, Operator, TimerState, call, clock_now, update_schedule}
use codex_hooks.Timer.Occurrence.{claim_occurrence, finish_occurrence}
use codex_hooks.Timer.Requests.{
  failed_state, skipped_delivery, or_status, sort_by_id, failure_of, state_after, find_in,
}
use codex_hooks.Timer.Actions.{Acted, done, broken, act}

-- An entry of what `tick` returns.
pub record TickResult : Type 0 where
  pub schedule_id : String
  pub occurrence_id : String
  pub action : String
  pub at : String
  pub result : Outcome Value

-- An element of `results`.
abbrev entry : Schedule → String → Occurrence → Outcome Value → TickResult
entry s action o r = record {
  schedule_id = s.id;
  occurrence_id = o.occurrence_id;
  action = action;
  at = o.at;
  result = r;
}

abbrev on_result : Option TickResult → List TickResult → List TickResult
on_result none more = more
on_result (some r) more = r ∷ more

module _ {D : Type 0} (op : Operator D) where
  -- The end of the `try` block, for the result of the action.
  unfoldable pub conclude_pending : Schedule → Occurrence → Acted → Exec (TimerState D) Acted
  conclude_pending s o (done result) = do
    finish_occurrence op s o (record (patch_to (state_after result)) {
      last_decision = get result "decision";
      last_delivery = or_value (get result "delivery") null;
      failure = unless_null (get result "error") Value.undefined;
    })
    pure (done result)
  conclude_pending s o (broken e receipt) = pure (broken e receipt)

  unfoldable pub send_pending : Schedule → String → Occurrence → Exec (TimerState D) Acted
  send_pending s action o = do
    at ← clock_now op
    update_schedule s (λ x. stamped "send_pending_at" at (record x { state = "send_pending" }))
    acted ← act op s action o
    conclude_pending s o acted

  -- What `busy_policy: "skip"` does with the session's status.
  unfoldable pub skip_if_working :
      Schedule → String → Occurrence → Value → Exec (TimerState D) Acted
  skip_if_working s action o status =
      let state = or_status status in
      if is_text state "working"
      then (do
        at ← clock_now op
        finish_occurrence op s o (record (patch_to "skipped") {
          last_decision = str "skipped";
          stamps = ("skipped_at", at) ∷ [];
        })
        pure (done (object (("decision", str "skipped") ∷ ("state", state) ∷ []))))
      else send_pending s action o

  -- The `try` block of `tick`.
  unfoldable pub act_on_occurrence : Schedule → String → Occurrence → Exec (TimerState D) Acted
  act_on_occurrence s action o =
      if s.busy_policy == "skip"
      then (do
        target ← lift (normalize_target s.target)
        on_option op.session_status
            (raise (
              coded "session_status_capability_missing"
                "busy_policy=skip requires a session status function"))
            (λ session_status. do
              status ← call (session_status target)
              skip_if_working s action o status))
      else send_pending s action o

  -- The `catch` block of `tick`.
  unfoldable pub finish_broken :
      Schedule → Occurrence → Fault → Option Value → Exec (TimerState D) Unit
  finish_broken s o e receipt =
      finish_occurrence op s o
        (record (patch_to (if is_session_missing e.code then "session_missing" else "failed")) {
          failure = failure_of e;
          last_delivery = or_else receipt Value.undefined;
        })

  -- What `tick` records of an action: the result, or the fault, whose occurrence is finished here.
  unfoldable pub conclude_fire :
      Schedule → String → Occurrence → Acted → Exec (TimerState D) TickResult
  conclude_fire s action o (done result) = pure (entry s action o (ok result))
  conclude_fire s action o (broken e receipt) = do
    finish_broken s o e receipt
    pure (entry s action o (throws e))

  -- An occurrence that was claimed and not deferred before.
  unfoldable pub fire : Schedule → String → Occurrence → Exec (TimerState D) TickResult
  fire s action o = do
    due_at ← clock_now op
    update_schedule s (λ x.
        stamped "due_at" due_at (record x { state = "due"; current_occurrence = o.occurrence_id }))
    claimed_at ← clock_now op
    update_schedule s (λ x.
        stamped "claimed_at" claimed_at
          (record x { state = "claimed"; current_occurrence = o.occurrence_id }))
    acted ← attempt (act_on_occurrence s action o) (λ e. pure (broken e none))
    conclude_fire s action o acted

  -- What a resumed delivery makes of its occurrence.
  unfoldable pub finish_resumed : Schedule → Occurrence → Value → Exec (TimerState D) Unit
  finish_resumed s o resumed =
      on_option (find_in "sent" resumed o.occurrence_id)
        (on_option (find_in "failed" resumed o.occurrence_id)
          (on_option
            (skipped_delivery s.busy_policy (find_in "skipped" resumed o.occurrence_id)
              (find_in "deferred" resumed o.occurrence_id))
            (pure tt)
            (λ delivery. do
              at ← clock_now op
              finish_occurrence op s o (record (patch_to "skipped") {
                stamps = ("skipped_at", at) ∷ [];
                last_decision = str "skipped";
                last_delivery = delivery;
                failure = get delivery "evidence";
              })))
          (λ failed. finish_occurrence op s o (record (patch_to (failed_state failed)) {
            failure = or_value (get failed "evidence") failed;
          })))
        (λ sent. do
          at ← clock_now op
          finish_occurrence op s o (record (patch_to "sent") { stamps = ("sent_at", at) ∷ [] }))

  -- An occurrence that was deferred and may be resumed.
  unfoldable pub resume_occurrence :
      Schedule
      → String
      → Occurrence
      → (Target → Shared D → Outcome Value × Shared D)
      → Exec (TimerState D) TickResult
  resume_occurrence s action o resume = do
    target ← lift (normalize_target s.target)
    resumed ← call (resume target)
    finish_resumed s o resumed
    pure (entry s action o (ok resumed))

  unfoldable pub run_occurrence : Schedule → Occurrence → Exec (TimerState D) TickResult
  run_occurrence s o =
      let action = or_text s.action "notify" in
      if member action ("notify" ∷ "wait" ∷ []) && s.state == "deferred_while_working"
      then on_option op.resume (fire s action o) (resume_occurrence s action o)
      else fire s action o

  -- The body of the loop of `tick`.
  unfoldable pub tick_one : Schedule → Exec (TimerState D) (Option TickResult)
  tick_one s = if is_disabled s.enabled || is_timer_terminal_schedule s then pure none else (do
    claimed ← claim_occurrence op s
    on_option claimed (pure none) (λ o. do r ← run_occurrence s o; pure (some r)))

  unfoldable pub tick_all : List Schedule → Exec (TimerState D) (List TickResult)
  tick_all [] = pure []
  tick_all (s ∷ rest) = do r ← tick_one s; more ← tick_all rest; pure (on_result r more)

  unfoldable pub tick_copy : Exec (TimerState D) (List TickResult)
  tick_copy t = tick_all (sort_by_id op.text_le (values t.copy)) t

  -- `this.tick()`: the loop works on a copy of the schedules that it reads at its start.
  unfoldable pub tick : Exec (TimerState D) (List TickResult)
  tick t =
      if t.shared.timer_enabled
      then tick_copy (record t { copy = or_else t.shared.schedules [] })
      else (ok [], t)
