-- ===== src/Timer/Actions.antt =====
-- src/timer.js: `dispatchNotify` and `dispatchSubagent`, the two actions of a schedule.
use codex_hooks.Base.{String, true, Option, some, [], ◌∷◌, ◌==◌, if◌then◌else◌, Fault, coded}
use codex_hooks.Base.Exec.{Exec, pure, raise, lift, attempt, on_option, ◌>>=◌}
use codex_hooks.Protocol.Value.{Value, str, bool}
use codex_hooks.Protocol.Normalize.{TargetScope, normalize_target, normalize_target_scope}
use codex_hooks.Daemon.Record.{object}
use codex_hooks.Timer.Schedule.{Schedule, Occurrence}
use codex_hooks.Timer.World.{Operator, TimerState, call}
use codex_hooks.Timer.Requests.{registration, subagent_delivery, subagent_request, notify_intent}

-- What an action came to: a result, or a fault with the receipt of a subagent that was created.
pub data Acted : Type 0 where
  done : Value → Acted
  broken : Fault → Option Value → Acted

module _ {D : Type 0} (op : Operator D) where
  -- `this.dispatchNotify(schedule, occurrenceId)`
  unfoldable pub dispatch_notify : Schedule → String → Exec (TimerState D) Value
  dispatch_notify s occurrence_id = do
    target ← lift (normalize_target s.target)
    call (op.dispatch (notify_intent s occurrence_id target))

  -- `await this.registerSubagent(…)` and the result
  unfoldable pub register :
      Schedule → String → String → TargetScope → Value → Exec (TimerState D) Acted
  register s occurrence_id at target receipt =
      let registered = pure (
        done (
          object (
            ("decision", str "sent")
            ∷ (
              "delivery",
              subagent_delivery occurrence_id receipt
                  (("ephemeral", bool true) ∷ ("receipt", receipt) ∷ []),
            )
            ∷ []))) in
      on_option op.register_subagent registered (λ f.
        attempt (do answer ← call (f (registration s occurrence_id at target receipt)); registered)
          (λ e. pure (
            broken e (some (subagent_delivery occurrence_id receipt (("receipt", receipt) ∷ []))))))

  -- `this.dispatchSubagent(schedule, occurrenceId, at)`
  unfoldable pub dispatch_subagent : Schedule → String → String → Exec (TimerState D) Acted
  dispatch_subagent s occurrence_id at = do
    target ← lift (normalize_target_scope s.target)
    on_option op.create_subagent
        (raise (
          coded "subagent_capability_missing"
            "timer subagent action requires a codexapp create_subagent function"))
        (λ create. do
          receipt ← call (create (subagent_request s occurrence_id at target))
          register s occurrence_id at target receipt)

  -- `this.action(schedule)`: a notification, or a subagent
  unfoldable pub act : Schedule → String → Occurrence → Exec (TimerState D) Acted
  act s action o =
      if action == "subagent"
      then dispatch_subagent s o.occurrence_id o.at
      else (do result ← dispatch_notify s o.occurrence_id; pure (done result))
