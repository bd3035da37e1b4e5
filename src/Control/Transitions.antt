-- ===== src/Control/Transitions.antt =====
-- Each operation on one schedule goes by the steps of the relation.
use codex_hooks.Base.{throws, Outcome, String, false, not, ◌≡◌, refl, some, ok, sym, subst, arith}
use codex_hooks.Base.Exec.{Exec, lift, ◌>>=◌}
use codex_hooks.Base.Exec.Moves.{IsPreorder, Moves, Moves-bind, Moves-lift, moves_rules}
use codex_hooks.Base.Dict.{Dict, lookup}
use codex_hooks.Protocol.Value.{Value}
use codex_hooks.Timer.Schedule.{Schedule}
use codex_hooks.Control.Store.{ControlState, Host, schedules_of, bindings_of, read_clock}
use codex_hooks.Control.Operators.{bound_target, resolve_session_target}
use codex_hooks.Control.Schedules.{
  require_schedule, is_terminal, is_stoppable, pause_schedule, resume_schedule, remove_schedule,
  stop_schedule, replace_schedule, require_live,
}
use codex_hooks.Control.Update.{update_schedule, aim_of}
use codex_hooks.Control.Calls.{
  stored, SameControls, SameControls-IsPreorder, OnSchedules, From, From-bind, From-require,
  From-found, From-replace, Moves-From,
}
use codex_hooks.Control.Steps.{ScheduleStep, Changes, Changes-IsPreorder, put-Changes}

module _ {D : Type 0} where
  pub read_clock-Same : (clock : D → String × D) → Moves SameControls (read_clock clock)
  unfolding read_clock
  read_clock-Same clock = record { at = λ t. refl }

  pub bindings_of-Same : Moves SameControls (bindings_of {D = D})
  unfolding bindings_of
  bindings_of-Same = record { at = λ t. refl }

  ruleset same_rules = (moves_rules, SameControls-IsPreorder, read_clock-Same, bindings_of-Same)

  pub resolve_session_target-Same :
      (alias : Value) → Moves SameControls (resolve_session_target {D = D} alias)
  unfolding resolve_session_target bound_target
  resolve_session_target-Same alias = search same_rules

  pub aim_of-Same :
      (host : Host D) (request : Value) (s : Schedule) → Moves SameControls (aim_of host request s)
  unfolding aim_of
  aim_of-Same host request s = search (same_rules, resolve_session_target-Same)

module _ {D : Type 0} (host : Host D) (Fresh : Schedule → Type 0) where
  abbrev Steps : Dict Schedule → Dict Schedule → Type 0
  Steps = Changes host.parse_date Fresh

  stays : (d : Dict Schedule) → Steps d d
  stays = Changes-IsPreorder.reflexive

  -- A schedule that was found is replaced by a step.
  replace-Steps :
      (d : Dict Schedule) (id : String) (s s' : Schedule)
      → lookup id d ≡ some s
      → ScheduleStep host.parse_date Fresh (some s) (some s')
      → From {D = D} Steps d (replace_schedule id s' d)
  replace-Steps d id s s' e step = From-replace stays d id s' (
      put-Changes d id s'
        (subst (λ o. ScheduleStep host.parse_date Fresh o (some s')) (sym e) step))

  -- What follows the check that the schedule is not terminal.
  live-Steps :
      {B : Type 0} (d : Dict Schedule) (id : String) (s : Schedule)
      (f : Unit → Exec (ControlState D) B)
      → (is_terminal s ≡ false → From Steps d (f tt))
      → From Steps d (require_live id s >>= f)
  unfolding require_live
  live-Steps d id s f kf = From-require stays d (not (is_terminal s)) _ f (λ e. kf (ground arith))

  pub OnSchedules-IsPreorder : IsPreorder (OnSchedules {D = D} Steps)
  OnSchedules-IsPreorder = record {
    reflexive = λ t. stays (stored t);
    transitive = λ s t u p q. Changes-IsPreorder.transitive (stored s) (stored t) (stored u) p q;
  }

  -- A request for one schedule: its id, the stored schedules, the schedule, and what is done with it.
  found-Steps :
      {B : Type 0} (r : Outcome String)
      (f : String → Dict Schedule → Schedule → Exec (ControlState D) B)
      → ((id : String) (d : Dict Schedule) (s : Schedule)
          → lookup id d ≡ some s
          → From Steps d (f id d s))
      → Moves
          (OnSchedules Steps)
          (lift r >>= λ id. schedules_of >>= λ d. require_schedule d id >>= f id d)
  found-Steps r f kf =
      Moves-bind OnSchedules-IsPreorder (lift r) _ (Moves-lift OnSchedules-IsPreorder r)
        (λ id. Moves-From stays _ (λ d. From-found stays d id (f id d) (kf id d)))

  pub pause_schedule-Steps :
      (request : Value) → Moves (OnSchedules Steps) (pause_schedule {D = D} request)
  unfolding pause_schedule
  pause_schedule-Steps request = found-Steps _ _ (λ id d s e.
      live-Steps d id s _ (λ live. replace-Steps d id s _ e (ScheduleStep.pauses s live)))

  pub resume_schedule-Steps :
      (request : Value) → Moves (OnSchedules Steps) (resume_schedule {D = D} request)
  unfolding resume_schedule
  resume_schedule-Steps request = found-Steps _ _ (λ id d s e.
      live-Steps d id s _ (λ live. replace-Steps d id s _ e (ScheduleStep.resumes s live)))

  pub remove_schedule-Steps :
      (request : Value) → Moves (OnSchedules Steps) (remove_schedule host request)
  unfolding remove_schedule
  remove_schedule-Steps request = found-Steps _ _ (λ id d s e.
      From-bind stays d (read_clock host.date_now) _ (read_clock-Same host.date_now)
        (λ at. replace-Steps d id s _ e (ScheduleStep.cancels s at)))

  pub stop_schedule-Steps :
      (request : Value) → Moves (OnSchedules Steps) (stop_schedule host request)
  unfolding stop_schedule
  stop_schedule-Steps request = found-Steps _ _ (λ id d s e.
      From-require stays d (is_stoppable s) _ _ (λ stoppable.
        From-bind stays d (read_clock host.date_now) _ (read_clock-Same host.date_now)
          (λ at. replace-Steps d id s _ e (ScheduleStep.stops s at stoppable))))

  -- What follows a call that returned, with the equation.
  From-lift :
      {A B : Type 0} (d : Dict Schedule) (r : Outcome A) (f : A → Exec (ControlState D) B)
      → ((a : A) → r ≡ ok a → From Steps d (f a))
      → From Steps d (lift r >>= f)
  unfolding ◌>>=◌
  From-lift d (ok a) f kf = kf a refl
  From-lift d (throws x) f kf = record { at = λ t e. subst (Steps d) (sym e) (stays d) }

  pub update_schedule-Steps :
      (request : Value) → Moves (OnSchedules Steps) (update_schedule host request)
  unfolding update_schedule
  update_schedule-Steps request = found-Steps _ _ (λ id d s e. live-Steps d id s _ (λ live.
      From-bind stays d (aim_of host request s) _ (aim_of-Same host request s) (λ aim.
        From-lift d _ _ (λ p patched.
          replace-Steps d id s _ e
            (ScheduleStep.updates s aim.action aim.target request p live patched)))))
