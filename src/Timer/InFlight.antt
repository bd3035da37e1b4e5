-- ===== src/Timer/InFlight.antt =====
-- What `tick` leaves behind of an occurrence it acted on: its schedule is never left in a state
-- that only stands for work under way.
use codex_hooks.Base.{
  ◌&&◌, member-All, String, Bool, true, false, ◌≡◌, refl, Option, none, some, [], ◌∷◌, inl, inr,
  Bool-cases, Option-cases, ok, throws, ◌==◌, or_else, Outcome, Fault, member, if◌then◌else◌,
}
use codex_hooks.Base.Exec.{Exec, pure, ◌>>=◌}
use codex_hooks.Base.Exec.Ends.{
  Ends-attempt, Ends-raise, Ends-option, Ends-if, Ends-bind, Ends, Ends-pure, Ends-bind_from,
  Returned,
}
use codex_hooks.Base.Dict.{Dict, lookup, lookup-put, lookup-put_self}
use codex_hooks.Protocol.Value.{text?, is_text, get, Value}
use codex_hooks.Timer.Schedule.{
  ends_occurrence, is_once, apply_patch, Schedule, Patch, Occurrence, is_withdrawn,
  is_session_missing,
}
use codex_hooks.Timer.World.{update_schedule, update_latest, Operator, TimerState, timer_primitives}
use codex_hooks.Timer.Occurrence.{
  keep_withdrawn, marked, closed, finish_occurrence, finish_latest, finish_withdrawn,
  finish_current, finish_interval, finish_once,
}
use codex_hooks.Timer.Requests.{state_after}
use codex_hooks.Timer.Actions.{Acted, done, broken}
use codex_hooks.Timer.Tick.{
  conclude_pending, conclude_fire, TickResult, send_pending, skip_if_working, act_on_occurrence,
  finish_broken, fire,
}
use codex_hooks.Timer.Finish.{stored}

-- The states between a claim and its end.
abbrev pub is_in_flight : String → Bool
is_in_flight state = member state ("due" ∷ "claimed" ∷ "send_pending" ∷ [])

-- The store keeps the schedule, in a state that is not between a claim and its end.
pub record IsFinished {D : Type 0} (id : String) (t : TimerState D) : Type 0 where
  pub kept : Schedule
  pub found : stored id t ≡ some kept
  pub is_over : is_in_flight kept.state ≡ false

withdrawn-over : (s : Schedule) → is_withdrawn s ≡ true → is_in_flight s.state ≡ false
withdrawn-over s e =
    member-All (λ (x : String). is_in_flight x ≡ false) s.state
      ("cancelled" ∷ "stopped" ∷ "disabled" ∷ []) (refl, (refl, (refl, tt))) e

module _ {D : Type 0} where
  update_schedule-IsFinished :
      (s : Schedule) (patch : Schedule → Schedule)
      → is_in_flight (patch s).state ≡ false
      → Ends (λ u (t : TimerState D). IsFinished s.id t) (update_schedule s patch)
  unfolding timer_primitives
  update_schedule-IsFinished s patch over = record {
    at = λ t. record {
      kept = patch s;
      found = lookup-put_self s.id (patch s) t.copy;
      is_over = over;
    };
  }

  update_latest-IsFinished :
      (all : Dict Schedule) (id : String) (latest : Schedule) (patch : Schedule → Schedule)
      → lookup id all ≡ some latest
      → is_in_flight latest.state ≡ false
      → (patch latest).state ≡ latest.state
      → Ends (λ u (t : TimerState D). IsFinished id t) (update_latest all latest patch)
  unfolding timer_primitives
  update_latest-IsFinished all id latest patch found over same = record {
    at = λ t. elim (Bool-cases (latest.id == id)) [
      | inl e ↦ record {
        kept = patch latest;
        found = rw (lookup-put latest.id id (patch latest) all, e) refl;
        is_over = rw same over;
      }
      | inr e ↦ record {
        kept = latest;
        found = rw (lookup-put latest.id id (patch latest) all, e) found;
        is_over = over;
      }
    ];
  }

module _ {D : Type 0} (op : Operator D) (s : Schedule) (o : Occurrence) where
  abbrev Finished : {A : Type 0} → A → TimerState D → Type 0
  Finished a t = IsFinished s.id t

  module _ (p : Patch) (over : is_in_flight p.state ≡ false) where
    finish_interval-IsFinished : Ends Finished (finish_interval op s o p)
    unfolding finish_interval
    finish_interval-IsFinished = Ends-bind _ _ (λ now.
        Ends-if _ _ _ (update_schedule-IsFinished s _ over)
          (Ends-bind _ _ (λ at. update_schedule-IsFinished s _ refl)))

    finish_once-IsFinished : Ends Finished (finish_once op s o p)
    unfolding finish_once
    finish_once-IsFinished =
        Ends-if _ _ _
          (Ends-bind _ _ (λ now.
            update_schedule-IsFinished s _ (closed_over (is_once s && ends_occurrence p.state))))
          (update_schedule-IsFinished s _ (closed_over (is_once s && ends_occurrence p.state)))
      where
        closed_state : (b : Bool) (x : Schedule) → (closed b x).state ≡ x.state
        closed_state true x = refl
        closed_state false x = refl

        closed_over :
            (b : Bool) → is_in_flight (closed b (marked o (apply_patch p s))).state ≡ false
        closed_over b = rw (closed_state b (marked o (apply_patch p s))) over

    finish_current-IsFinished : Ends Finished (finish_current op s o p)
    unfolding finish_current
    finish_current-IsFinished = Ends-if _ _ _ finish_interval-IsFinished finish_once-IsFinished

    finish_latest-IsFinished : (all : Dict Schedule) → Ends Finished (finish_latest op all s o p)
    unfolding finish_latest finish_withdrawn timer_primitives
    finish_latest-IsFinished all = elim (Option-cases (lookup s.id all)) [
      | inl e ↦ rw e finish_current-IsFinished
      | inr (latest, e) ↦ rw e (elim (Bool-cases (is_withdrawn latest)) [
        | inl w ↦ rw w (
            update_latest-IsFinished all s.id latest (keep_withdrawn o p) e
              (withdrawn-over latest w) refl)
        | inr w ↦ rw w finish_current-IsFinished
      ])
    ]

    finish_occurrence-IsFinished : Ends Finished (finish_occurrence op s o p)
    unfolding finish_occurrence timer_primitives
    finish_occurrence-IsFinished = record {
      at = λ t. (finish_latest-IsFinished (or_else t.shared.schedules t.copy)).at t;
    }

over-if :
    (b : Bool) (x y : String)
    → is_in_flight x ≡ false
    → is_in_flight y ≡ false
    → is_in_flight (if b then x else y) ≡ false
over-if true x y ex ey = ex
over-if false x y ex ey = ey

state_after-over : (result : Value) → is_in_flight (state_after result) ≡ false
unfolding state_after
state_after-over result = over-if (is_text decision "sent") "sent" _ refl (
    over-if (is_text decision "deferred") "deferred_while_working" _ refl (
      over-if (is_text decision "unknown_delivery") "unknown_delivery" _ refl (
        over-if (is_session_missing (text? (get (get result "error") "code"))) "session_missing"
          "failed" refl refl)))
  where
    decision : Value
    decision = get result "decision"

returned-eq :
    {S A : Type 0} (Q : S → Type 0) (x : Outcome A × S) (a : A)
    → x.0 ≡ ok a
    → Returned (λ b. Q) x
    → Q x.1
returned-eq Q (ok b, t) a e h = h
returned-eq Q (throws f, t) a e h = cc

module _ {D : Type 0} (op : Operator D) (s : Schedule) (action : String) (o : Occurrence) where
  -- A result that was acted on has finished the occurrence; a fault has not yet.
  abbrev Handled : Acted → TimerState D → Type 0
  Handled (done result) t = IsFinished s.id t
  Handled (broken e receipt) t = Unit

  abbrev Over : TickResult → TimerState D → Type 0
  Over r t = IsFinished s.id t

  broken-Handled : (e : Fault) (receipt : Option Value) → Ends Handled (pure (broken e receipt))
  broken-Handled e receipt = Ends-pure _ (λ t. tt)

  done-Handled :
      (m : Exec (TimerState D) Unit) (result : Value)
      → Ends (Finished op s o) m
      → Ends Handled (m >>= λ u. pure (done result))
  unfolding timer_primitives
  done-Handled m result h = Ends-bind_from _ m _ h (λ u t finished. finished)

  conclude_pending-Handled : (acted : Acted) → Ends Handled (conclude_pending op s o acted)
  unfolding conclude_pending
  conclude_pending-Handled (done result) =
      done-Handled _ result (finish_occurrence-IsFinished op s o _ (state_after-over result))
  conclude_pending-Handled (broken e receipt) = broken-Handled e receipt

  send_pending-Handled : Ends Handled (send_pending op s action o)
  unfolding send_pending
  send_pending-Handled =
      Ends-bind _ _ (λ at. Ends-bind _ _ (λ u. Ends-bind _ _ conclude_pending-Handled))

  skip_if_working-Handled : (status : Value) → Ends Handled (skip_if_working op s action o status)
  unfolding skip_if_working
  skip_if_working-Handled status =
      Ends-if _ _ _
        (Ends-bind _ _ (λ at. done-Handled _ _ (finish_occurrence-IsFinished op s o _ refl)))
        send_pending-Handled

  act_on_occurrence-Handled : Ends Handled (act_on_occurrence op s action o)
  unfolding act_on_occurrence
  act_on_occurrence-Handled =
      Ends-if _ _ _
        (Ends-bind _ _ (λ target.
          Ends-option _ _ _ (Ends-raise _)
            (λ session_status. Ends-bind _ _ (λ status. skip_if_working-Handled status))))
        send_pending-Handled

  finish_broken-IsFinished :
      (e : Fault) (receipt : Option Value) → Ends (Finished op s o) (finish_broken op s o e receipt)
  unfolding finish_broken
  finish_broken-IsFinished e receipt =
      finish_occurrence-IsFinished op s o _
        (over-if (is_session_missing e.code) "session_missing" "failed" refl refl)

  ended-Over :
      (acted : Acted) (t : TimerState D)
      → Handled acted t
      → Returned Over (conclude_fire op s action o acted t)
  unfolding conclude_fire timer_primitives
  ended-Over (done result) t finished = finished
  ended-Over (broken e receipt) t finished =
      (Ends-bind_from _ _ _ (finish_broken-IsFinished e receipt) (λ u t' h. h)).at t

  fire-Over : Ends Over (fire op s action o)
  unfolding fire
  fire-Over = Ends-bind _ _ (λ due_at. Ends-bind _ _ (λ u. Ends-bind _ _ (λ claimed_at.
      Ends-bind _ _ (λ v.
        Ends-bind_from _ _ _
          (Ends-attempt _ _ act_on_occurrence-Handled (λ e. broken-Handled e none)) ended-Over))))

  -- When the work on a claimed occurrence has returned, with a result or with the fault that it
  -- caught, the store keeps the schedule in a state that is not due, claimed or send_pending,
  -- whatever the daemon answered or changed in the store meanwhile.
  pub fire-IsFinished :
      (t : TimerState D) (r : TickResult)
      → (fire op s action o t).0 ≡ ok r
      → IsFinished s.id (fire op s action o t).1
  fire-IsFinished t r e =
      returned-eq (λ t'. IsFinished s.id t') (fire op s action o t) r e (fire-Over.at t)
