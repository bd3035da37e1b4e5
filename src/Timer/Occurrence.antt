-- ===== src/Timer/Occurrence.antt =====
-- src/timer.js: when a schedule is due, how its occurrence is claimed and how it is finished.
use codex_hooks.Base.{
  or_else, ℕ, String, Bool, true, false, not, Option, none, some, [], ◌∷◌, ◌==◌, ◌&&◌, ◌||◌, eqb,
  leb, if◌then◌else◌, concat, member, fault, is_blank, ◌+◌, ◌*◌, ◌-◌, ◌/◌, Outcome, ok, throws,
}
use codex_hooks.Base.Exec.{Exec, pure, raise, lift, on_option, ◌>>=◌}
use codex_hooks.Base.Dict.{Dict, lookup}
use codex_hooks.Protocol.Value.{Value, get, is_text, str}
use codex_hooks.Timer.Schedule.{
  Schedule, Patch, Occurrence, is_disabled, is_interval, is_once, occurrence_at,
  occurrence_terminal_states, apply_patch, unless_null, stamped, is_withdrawn, ends_occurrence,
}
use codex_hooks.Timer.World.{
  Operator, TimerState, clock_now, stored_schedules, update_schedule, update_latest,
}

-- `!schedule.id || !schedule.at`
abbrev pub is_incomplete : Schedule → Bool
is_incomplete s = s.id == "" || s.at == ""

-- `at <= Date.parse(now)`; a time that is not a date is `NaN`
abbrev pub is_reached : ℕ → Option ℕ → Bool
is_reached at none = false
is_reached at (some now) = leb at now

-- `Math.max(1, Math.floor((now - base) / interval) + 1)`
unfoldable pub missed : ℕ → ℕ → ℕ → ℕ
missed base now interval = if leb base now then (now - base) / interval + 1 else 1

-- `base + missed * intervalMs`, where all three are dates or numbers and the sum is finite
unfoldable pub next_time : Option ℕ → Option ℕ → Option ℕ → Option ℕ
unfolding missed
next_time (some base) (some now) (some interval) =
    if eqb interval 0 then none else some (base + missed base now interval * interval)
next_time base now interval = none

-- `new Date(next).toISOString()`, which throws a `RangeError`
abbrev pub iso_text : Option String → Outcome String
iso_text none = throws (fault "Invalid time value")
iso_text (some text) = ok text

unfoldable pub iso_of : (ℕ → Option String) → Option ℕ → Outcome String
iso_of iso none = iso_text none
iso_of iso (some next) = iso_text (iso next)

-- The patch of an occurrence that ends an interval's turn.
abbrev pub turned : String → Occurrence → String → Schedule → Schedule
turned state occurrence at s = record s {
  state = state;
  enabled = some true;
  current_occurrence = occurrence.occurrence_id;
  last_occurrence = occurrence.occurrence_id;
  next_at = at;
  stamps = ("next_occurrence_at", at) ∷ s.stamps;
}

abbrev pub marked : Occurrence → Schedule → Schedule
marked occurrence s = record s {
  current_occurrence = occurrence.occurrence_id;
  last_occurrence = occurrence.occurrence_id;
}

-- What a withdrawn schedule takes over from the patch.
abbrev pub keep_withdrawn : Occurrence → Patch → Schedule → Schedule
keep_withdrawn occurrence p s = record s {
  current_occurrence = occurrence.occurrence_id;
  last_occurrence = occurrence.occurrence_id;
  last_decision = unless_null p.last_decision s.last_decision;
  last_delivery = unless_null p.last_delivery s.last_delivery;
  failure = unless_null p.failure s.failure;
}

-- The end of a schedule that is not repeated.
abbrev pub closed : Bool → Schedule → Schedule
closed true s = record s { enabled = some false }
closed false s = s

module _ {D : Type 0} (op : Operator D) where
  -- `this.isDue(schedule)`
  unfoldable pub is_due : Schedule → Exec (TimerState D) Bool
  is_due s =
      if is_incomplete s || is_disabled s.enabled
      then pure false
      else on_option (op.parse_date (occurrence_at s))
          (raise (fault (concat ("schedule " ∷ s.id ∷ " has an invalid timestamp" ∷ []))))
          (λ at. do now ← clock_now op; pure (is_reached at (op.parse_date now)))

  -- The intent of an uncertain delivery that is still unknown.
  unfoldable pub is_still_unknown : Value → Exec (TimerState D) Bool
  is_still_unknown (str intent_id) t = (
    ok (
        if is_blank intent_id then true else elim op.intent_of [
          | none ↦ true
          | some intent_of ↦ elim (intent_of intent_id t.shared.rest) [
            | none ↦ true
            | some intent ↦ is_text (get intent "state") "unknown_delivery"
          ]
        ]),
    t,
  )
  is_still_unknown v t = (ok true, t)

  -- `timer:${schedule.id}:${at}`
  unfoldable pub occurrence_of : Schedule → Occurrence
  occurrence_of s = record {
    at = occurrence_at s;
    occurrence_id = concat ("timer:" ∷ s.id ∷ ":" ∷ occurrence_at s ∷ []);
  }

  -- The occurrence was finished already.
  abbrev pub is_finished : Schedule → Occurrence → Bool
  is_finished s o =
      s.current_occurrence == o.occurrence_id && member s.state occurrence_terminal_states

  abbrev pub is_uncertain : Schedule → Occurrence → Bool
  is_uncertain s o =
      is_interval s
      && is_text s.last_decision "unknown_delivery"
      && is_text (get s.last_delivery "state") "unknown_delivery"
      && s.current_occurrence == o.occurrence_id

  -- `this.claimOccurrence(schedule)`
  unfoldable pub claim_occurrence : Schedule → Exec (TimerState D) (Option Occurrence)
  claim_occurrence s = if is_incomplete s then pure none else do
    due ← is_due s
    let o = occurrence_of s
    if not due || is_finished s o
        then pure none
        else (if is_uncertain s o
            then (do
              unknown ← is_still_unknown (get s.last_delivery "intent_id")
              pure (if unknown then none else some o))
            else pure (some o))

  -- `finishOccurrence`, where the store's schedule was withdrawn in between
  unfoldable pub finish_withdrawn :
      Dict Schedule → Schedule → Occurrence → Patch → Exec (TimerState D) Unit
  finish_withdrawn latest_schedules latest occurrence p =
      update_latest latest_schedules latest (keep_withdrawn occurrence p)

  unfoldable pub finish_interval : Schedule → Occurrence → Patch → Exec (TimerState D) Unit
  finish_interval s occurrence p = do
    now ← clock_now op
    if p.state == "session_missing"
        then update_schedule s (λ x.
          stamped "stopped_at" now
            (record (marked occurrence (apply_patch p x)) { enabled = some false }))
        else (do
          at ← lift (
              iso_of op.iso
                (next_time (op.parse_date occurrence.at) (op.parse_date now) s.interval_ms))
          update_schedule s (λ x. turned "enabled" occurrence at (apply_patch p x)))

  unfoldable pub finish_once : Schedule → Occurrence → Patch → Exec (TimerState D) Unit
  finish_once s occurrence p =
      let ended = λ (x : Schedule).
        closed (is_once s && ends_occurrence p.state) (marked occurrence (apply_patch p x)) in
      if p.state == "sent"
      then (do now ← clock_now op; update_schedule s (λ x. stamped "completed_at" now (ended x)))
      else update_schedule s ended

  unfoldable pub finish_current : Schedule → Occurrence → Patch → Exec (TimerState D) Unit
  finish_current s occurrence p =
      if is_interval s && ends_occurrence p.state
      then finish_interval s occurrence p
      else finish_once s occurrence p

  -- `finishOccurrence`, with the store's schedules or the copy of the tick
  unfoldable pub finish_latest :
      Dict Schedule → Schedule → Occurrence → Patch → Exec (TimerState D) Unit
  finish_latest latest_schedules s occurrence p =
      on_option (lookup s.id latest_schedules) (finish_current s occurrence p) (λ latest.
        if is_withdrawn latest
        then finish_withdrawn latest_schedules latest occurrence p
        else finish_current s occurrence p)

  -- `this.finishOccurrence(schedules, schedule, occurrence, patch)`
  unfoldable pub finish_occurrence : Schedule → Occurrence → Patch → Exec (TimerState D) Unit
  finish_occurrence s occurrence p t =
      (do found ← stored_schedules; finish_latest (or_else found t.copy) s occurrence p) t
