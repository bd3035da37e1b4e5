-- ===== src/Timer/Finish.antt =====
-- What `finishOccurrence` stores, and that it respects a schedule that was withdrawn meanwhile.
use codex_hooks.Base.{
  subst, if◌then◌else◌, String, Bool, true, false, ◌≡◌, refl, Option, none, some, [], inl, inr,
  Bool-cases, Option-cases, ok, eq_iff, arith, ◌==◌, or_else,
}
use codex_hooks.Base.Dict.{Dict, lookup, lookup-put_self}
use codex_hooks.Timer.Schedule.{
  Schedule, Patch, Occurrence, is_withdrawn, is_interval, is_once, ends_occurrence,
}
use codex_hooks.Timer.World.{Operator, TimerState, timer_primitives}
use codex_hooks.Timer.Occurrence.{
  finish_occurrence, finish_latest, finish_withdrawn, finish_current, finish_interval, finish_once,
  is_due, claim_occurrence,
}

-- The schedule that the store keeps under an id.
abbrev pub stored : {D : Type 0} → String → TimerState D → Option Schedule
stored id t = lookup id (or_else t.shared.schedules [])

-- The store's schedule was cancelled, stopped or disabled.
pub record IsWithdrawn {D : Type 0} (id : String) (t : TimerState D) (latest : Schedule)
    : Type 0 where
  pub all : Dict Schedule
  pub are_stored : t.shared.schedules ≡ some all
  pub found : lookup id all ≡ some latest
  pub withdrawn : is_withdrawn latest ≡ true
  pub own_id : latest.id ≡ id

-- The schedule keeps its state, whether it is enabled, and when it comes next.
pub record KeepsTurn (latest kept : Schedule) : Type 0 where
  pub same_state : kept.state ≡ latest.state
  pub same_enabled : kept.enabled ≡ latest.enabled
  pub same_next : kept.next_at ≡ latest.next_at

abbrev is_once_mode : String → Bool
is_once_mode mode = if mode == "" then true else mode == "once"

is_once-is_interval : (s : Schedule) → is_once s ≡ true → is_interval s ≡ false
is_once-is_interval s once = elim (Bool-cases (s.mode == "interval")) [
  | inl e ↦
      let named : s.mode ≡ "interval" = (eq_iff s.mode "interval").0 e in
      let clash : is_once_mode "interval" ≡ true = subst (λ m. is_once_mode m ≡ true) named once in
      cc
  | inr e ↦ e
]

module _ {D : Type 0} (op : Operator D) (s : Schedule) (o : Occurrence) (p : Patch) where
  -- An occurrence that ends after its schedule, stored under its own id, was cancelled, stopped
  -- or disabled leaves the schedule's state, its switch and its next time as they are.
  pub finish_occurrence-KeepsTurn :
      (t : TimerState D) (latest : Schedule)
      → IsWithdrawn s.id t latest
      → (kept : Schedule) × (stored s.id (finish_occurrence op s o p t).1 ≡ some kept)
        × KeepsTurn latest kept
  unfolding finish_occurrence finish_latest finish_withdrawn timer_primitives
  finish_occurrence-KeepsTurn t latest h =
      rw (h.are_stored, h.found, h.withdrawn, h.own_id)
        (
          _,
          lookup-put_self s.id _ h.all,
          record { same_state = refl; same_enabled = refl; same_next = refl },
        )

  -- The schedule that the end of an occurrence reads, if there is one, was not withdrawn.
  abbrev pub IsCurrent : Dict Schedule → Type 0
  IsCurrent all = (latest : Schedule) → lookup s.id all ≡ some latest → is_withdrawn latest ≡ false

  finish_latest-current :
      (all : Dict Schedule) (t : TimerState D)
      → IsCurrent all
      → finish_latest op all s o p t ≡ finish_current op s o p t
  unfolding finish_latest timer_primitives
  finish_latest-current all t current = elim (Option-cases (lookup s.id all)) [
    | inl e ↦ rw e refl
    | inr (latest, e) ↦ rw (e, current latest e) refl
  ]

  finish_once-disabled :
      (t : TimerState D)
      → is_once s ≡ true
      → ends_occurrence p.state ≡ true
      → (kept : Schedule) × (stored s.id (finish_once op s o p t).1 ≡ some kept)
        × (kept.enabled ≡ some false)
  unfolding finish_once timer_primitives
  finish_once-disabled t once ends = elim (Bool-cases (p.state == "sent")) [
    | inl e ↦ rw e (_, lookup-put_self s.id _ t.copy, rw once refl)
    | inr e ↦
        let other = rw e at ends in rw e (_, lookup-put_self s.id _ t.copy, rw (once, other) refl)
  ]

  pub finish_occurrence-current :
      (t : TimerState D)
      → IsCurrent (or_else t.shared.schedules t.copy)
      → finish_occurrence op s o p t ≡ finish_current op s o p t
  unfolding finish_occurrence timer_primitives
  finish_occurrence-current t current =
      finish_latest-current (or_else t.shared.schedules t.copy) t current

  finish_current-once :
      (t : TimerState D) → is_once s ≡ true → finish_current op s o p t ≡ finish_once op s o p t
  unfolding finish_current
  finish_current-once t once = rw (is_once-is_interval s once) refl

  pub finish_current-interval :
      (t : TimerState D)
      → is_interval s ≡ true
      → ends_occurrence p.state ≡ true
      → finish_current op s o p t ≡ finish_interval op s o p t
  unfolding finish_current
  finish_current-interval t repeats ends = rw (repeats, ends) refl

module _ {D : Type 0} (op : Operator D) where
  claim-disabled :
      (s : Schedule) (t : TimerState D)
      → s.enabled ≡ some false
      → claim_occurrence op s t ≡ (ok none, t)
  unfolding claim_occurrence is_due timer_primitives
  claim-disabled s t e = ground arith

  -- When an occurrence of a schedule that is not repeated has ended, in a state that ends it,
  -- and the schedule was not withdrawn meanwhile, the schedule that is stored is never claimed
  -- again, at no later time and in no later state.
  pub finish_once-never_claimed :
      (s : Schedule) (o : Occurrence) (p : Patch) (t : TimerState D)
      → IsCurrent op s o p (or_else t.shared.schedules t.copy)
      → is_once s ≡ true
      → ends_occurrence p.state ≡ true
      → (kept : Schedule) × (stored s.id (finish_occurrence op s o p t).1 ≡ some kept)
        × ((later : TimerState D) → claim_occurrence op kept later ≡ (ok none, later))
  finish_once-never_claimed s o p t current once ends =
      let (kept, found, off) = finish_once-disabled op s o p t once ends in
      rw (finish_occurrence-current op s o p t current, finish_current-once op s o p t once)
        (kept, found, λ later. claim-disabled kept later off)
