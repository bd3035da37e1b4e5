-- ===== src/Timer/Repeat.antt =====
-- A repeated schedule whose occurrence has ended waits for the next time of its interval.
use codex_hooks.Base.{
  ◌||◌, eq_iff, ◌∙◌, String, true, false, ◌≡◌, refl, Option, none, some, inl, inr, Bool-cases,
  Option-cases, ok, ◌==◌, or_else, Outcome-cases, ℕ, ◌<◌, leb, arith, subst,
}
use codex_hooks.Base.Dict.{lookup-put_self}
use codex_hooks.Timer.Schedule.{
  is_disabled, Schedule, Patch, Occurrence, is_interval, ends_occurrence, apply_patch,
}
use codex_hooks.Timer.World.{Operator, TimerState, timer_primitives}
use codex_hooks.Timer.Occurrence.{
  is_incomplete, finish_occurrence, finish_interval, is_due, claim_occurrence, next_time, iso_of,
  turned,
}
use codex_hooks.Timer.Finish.{IsCurrent, stored, finish_occurrence-current, finish_current-interval}
use codex_hooks.Timer.Advance.{IsNext, next_time-IsNext}

-- What the program relies on of `Date.parse` and `toISOString`.
pub record IsCalendar {D : Type 0} (op : Operator D) : Type 0 where
  pub parses : (n : ℕ) (text : String) → op.iso n ≡ some text → op.parse_date text ≡ some n
  pub rejects : op.parse_date "" ≡ none

iso_of-ok :
    (iso : ℕ → Option String) (next : Option ℕ) (text : String)
    → iso_of iso next ≡ ok text
    → (n : ℕ) × (next ≡ some n) × (iso n ≡ some text)
unfolding iso_of
iso_of-ok iso none text e = cc
iso_of-ok iso (some n) text e = elim (Option-cases (iso n)) [
  | inl f ↦ let clash = rw f at e in cc
  | inr (other, f) ↦ let same : ok other ≡ ok text = rw f at e in (n, refl, cc)
]

next_time-interval :
    (base now : ℕ) (interval : Option ℕ) (next : ℕ)
    → next_time (some base) (some now) interval ≡ some next
    → (i : ℕ) × (interval ≡ some i)
unfolding next_time
next_time-interval base now none next e = cc
next_time-interval base now (some i) next e = (i, refl)

-- The schedule waits: it is enabled again, for the first time of the interval after `now`, and
-- is not claimed while the clock is before that time.
pub record Waits {D : Type 0} (op : Operator D) (base now : ℕ) (kept : Schedule) : Type 0 where
  pub interval : ℕ
  pub next : ℕ
  pub every : kept.interval_ms ≡ some interval
  pub is_next : IsNext base now interval next
  pub enabled_again : kept.enabled ≡ some true
  pub next_at : op.parse_date kept.next_at ≡ some next
  pub unclaimed :
      (later : TimerState D) (m : ℕ)
      → op.parse_date (op.clock later.shared.rest).0 ≡ some m
      → m < next
      → (claim_occurrence op kept later).0 ≡ ok none

module _ {D : Type 0} (op : Operator D) where
  is_due-early :
      (s : Schedule) (t : TimerState D) (next m : ℕ)
      → is_interval s ≡ true
      → (s.next_at == "") ≡ false
      → op.parse_date s.next_at ≡ some next
      → op.parse_date (op.clock t.shared.rest).0 ≡ some m
      → m < next
      → (is_due op s t).0 ≡ ok false
  unfolding is_due timer_primitives
  is_due-early s t next m repeats given at_next at_now early =
      let later : leb next m ≡ false = ground arith in
      elim (Bool-cases (is_incomplete s || is_disabled s.enabled)) [
        | inl c ↦ rw c refl
        | inr c ↦ rw (c, repeats, given, at_next, at_now, later) refl
      ]

  claim_occurrence-early :
      (s : Schedule) (t : TimerState D)
      → (is_due op s t).0 ≡ ok false
      → (claim_occurrence op s t).0 ≡ ok none
  unfolding claim_occurrence timer_primitives
  claim_occurrence-early s t early = elim (Bool-cases (is_incomplete s)) [
    | inl c ↦ rw c refl
    | inr c ↦ rw (c, early) refl
  ]

  given_of-IsCalendar :
      IsCalendar op → (text : String) (n : ℕ) → op.parse_date text ≡ some n → (text == "") ≡ false
  given_of-IsCalendar calendar text n e = elim (Bool-cases (text == "")) [
    | inl c ↦
        let empty = (eq_iff text "").0 c in
        let clash : op.parse_date "" ≡ some n = subst (λ x. op.parse_date x ≡ some n) empty e in
        let other = calendar.rejects in cc
    | inr c ↦ c
  ]

  module _ (s : Schedule) (o : Occurrence) (p : Patch) (base now : ℕ) (calendar : IsCalendar op)
      (repeats : is_interval s ≡ true) where
    turned-Waits :
        (text : String)
        → iso_of op.iso (next_time (some base) (some now) s.interval_ms) ≡ ok text
        → Waits op base now (turned "enabled" o text (apply_patch p s))
    turned-Waits text e =
        let (next, f, g) =
          iso_of-ok op.iso (next_time (some base) (some now) s.interval_ms) text e in
        let (interval, every) = next_time-interval base now s.interval_ms next f in
        let (pos, is_next) = next_time-IsNext base now interval next (rw every at f) in
        let parsed = calendar.parses next text g in
        record {
          interval = interval;
          next = next;
          every = every;
          is_next = is_next;
          enabled_again = refl;
          next_at = parsed;
          unclaimed = λ later m at_now early.
              claim_occurrence-early (turned "enabled" o text (apply_patch p s)) later (
                is_due-early (turned "enabled" o text (apply_patch p s)) later next m repeats
                  (given_of-IsCalendar calendar text next parsed) parsed at_now early);
        }

    finish_interval-Waits :
        (t : TimerState D)
        → (p.state == "session_missing") ≡ false
        → op.parse_date o.at ≡ some base
        → op.parse_date (op.clock t.shared.rest).0 ≡ some now
        → (finish_interval op s o p t).0 ≡ ok tt
        → (kept : Schedule) × (stored s.id (finish_interval op s o p t).1 ≡ some kept)
          × Waits op base now kept
    unfolding finish_interval timer_primitives
    finish_interval-Waits t present at_base at_now done =
        elim (Outcome-cases (iso_of op.iso (next_time (some base) (some now) s.interval_ms))) [
          | inl (text, e) ↦
              rw (present, at_base, at_now, e)
                (
                  turned "enabled" o text (apply_patch p s),
                  lookup-put_self s.id _ t.copy,
                  turned-Waits text e,
                )
          | inr (error, e) ↦ let clash = rw (present, at_base, at_now, e) at done in cc
        ]

  -- Let the calendar parse the times that it writes and no empty text. When an occurrence of a
  -- repeated schedule, whose time is a date, has ended at a clock that shows a date, in a state
  -- that ends it and is not session_missing, when the schedule was not withdrawn meanwhile, and
  -- the end has returned, then the stored schedule is enabled for the first time of its interval
  -- after the clock's, and is not claimed while the clock is before that time.
  pub finish_occurrence-Waits :
      (s : Schedule) (o : Occurrence) (p : Patch) (t : TimerState D) (base now : ℕ)
      → IsCalendar op
      → IsCurrent op s o p (or_else t.shared.schedules t.copy)
      → is_interval s ≡ true
      → ends_occurrence p.state ≡ true
      → (p.state == "session_missing") ≡ false
      → op.parse_date o.at ≡ some base
      → op.parse_date (op.clock t.shared.rest).0 ≡ some now
      → (finish_occurrence op s o p t).0 ≡ ok tt
      → (kept : Schedule) × (stored s.id (finish_occurrence op s o p t).1 ≡ some kept)
        × Waits op base now kept
  finish_occurrence-Waits s o p t base now calendar current repeats ends present at_base at_now
        done =
      let same =
        finish_occurrence-current op s o p t current
        ∙ finish_current-interval op s o p t repeats ends in
      let done' = rw same at done in
      rw same (finish_interval-Waits s o p base now calendar repeats t present at_base at_now done')
