-- ===== src/Timer/Idle.antt =====
-- A tick acts on no schedule that is switched off or has come to its end.
use codex_hooks.Base.{
  ◌⊎◌, String, Bool, true, false, ◌≡◌, refl, List, [], ◌∷◌, inl, inr, Bool-cases, ok, or_else, All,
  ◌||◌,
}
use codex_hooks.Base.Dict.{values}
use codex_hooks.Timer.Schedule.{Schedule, is_disabled, is_timer_terminal_schedule}
use codex_hooks.Timer.World.{Operator, TimerState, timer_primitives}
use codex_hooks.Timer.Requests.{sort_by_id, insert_by_id}
use codex_hooks.Timer.Tick.{tick, tick_copy, tick_all, tick_one}

-- `schedule.enabled === false || isTimerTerminalSchedule(schedule)`
abbrev pub IsIdle : Schedule → Type 0
IsIdle s = (is_disabled s.enabled || is_timer_terminal_schedule s) ≡ true

insert_by_id-All :
    (text_le : String → String → Bool) (s : Schedule) (xs : List Schedule)
    → IsIdle s
    → All IsIdle xs
    → All IsIdle (insert_by_id text_le s xs)
unfolding insert_by_id
insert_by_id-All text_le s [] h hs = (h, tt)
insert_by_id-All text_le s (x ∷ xs) h (hx, hs) = elim (Bool-cases (text_le s.id x.id)) [
  | inl e ↦ rw e (h, (hx, hs))
  | inr e ↦ rw e (hx, insert_by_id-All text_le s xs h hs)
]

sort_by_id-All :
    (text_le : String → String → Bool) (xs : List Schedule)
    → All IsIdle xs
    → All IsIdle (sort_by_id text_le xs)
unfolding sort_by_id
sort_by_id-All text_le [] h = h
sort_by_id-All text_le (x ∷ xs) (h, hs) =
    insert_by_id-All text_le x (sort_by_id text_le xs) h (sort_by_id-All text_le xs hs)

module _ {D : Type 0} (op : Operator D) where
  tick_all-idle :
      (xs : List Schedule) (t : TimerState D) → All IsIdle xs → tick_all op xs t ≡ (ok [], t)
  unfolding tick_all tick_one timer_primitives
  tick_all-idle [] t h = refl
  tick_all-idle (x ∷ xs) t (h, hs) = rw (h, tick_all-idle xs t hs) refl

  -- A tick of a timer that is off, or whose schedules are all switched off or at their end, returns
  -- no result and leaves the store as it is: nothing is asked, sent or written.
  pub tick-idle :
      (t : TimerState D)
      → (t.shared.timer_enabled ≡ false) ⊎ All IsIdle (values (or_else t.shared.schedules []))
      → ((tick op t).0 ≡ ok []) × ((tick op t).1.shared ≡ t.shared)
  unfolding tick tick_copy
  tick-idle t (inl off) = rw off (refl, refl)
  tick-idle t (inr idle) = elim (Bool-cases t.shared.timer_enabled) [
    | inl on ↦
        let same =
          tick_all-idle _ (record t { copy = or_else t.shared.schedules [] })
            (sort_by_id-All op.text_le _ idle) in
        simp (on, same) (refl, refl)
    | inr off ↦ rw off (refl, refl)
  ]
