-- ===== src/Timer/Clock.antt =====
-- src/timer.js: `ManualClock`, the clock that is set and moved by hand.
use codex_hooks.Base.{ℕ, ◌+◌, String, Option, some, fault, concat, [], ◌∷◌}
use codex_hooks.Base.Exec.{Exec, raise, on_option}
use codex_hooks.Timer.Occurrence.{iso_of}

-- `Date.parse` and `toISOString`, which is none out of the range of a date
pub record Calendar : Type 0 where
  pub parse : String → Option ℕ
  pub iso : ℕ → Option String

module _ (calendar : Calendar) where
  -- `now()`, on the clock's `epochMs`
  unfoldable pub manual_now : Exec ℕ String
  manual_now epoch_ms = (iso_of calendar.iso (some epoch_ms), epoch_ms)

  -- `set(value)`
  unfoldable pub manual_set : String → Exec ℕ String
  manual_set value =
      on_option (calendar.parse value)
        (raise (fault (concat ("clock value must be an ISO timestamp: " ∷ value ∷ []))))
        (λ epoch_ms current. manual_now epoch_ms)

  -- `advance(milliseconds)`; none stands for what is not a finite number from 0 on
  unfoldable pub manual_advance : Option ℕ → Exec ℕ String
  manual_advance milliseconds =
      on_option milliseconds (raise (fault "clock advance must be a non-negative number"))
        (λ by current. manual_now (current + by))
