-- ===== src/GoalReview/Suppression.antt =====
-- An interrupt suppresses one stop of its session: the suppression is used up by it.
use codex_hooks.Base.{false, ◌≡◌, none, is_some, ◌||◌}
use codex_hooks.Base.Dict.{Dict, lookup}
use codex_hooks.Protocol.Hooks.{HookEvent, interrupt_suppression_key}
use codex_hooks.GoalReview.Desk.{Desk}

-- No suppression of this event, exact or for the whole session.
abbrev IsFree : HookEvent → Desk → Type 0
IsFree event d =
    (is_some (lookup (interrupt_suppression_key event.session_id event.turn_id) d.stop_suppression)
      || is_some (lookup (interrupt_suppression_key event.session_id none) d.stop_suppression))
    ≡ false
