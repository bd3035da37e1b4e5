-- ===== src/Timer/Schedule.antt =====
-- src/timer.js: a schedule, as the control store keeps it, and the patches that the operator
-- applies to it.
use codex_hooks.Base.{
  ℕ, String, Bool, true, false, Option, some, List, [], ◌∷◌, ◌++◌, ◌==◌, if◌then◌else◌, member,
  or_else,
}
use codex_hooks.Protocol.Value.{Value, is_nullish}

-- A text that is missing is the empty one: the code tests both with `||` and `!`.
pub record Schedule : Type 0 where
  pub id : String
  pub at : String
  pub enabled : Option Bool
  pub state : String
  pub mode : String
  pub next_at : String
  pub interval_ms : Option ℕ
  pub action : String
  pub busy_policy : String
  pub current_occurrence : String
  pub last_occurrence : String
  pub last_decision : Value
  pub last_delivery : Value
  pub failure : Value
  pub stamps : List (String × String)
  pub target : Value
  pub source : Value
  pub body : Value
  pub send_mode : Value
  pub expires_at : Value
  pub cwd : Value
  pub model : Value
  pub effort : Value
  pub owner_session_id : Value
  pub ephemeral : Bool
  pub allow_concurrent : Option Bool

-- `TERMINAL_SCHEDULE_STATES`
abbrev pub terminal_schedule_states : List String
terminal_schedule_states =
    "cancelled" ∷ "stopped" ∷ "disabled" ∷ "failed" ∷ "sent" ∷ "completed" ∷ "unknown_delivery"
    ∷ "skipped" ∷ "session_missing" ∷ []

-- `OCCURRENCE_TERMINAL_STATES`
abbrev pub occurrence_terminal_states : List String
occurrence_terminal_states =
    "sent" ∷ "completed" ∷ "unknown_delivery" ∷ "failed" ∷ "skipped" ∷ "session_missing" ∷ []

-- `isTimerTerminalSchedule`
unfoldable pub is_timer_terminal_schedule : Schedule → Bool
is_timer_terminal_schedule s = member s.state terminal_schedule_states

-- `schedule.enabled === false`
abbrev pub is_disabled : Option Bool → Bool
is_disabled (some false) = true
is_disabled _ = false

-- `(schedule.mode || SCHEDULE_MODES.ONCE) === SCHEDULE_MODES.INTERVAL`
abbrev pub is_interval : Schedule → Bool
is_interval s = s.mode == "interval"

-- `(schedule.mode || SCHEDULE_MODES.ONCE) === SCHEDULE_MODES.ONCE`
abbrev pub is_once : Schedule → Bool
is_once s = if s.mode == "" then true else s.mode == "once"

-- `a || b` on texts
abbrev pub or_text : String → String → String
or_text a b = if a == "" then b else a

-- The time of the occurrence that comes next.
abbrev pub occurrence_at : Schedule → String
occurrence_at s = if is_interval s then or_text s.next_at s.at else s.at

-- The patch of `finishOccurrence`; a field that is `undefined` is not in it.
pub record Patch : Type 0 where
  pub state : String
  pub last_decision : Value
  pub last_delivery : Value
  pub failure : Value
  pub stamps : List (String × String)

abbrev pub patch_to : String → Patch
patch_to state = record {
  state = state;
  last_decision = Value.undefined;
  last_delivery = Value.undefined;
  failure = Value.undefined;
  stamps = [];
}

abbrev pub patched : Value → Value → Value
patched Value.undefined old = old
patched new old = new

-- `{ ...schedule, ...patch }`; a newer stamp stands in front
abbrev pub apply_patch : Patch → Schedule → Schedule
apply_patch p s = record s {
  state = p.state;
  last_decision = patched p.last_decision s.last_decision;
  last_delivery = patched p.last_delivery s.last_delivery;
  failure = patched p.failure s.failure;
  stamps = p.stamps ++ s.stamps;
}

-- `patch.x == null ? {} : { x: patch.x }`
abbrev pub unless_null : Value → Value → Value
unless_null new old = if is_nullish new then old else new

abbrev pub stamped : String → String → Schedule → Schedule
stamped name at s = record s { stamps = (name, at) ∷ s.stamps }

-- `["cancelled", "stopped", "disabled"].includes(latest.state)`
abbrev pub is_withdrawn : Schedule → Bool
is_withdrawn s = member s.state ("cancelled" ∷ "stopped" ∷ "disabled" ∷ [])

-- The states of a patch that end an occurrence.
abbrev pub ends_occurrence : String → Bool
ends_occurrence state =
    member state ("sent" ∷ "unknown_delivery" ∷ "failed" ∷ "skipped" ∷ "session_missing" ∷ [])

-- `SESSION_MISSING_CODES.has(code)`
abbrev pub is_session_missing : Option String → Bool
is_session_missing code =
    member (or_else code "") ("session_not_found" ∷ "target_scope_not_found" ∷ [])

pub record Occurrence : Type 0 where
  pub at : String
  pub occurrence_id : String
