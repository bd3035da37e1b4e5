-- ===== src/GoalReview/Desk.antt =====
-- src/goal-review.js: the controls that `GoalReviewRunner` reads and writes.
use codex_hooks.Base.{ℕ, String, Bool, Option}
use codex_hooks.Base.Dict.{Dict}
use codex_hooks.Protocol.Value.{Value}
use codex_hooks.Daemon.Record.{Suppression}

-- An entry of the control `goal_reviews`, as a claim writes it.
pub record Review : Type 0 where
  pub review_id : String
  pub goal_id : String
  pub state : String
  pub reason : Option String
  pub source_session_id : String
  pub source_turn_id : Option String
  pub source_cwd : Option String
  pub goal_file : Value
  pub target : Value
  pub claimed_at : String

-- An entry of the control `longhorizon`; a count that is no integer is none.
pub record Goal : Type 0 where
  pub id : String
  pub mode : String
  pub enabled : Option Bool
  pub target : Value
  pub owner_session_id : Value
  pub goal_file : Value
  pub review_count : Option ℕ
  pub review_budget : Option ℕ
  pub last_turn_id : Option String
  pub last_event_key : String
  pub last_review_state : String
  pub last_review_receipt : Option Review

-- What `isReviewerStop` reads of an entry of the control `subagents`.
pub record Subagent : Type 0 where
  pub thread_id : Value
  pub kind : Value

-- `closed`, the switch `operators.stopless.enabled`, and the controls.
pub record Desk : Type 0 where
  pub closed : Bool
  pub stopless_enabled : Bool
  pub longhorizon : Dict Goal
  pub goal_reviews : Dict Review
  pub stop_suppression : Dict Suppression
  pub subagents : Dict Subagent
