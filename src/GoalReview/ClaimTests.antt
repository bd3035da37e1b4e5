-- ===== src/GoalReview/ClaimTests.antt =====
-- A claim of src/goal-review.js on a concrete desk.
use codex_hooks.Base.{true, false, none, some, [], ◌∷◌, refl, ◌≡◌, ok}
use codex_hooks.Base.Dict.{lookup, put}
use codex_hooks.Protocol.Value.{str, null}
use codex_hooks.Protocol.Names.{HookName}
use codex_hooks.Protocol.Hooks.{HookEvent}
use codex_hooks.GoalReview.Desk.{Desk, Goal}
use codex_hooks.GoalReview.Claim.{claim_review, claim_new, update_goal, desk_primitives}
use codex_hooks.GoalReview.Budget.{IsCounted, claim_review_twice, claim_review-IsCounted}

abbrev stop_of_turn : HookEvent
stop_of_turn = record {
  session_id = "session";
  turn_id = some "turn-1";
  hook_event_name = HookName.stop;
  cwd = "/tmp";
  tool_name = null;
  tool_use_id = none;
  event_id = none;
  stop_hook_active = false;
  permission_mode = null;
  transcript_path = null;
  model = null;
  prompt = null;
  tool_input = null;
  tool_response = null;
  agent_id = null;
  agent_type = null;
  agent_transcript_path = null;
  last_assistant_message = null;
  source = null;
  trigger = null;
  reason = null;
  raw = null;
}

abbrev budgeted_goal : Goal
budgeted_goal = record {
  id = "goal";
  mode = "goal";
  enabled = some true;
  target = null;
  owner_session_id = str "session";
  goal_file = str "goal.md";
  review_count = some 1;
  review_budget = some 2;
  last_turn_id = none;
  last_event_key = "";
  last_review_state = "";
  last_review_receipt = none;
}

abbrev one_goal : Desk
one_goal = record {
  closed = false;
  stopless_enabled = true;
  longhorizon = ("goal", budgeted_goal) ∷ [];
  goal_reviews = [];
  stop_suppression =
      (
        "session:*",
        record {
          session_id = "session";
          turn_id = none;
          hook_event_name = "Interrupt";
          reason = null;
          source = null;
          observed_at = "now";
        },
      )
      ∷ [];
  subagents = [];
}

claim_review_twice_example :
    claim_review "later" budgeted_goal stop_of_turn "review"
      (claim_review "now" budgeted_goal stop_of_turn "review" one_goal).1
    ≡ (ok false, (claim_review "now" budgeted_goal stop_of_turn "review" one_goal).1)
claim_review_twice_example =
    claim_review_twice "now" "later" budgeted_goal budgeted_goal stop_of_turn stop_of_turn "review"
      one_goal

claim_review-IsCounted_example :
    IsCounted budgeted_goal (claim_review "now" budgeted_goal stop_of_turn "review" one_goal).1
unfolding claim_review claim_new update_goal desk_primitives lookup put
claim_review-IsCounted_example =
    claim_review-IsCounted "now" budgeted_goal stop_of_turn "review" one_goal refl
