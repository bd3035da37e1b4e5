-- ===== src/GoalReview/Prompt.antt =====
-- src/goal-review.js: `buildReviewerPrompt`, what a reviewer is told, and `scopeTarget`.
use codex_hooks.Base.{String, Option, [], ◌∷◌, concat, join, or_else, Outcome, ok, ◌>>=◌}
use codex_hooks.Protocol.Value.{Value, get}
use codex_hooks.Protocol.Normalize.{assert_non_empty, optional_non_empty, TargetScope}

-- The arguments of `buildReviewerPrompt`; an empty text counts as missing, and is none.
pub record PromptParts : Type 0 where
  pub goal_file : String
  pub goal_text : String
  pub source_turn_id : Option String
  pub source_summary : Option String

unfoldable pub build_reviewer_prompt : PromptParts → String
build_reviewer_prompt p = join "\n" (
    "You are an isolated goal reviewer. Do not modify files or implement the task."
    ∷ "Review the source turn against the goal document and the current repository."
    ∷ "Evaluate functional completion, architecture compliance, and any claimed blocker."
    ∷ "Do not be overly strict: P2 suggestions do not block completion."
    ∷ "A review passes when the function is complete or legitimately blocked and architecture has no P0/P1 finding."
    ∷ "For a claimed blocker, judge whether the reason is reasonable, whether it is solvable now, and whether the expected attempts were actually made."
    ∷ "Return exactly one JSON object and no prose or markdown."
    ∷ "Required fields: goal, observed, evidence_refs, functional, architecture, blocked_review."
    ∷ "functional: {status: complete|incomplete|blocked, gap: string, next_action: string}."
    ∷ "architecture: {status: compliant|non_compliant|uncertain, findings: [{severity: P0|P1|P2, summary, evidence: string[], next_action}]}."
    ∷ "blocked_review: null unless functional.status is blocked; otherwise {reason, reasonable, solvable, attempts_sufficient, attempts_expected: string[], attempts_observed: string[], next_action}."
    ∷ "Use an empty gap when complete. For blocked, describe the blocker and why it is or is not acceptable."
    ∷ "Architecture findings must cite concrete files, behavior, or verification evidence."
    ∷ concat ("Goal file: " ∷ p.goal_file ∷ [])
    ∷ "Goal document:"
    ∷ p.goal_text
    ∷ concat ("Source turn: " ∷ or_else p.source_turn_id "unknown" ∷ [])
    ∷ "Source turn summary:"
    ∷ or_else p.source_summary "(not provided)"
    ∷ [])

-- `scopeTarget(target)`
unfoldable pub scope_target : Value → Outcome TargetScope
scope_target target = do
  namespace ← assert_non_empty (get target "namespace") "goal target.namespace"
  appserver_id ← assert_non_empty (get target "appserver_id") "goal target.appserver_id"
  scope_id ← optional_non_empty (get target "scope_id") "goal target.scope_id"
  ok (record { namespace = namespace; appserver_id = appserver_id; scope_id = scope_id })
