-- ===== src/GoalReview/Feedback.antt =====
-- src/goal-review.js: `feedbackBody`, the message that a review sends to the session.
use codex_hooks.Base.{
  String, Bool, true, false, List, [], ◌∷◌, ◌++◌, ◌==◌, if◌then◌else◌, concat, join,
}
use codex_hooks.GoalReview.Report.{Finding, Report, severity_name, architecture_status_name}
use codex_hooks.GoalReview.Evaluate.{
  Feedback, functional_feedback, blocked_feedback, architecture_feedback, ReviewDecision,
}

abbrev pub line : String → String → String
line label text = concat (label ∷ text ∷ [])

-- `a || b` on texts
abbrev pub or_default : String → String → String
or_default a b = if a == "" then b else a

-- `${b}`
abbrev pub bool_text : Bool → String
bool_text true = "true"
bool_text false = "false"

unfoldable pub finding_lines : List Finding → List String
finding_lines [] = []
finding_lines (f ∷ fs) =
    concat ("Architecture " ∷ severity_name f.severity ∷ ": " ∷ f.summary ∷ [])
    ∷ line "Architecture evidence: " (join "; " f.evidence)
    ∷ line "Architecture next action: " f.next_action
    ∷ finding_lines fs

-- The findings, or the one action where there are none.
abbrev pub architecture_lines : List Finding → String → List String
architecture_lines [] next_action = line "Architecture next action: " next_action ∷ []
architecture_lines (f ∷ fs) next_action = finding_lines (f ∷ fs)

unfoldable pub feedback_lines : Feedback → List String
feedback_lines (functional_feedback gap next_action) =
    line "Functional gap: " gap ∷ line "Functional next action: " next_action ∷ []
feedback_lines (architecture_feedback status findings next_action) =
    line "Architecture status: " (architecture_status_name status)
    ∷ architecture_lines findings next_action
feedback_lines (blocked_feedback b evidence_incomplete) =
    line "Blocked reason: " (or_default b.reason "(missing)")
    ∷ concat (
        "Blocked review: reasonable="
        ∷ bool_text b.reasonable
        ∷ ", solvable="
        ∷ bool_text b.solvable
        ∷ ", attempts_sufficient="
        ∷ bool_text b.attempts_sufficient
        ∷ ", evidence_incomplete="
        ∷ bool_text evidence_incomplete
        ∷ [])
    ∷ line "Expected attempts: " (or_default (join "; " b.attempts_expected) "none recorded")
    ∷ line "Observed attempts: " (or_default (join "; " b.attempts_observed) "none recorded")
    ∷ line "Blocked next action: " (
        or_default b.next_action
          "Provide a concrete blocker reason, record the expected and observed attempts, and rerun the goal review.")
    ∷ []

unfoldable pub all_lines : List Feedback → List String
all_lines [] = []
all_lines (f ∷ fs) = feedback_lines f ++ all_lines fs

-- `feedbackBody(report, decision)`
unfoldable pub feedback_body : Report → ReviewDecision → String
feedback_body report decision = join "\n" (
    "Goal review found a blocking issue."
    ∷ line "Goal: " report.goal
    ∷ line "Observed: " report.observed
    ∷ all_lines decision.feedbacks)
