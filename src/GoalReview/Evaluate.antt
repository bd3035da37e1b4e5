-- ===== src/GoalReview/Evaluate.antt =====
-- src/goal-review.js: `evaluateReviewerReport`.
use codex_hooks.Base.{
  String, Bool, true, false, not, Option, none, some, List, [], ◌∷◌, ◌++◌, ◌||◌, ◌==◌,
  if◌then◌else◌, is_blank, keep, Outcome, ok, throws, fault, ◌>>=◌,
}
use codex_hooks.GoalReview.Report.{
  FunctionalStatus, complete, incomplete, blocked, ArchitectureStatus, compliant, Severity, p0, p1,
  p2, Functional, Finding, Architecture, BlockedReview, Report,
}

pub data Feedback : Type 0 where
  functional_feedback : (gap next_action : String) → Feedback
  blocked_feedback : BlockedReview → (evidence_incomplete : Bool) → Feedback
  architecture_feedback :
      ArchitectureStatus → (findings : List Finding) → (next_action : String) → Feedback

abbrev pub is_empty : List String → Bool
is_empty [] = true
is_empty _ = false

abbrev pub evidence_incomplete : BlockedReview → Bool
evidence_incomplete b =
    is_blank b.reason
    || is_blank b.next_action
    || is_empty b.attempts_expected
    || is_empty b.attempts_observed

-- The condition under which a claimed blocker is answered.
abbrev pub is_refuted : BlockedReview → Bool
is_refuted b = not b.reasonable || b.solvable || not b.attempts_sufficient || evidence_incomplete b

abbrev pub blocked_feedbacks : Option BlockedReview → Outcome (List Feedback)
blocked_feedbacks none = throws (fault "Cannot read properties of null (reading 'reason')")
blocked_feedbacks (some b) =
    ok (if is_refuted b then blocked_feedback b (evidence_incomplete b) ∷ [] else [])

abbrev pub status_feedbacks :
    FunctionalStatus → Functional → Option BlockedReview → Outcome (List Feedback)
status_feedbacks complete f b = ok []
status_feedbacks incomplete f b = ok (functional_feedback f.gap f.next_action ∷ [])
status_feedbacks blocked f b = blocked_feedbacks b

-- `["P0", "P1"].includes(finding.severity)`
abbrev pub is_blocking_severity : Severity → Bool
is_blocking_severity p0 = true
is_blocking_severity p1 = true
is_blocking_severity p2 = false

abbrev pub is_blocking : Finding → Bool
is_blocking f = is_blocking_severity f.severity

abbrev pub default_action : String
default_action = "Resolve the architecture issue and rerun the goal review."

-- `blockingFindings[0]?.next_action || …`
abbrev pub first_action : List Finding → String
first_action [] = default_action
first_action (f ∷ fs) = if f.next_action == "" then default_action else f.next_action

abbrev pub architecture_feedbacks_of :
    ArchitectureStatus → List Finding → List Finding → List Feedback
architecture_feedbacks_of compliant findings [] = []
architecture_feedbacks_of compliant findings (f ∷ fs) =
    architecture_feedback compliant (f ∷ fs) (first_action (f ∷ fs)) ∷ []
architecture_feedbacks_of status findings blocking =
    architecture_feedback status findings (first_action blocking) ∷ []

abbrev pub architecture_feedbacks : Architecture → List Feedback
architecture_feedbacks a =
    architecture_feedbacks_of a.status a.findings (keep is_blocking a.findings)

pub record ReviewDecision : Type 0 where
  pub action : String
  pub feedback_required : Bool
  pub feedbacks : List Feedback

abbrev pub decision_of : List Feedback → ReviewDecision
decision_of [] = record { action = "pass"; feedback_required = false; feedbacks = [] }
decision_of (f ∷ fs) = record {
  action = "feedback_required";
  feedback_required = true;
  feedbacks = f ∷ fs;
}

-- `evaluateReviewerReport(report)`
unfoldable pub evaluate_reviewer_report : Report → Outcome ReviewDecision
evaluate_reviewer_report r = do
  first ← status_feedbacks r.functional.status r.functional r.blocked_review
  ok (decision_of (first ++ architecture_feedbacks r.architecture))
