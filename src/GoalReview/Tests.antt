-- ===== src/GoalReview/Tests.antt =====
-- A report of src/goal-review.js on a concrete value.
use codex_hooks.Base.{none, [], ◌∷◌, refl, ok}
use codex_hooks.Protocol.Value.{Value, str, null, Items, get}
use codex_hooks.Protocol.Names.{find_named}
use codex_hooks.Daemon.Record.{object}
use codex_hooks.GoalReview.Report.{
  Report, complete, compliant, p1, parse_reviewer_report, parse_report, parse_functional,
  parse_architecture, parse_findings, findings_of, parse_finding, parse_blocked_review, strings_of,
  array_of, one_of,
}
use codex_hooks.GoalReview.Passes.{IsJudged, parse_reviewer_report-IsJudged}

abbrev finding_value : Value
finding_value = object (
    ("severity", str "P1")
    ∷ ("summary", str "no tests")
    ∷ ("evidence", Value.arr (Items.cons (str "src/timer.js") Items.nil))
    ∷ ("next_action", str "write tests")
    ∷ [])

abbrev report_value : Value
report_value = object (
    ("goal", str "a timer")
    ∷ ("observed", str "a timer")
    ∷ ("evidence_refs", Value.arr Items.nil)
    ∷ (
      "functional",
      object (("status", str "complete") ∷ ("gap", str "") ∷ ("next_action", str "") ∷ []),
    )
    ∷ (
      "architecture",
      object (
          ("status", str "compliant")
          ∷ ("findings", Value.arr (Items.cons finding_value Items.nil))
          ∷ []),
    )
    ∷ ("blocked_review", null)
    ∷ [])

abbrev sample_report : Report
sample_report = record {
  goal = "a timer";
  observed = "a timer";
  evidence_refs = [];
  functional = record { status = complete; gap = ""; next_action = "" };
  architecture = record {
    status = compliant;
    findings =
        record {
          severity = p1;
          summary = "no tests";
          evidence = "src/timer.js" ∷ [];
          next_action = "write tests";
        }
        ∷ [];
  };
  blocked_review = none;
}

parse_reviewer_report-IsJudged_example : IsJudged sample_report
unfolding parse_reviewer_report parse_report parse_functional parse_architecture parse_findings
    findings_of parse_finding parse_blocked_review strings_of array_of one_of get find_named
parse_reviewer_report-IsJudged_example =
    parse_reviewer_report-IsJudged (λ s. ok report_value) (str "report") sample_report refl
