-- ===== src/GoalReview/Report.antt =====
-- src/goal-review.js: `parseReviewerReport` and the assertions on the fields of a report.
use codex_hooks.Base.{
  String, Bool, true, false, not, Option, none, some, List, [], ◌∷◌, ◌&&◌, ◌||◌, if◌then◌else◌,
  concat, is_blank, Outcome, ok, throws, Fault, coded, require, ◌>>=◌, ◌>>◌,
}
use codex_hooks.Protocol.Value.{Value, Items, get, str, bool, is_record}
use codex_hooks.Protocol.Names.{find_named}

pub data FunctionalStatus : Type 0 where
  complete incomplete blocked : FunctionalStatus

abbrev pub functional_status_name : FunctionalStatus → String
functional_status_name complete = "complete"
functional_status_name incomplete = "incomplete"
functional_status_name blocked = "blocked"

pub data ArchitectureStatus : Type 0 where
  compliant non_compliant uncertain : ArchitectureStatus

abbrev pub architecture_status_name : ArchitectureStatus → String
architecture_status_name compliant = "compliant"
architecture_status_name non_compliant = "non_compliant"
architecture_status_name uncertain = "uncertain"

pub data Severity : Type 0 where
  p0 p1 p2 : Severity

abbrev pub severity_name : Severity → String
severity_name p0 = "P0"
severity_name p1 = "P1"
severity_name p2 = "P2"

pub record Functional : Type 0 where
  pub status : FunctionalStatus
  pub gap : String
  pub next_action : String

pub record Finding : Type 0 where
  pub severity : Severity
  pub summary : String
  pub evidence : List String
  pub next_action : String

pub record Architecture : Type 0 where
  pub status : ArchitectureStatus
  pub findings : List Finding

pub record BlockedReview : Type 0 where
  pub reason : String
  pub reasonable : Bool
  pub solvable : Bool
  pub attempts_sufficient : Bool
  pub attempts_expected : List String
  pub attempts_observed : List String
  pub next_action : String

-- The fields of a report that the program reads.
pub record Report : Type 0 where
  pub goal : String
  pub observed : String
  pub evidence_refs : List String
  pub functional : Functional
  pub architecture : Architecture
  pub blocked_review : Option BlockedReview

-- `invalidReport(message)`
abbrev pub invalid_report : String → Fault
invalid_report message =
    coded "reviewer_report_invalid"
      (concat ("goal reviewer report field is invalid: " ∷ message ∷ []))

-- `assertStringField(value, field)`, which yields the field
abbrev pub string_of : String → Value → Outcome String
string_of name (str s) = ok s
string_of name _ = throws (invalid_report (concat (name ∷ " must be a string" ∷ [])))

abbrev pub string_field : Value → String → Outcome String
string_field v name = string_of name (get v name)

abbrev pub no_array : String → Fault
no_array name = invalid_report (concat (name ∷ " must be a string array" ∷ []))

unfoldable pub strings_of : String → Items → Outcome (List String)
strings_of name Items.nil = ok []
strings_of name (Items.cons (str s) rest) = do more ← strings_of name rest; ok (s ∷ more)
strings_of name (Items.cons v rest) = throws (no_array name)

-- `assertStringArrayField(value, field)`, which yields the field
unfoldable pub array_of : String → Value → Outcome (List String)
array_of name (Value.arr items) = strings_of name items
array_of name _ = throws (no_array name)

abbrev pub string_array_field : Value → String → Outcome (List String)
string_array_field v name = array_of name (get v name)

-- `assertObjectValue(value, name)`
abbrev pub assert_object : Value → String → Outcome (Unit {0})
assert_object v name =
    require (is_record v) (invalid_report (concat (name ∷ " must be an object" ∷ [])))

-- `LIST.includes(value)`, which yields the member
unfoldable pub one_of : {A : Type 0} → (A → String) → List A → String → Value → Outcome A
one_of name members message (str s) = elim (find_named name members s) [
  | none ↦ throws (invalid_report message)
  | some a ↦ ok a
]
one_of name members message _ = throws (invalid_report message)

-- `blocked_review.${field}` that must be boolean
abbrev pub bool_of : String → Value → Outcome Bool
bool_of name (bool b) = ok b
bool_of name _ =
    throws (invalid_report (concat ("blocked_review." ∷ name ∷ " must be boolean" ∷ [])))

abbrev pub is_incomplete_status : FunctionalStatus → Bool
is_incomplete_status incomplete = true
is_incomplete_status _ = false

unfoldable pub parse_functional : Value → Outcome Functional
parse_functional v = do
  status ←
      one_of functional_status_name (complete ∷ incomplete ∷ blocked ∷ [])
        "functional.status must be complete, incomplete, or blocked" (get v "status")
  gap ← string_field v "gap"
  next_action ← string_field v "next_action"
  require (not (is_incomplete_status status && (is_blank gap || is_blank next_action)))
      (invalid_report "incomplete functional review requires gap and next_action")
  ok (record { status = status; gap = gap; next_action = next_action })

unfoldable pub parse_finding : Value → Outcome Finding
parse_finding v = do
  assert_object v "architecture finding"
  severity ←
      one_of severity_name (p0 ∷ p1 ∷ p2 ∷ []) "architecture finding severity must be P0, P1, or P2"
        (get v "severity")
  summary ← string_field v "summary"
  evidence ← string_array_field v "evidence"
  next_action ← string_field v "next_action"
  ok (record {
    severity = severity;
    summary = summary;
    evidence = evidence;
    next_action = next_action;
  })

unfoldable pub parse_findings : Items → Outcome (List Finding)
parse_findings Items.nil = ok []
parse_findings (Items.cons v rest) = do
  finding ← parse_finding v
  more ← parse_findings rest
  ok (finding ∷ more)

unfoldable pub findings_of : Value → Outcome (List Finding)
findings_of (Value.arr items) = parse_findings items
findings_of _ = throws (invalid_report "architecture.findings must be an array")

unfoldable pub parse_architecture : Value → Outcome Architecture
parse_architecture v = do
  status ←
      one_of architecture_status_name (compliant ∷ non_compliant ∷ uncertain ∷ [])
        "architecture.status must be compliant, non_compliant, or uncertain" (get v "status")
  findings ← findings_of (get v "findings")
  ok (record { status = status; findings = findings })

unfoldable pub parse_blocked : Value → Outcome BlockedReview
parse_blocked v = do
  assert_object v "blocked_review"
  reason ← string_field v "reason"
  reasonable ← bool_of "reasonable" (get v "reasonable")
  solvable ← bool_of "solvable" (get v "solvable")
  attempts_sufficient ← bool_of "attempts_sufficient" (get v "attempts_sufficient")
  attempts_expected ← string_array_field v "attempts_expected"
  attempts_observed ← string_array_field v "attempts_observed"
  next_action ← string_field v "next_action"
  ok (record {
    reason = reason;
    reasonable = reasonable;
    solvable = solvable;
    attempts_sufficient = attempts_sufficient;
    attempts_expected = attempts_expected;
    attempts_observed = attempts_observed;
    next_action = next_action;
  })

-- `report.blocked_review` when the status is not blocked: exactly null
abbrev pub no_blocked : Value → Outcome (Option BlockedReview)
no_blocked Value.null = ok none
no_blocked _ =
    throws (invalid_report "blocked_review must be null unless functional.status is blocked")

unfoldable pub parse_blocked_review : FunctionalStatus → Value → Outcome (Option BlockedReview)
parse_blocked_review blocked v = do b ← parse_blocked v; ok (some b)
parse_blocked_review _ v = no_blocked v

-- `parseReviewerReport`, for the value that `JSON.parse` returned
unfoldable pub parse_report : Value → Outcome Report
parse_report v = do
  require (is_record v)
      (coded "reviewer_report_invalid" "goal reviewer report must be a JSON object")
  goal ← string_field v "goal"
  observed ← string_field v "observed"
  evidence_refs ← string_array_field v "evidence_refs"
  assert_object (get v "functional") "functional"
  assert_object (get v "architecture") "architecture"
  functional ← parse_functional (get v "functional")
  architecture ← parse_architecture (get v "architecture")
  blocked_review ← parse_blocked_review functional.status (get v "blocked_review")
  ok (record {
    goal = goal;
    observed = observed;
    evidence_refs = evidence_refs;
    functional = functional;
    architecture = architecture;
    blocked_review = blocked_review;
  })

-- The result of `JSON.parse`, or the message of its error.
abbrev pub parsed_report : Outcome Value → Outcome Report
parsed_report (ok v) = parse_report v
parsed_report (throws e) = throws (
    coded "reviewer_report_malformed"
      (concat ("goal reviewer returned malformed JSON: " ∷ e.message ∷ [])))

-- `parseReviewerReport(value)`, for the given `JSON.parse`
unfoldable pub parse_reviewer_report : (String → Outcome Value) → Value → Outcome Report
parse_reviewer_report parse_json (str s) =
    if is_blank s
    then throws (coded "reviewer_report_missing" "goal reviewer returned no final message")
    else parsed_report (parse_json s)
parse_reviewer_report parse_json _ =
    throws (coded "reviewer_report_missing" "goal reviewer returned no final message")
