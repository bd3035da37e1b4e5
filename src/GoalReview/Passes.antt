-- ===== src/GoalReview/Passes.antt =====
-- When a review passes: the evaluation of a report against what the reviewer is told.
use codex_hooks.Base.{
  ◌∙◌, ◌⊎◌, String, Bool, true, false, not, Option, none, some, List, [], ◌∷◌, ◌++◌, ◌&&◌, ◌||◌,
  ◌≡◌, refl, inl, inr, Bool-cases, all, keep, is_blank, Outcome, ok, throws, Gives, Gives-any,
  Gives-bind, Gives-eq, Gives-ok, arith, require, coded, if◌then◌else◌,
}
use codex_hooks.Protocol.Value.{Value, str, get, is_record}
use codex_hooks.GoalReview.Report.{
  parse_architecture, parse_functional, assert_object, string_array_field, string_field,
  FunctionalStatus, complete, incomplete, blocked, ArchitectureStatus, compliant, non_compliant,
  uncertain, Functional, Finding, Architecture, BlockedReview, Report, parse_reviewer_report,
  parse_report, parsed_report, parse_blocked_review, parse_blocked, no_blocked,
}
use codex_hooks.GoalReview.Evaluate.{
  is_refuted, Feedback, is_empty, is_blocking, ReviewDecision, evaluate_reviewer_report,
  decision_of, status_feedbacks, architecture_feedbacks, architecture_feedbacks_of,
}

-- A blocker that holds: reasonable, not solvable now, tried enough, and documented.
abbrev pub is_legitimate : BlockedReview → Bool
is_legitimate b =
    b.reasonable
    && not b.solvable
    && b.attempts_sufficient
    && not (is_blank b.reason)
    && not (is_blank b.next_action)
    && not (is_empty b.attempts_expected)
    && not (is_empty b.attempts_observed)

-- The function is complete, or legitimately blocked.
abbrev pub is_settled : FunctionalStatus → Option BlockedReview → Bool
is_settled complete b = true
is_settled incomplete b = false
is_settled blocked none = false
is_settled blocked (some b) = is_legitimate b

abbrev pub is_compliant : ArchitectureStatus → Bool
is_compliant compliant = true
is_compliant _ = false

-- The architecture is compliant, without a P0 or P1 finding.
abbrev pub is_clean : Architecture → Bool
is_clean a = is_compliant a.status && all (λ (f : Finding). not (is_blocking f)) a.findings

abbrev has_any : List Feedback → Bool
has_any [] = false
has_any (f ∷ fs) = true

has_any-append : (xs ys : List Feedback) → has_any (xs ++ ys) ≡ (has_any xs || has_any ys)
has_any-append [] ys = refl
has_any-append (x ∷ xs) ys = refl

keep-all :
    (fs : List Finding)
    → ((keep is_blocking fs ≡ []) × (all (λ (f : Finding). not (is_blocking f)) fs ≡ true))
      ⊎ ((f : Finding) × (rest : List Finding) × (keep is_blocking fs ≡ f ∷ rest)
          × (all (λ (x : Finding). not (is_blocking x)) fs ≡ false))
keep-all [] = inl (refl, refl)
keep-all (f ∷ fs) = elim (Bool-cases (is_blocking f)) [
  | inl b ↦ rw b (inr (f, keep is_blocking fs, refl, refl))
  | inr b ↦ rw b (keep-all fs)
]

has_any-architecture : (a : Architecture) → has_any (architecture_feedbacks a) ≡ not (is_clean a)
has_any-architecture a = elim (keep-all a.findings) [
  | inl (e, h) ↦ rw (e, h) (clean a.status)
  | inr (f, rest, e, h) ↦ rw (e, h) (unclean a.status f rest)
]
  where
    clean :
        (status : ArchitectureStatus)
        → has_any (architecture_feedbacks_of status a.findings [])
          ≡ not (is_compliant status && true)
    clean compliant = refl
    clean non_compliant = refl
    clean uncertain = refl

    unclean :
        (status : ArchitectureStatus) (f : Finding) (rest : List Finding)
        → has_any (architecture_feedbacks_of status a.findings (f ∷ rest))
          ≡ not (is_compliant status && false)
    unclean compliant f rest = refl
    unclean non_compliant f rest = refl
    unclean uncertain f rest = refl

-- The evaluation of a report: feedback unless it is settled and clean.
pub record IsJudged (r : Report) : Type 0 where
  pub decision : ReviewDecision
  pub evaluated : evaluate_reviewer_report r ≡ ok decision
  pub exactly :
      decision.feedback_required
      ≡ not (is_settled r.functional.status r.blocked_review && is_clean r.architecture)

-- A status that is blocked comes with its review.
abbrev is_matched : FunctionalStatus → Option BlockedReview → Bool
is_matched blocked none = false
is_matched _ _ = true

has_any-if : (c : Bool) (x : Feedback) → has_any (if c then x ∷ [] else []) ≡ c
has_any-if true x = refl
has_any-if false x = refl

refuted-legitimate : (b : BlockedReview) → is_refuted b ≡ not (is_legitimate b)
refuted-legitimate b = ground arith

-- What the status adds, for a status with its review.
status_feedbacks-settled :
    (status : FunctionalStatus) (f : Functional) (b : Option BlockedReview)
    → is_matched status b ≡ true
    → (fs : List Feedback) × (status_feedbacks status f b ≡ ok fs)
      × (has_any fs ≡ not (is_settled status b))
status_feedbacks-settled complete f b e = ([], refl, refl)
status_feedbacks-settled incomplete f b e = (_, refl, refl)
status_feedbacks-settled blocked f none e = cc
status_feedbacks-settled blocked f (some b) e =
    (_, refl, has_any-if (is_refuted b) _ ∙ refuted-legitimate b)

decision_of-required : (fs : List Feedback) → (decision_of fs).feedback_required ≡ has_any fs
decision_of-required [] = refl
decision_of-required (f ∷ fs) = refl

matched-IsJudged :
    (r : Report) → is_matched r.functional.status r.blocked_review ≡ true → IsJudged r
unfolding evaluate_reviewer_report
matched-IsJudged r e =
    let (fs, added, any) =
      status_feedbacks-settled r.functional.status r.functional r.blocked_review e in
    record {
      decision = decision_of (fs ++ architecture_feedbacks r.architecture);
      evaluated = rw added refl;
      exactly =
          rw
            (
              decision_of-required (fs ++ architecture_feedbacks r.architecture),
              has_any-append fs (architecture_feedbacks r.architecture),
              any,
              has_any-architecture r.architecture,
            )
            (ground arith);
    }

no_blocked-Gives :
    (status : FunctionalStatus) (v : Value)
    → is_matched status none ≡ true
    → Gives (λ b. is_matched status b ≡ true) (no_blocked v)
no_blocked-Gives status Value.null e = Gives-ok e
no_blocked-Gives status v e = record { holds = tt }

parse_blocked_review-Gives :
    (status : FunctionalStatus) (v : Value)
    → Gives (λ b. is_matched status b ≡ true) (parse_blocked_review status v)
unfolding parse_blocked_review
parse_blocked_review-Gives blocked v = Gives-any (parse_blocked v) (λ b. Gives-ok refl)
parse_blocked_review-Gives complete v = no_blocked-Gives complete v refl
parse_blocked_review-Gives incomplete v = no_blocked-Gives incomplete v refl

parse_report-Gives : (v : Value) → Gives IsJudged (parse_report v)
unfolding parse_report
parse_report-Gives v =
    Gives-any
      (require (is_record v)
        (coded "reviewer_report_invalid" "goal reviewer report must be a JSON object"))
      (λ u. Gives-any (string_field v "goal") (λ goal.
        Gives-any (string_field v "observed") (λ observed.
          Gives-any (string_array_field v "evidence_refs") (λ evidence_refs.
            Gives-any (assert_object (get v "functional") "functional") (λ u₁.
              Gives-any (assert_object (get v "architecture") "architecture") (λ u₂.
                Gives-any (parse_functional (get v "functional")) (λ functional.
                  Gives-any (parse_architecture (get v "architecture")) (λ architecture.
                    Gives-bind _
                      (parse_blocked_review-Gives functional.status (get v "blocked_review"))
                      (λ blocked_review matched. Gives-ok (matched-IsJudged _ matched))))))))))

parsed_report-Gives : (o : Outcome Value) → Gives IsJudged (parsed_report o)
parsed_report-Gives (ok value) = parse_report-Gives value
parsed_report-Gives (throws f) = record { holds = tt }

parse_reviewer_report-Gives :
    (parse_json : String → Outcome Value) (v : Value)
    → Gives IsJudged (parse_reviewer_report parse_json v)
unfolding parse_reviewer_report
parse_reviewer_report-Gives parse_json (str s) = elim (Bool-cases (is_blank s)) [
  | inl b ↦ rw b (record { holds = tt })
  | inr b ↦ rw b (parsed_report-Gives (parse_json s))
]
parse_reviewer_report-Gives parse_json v = record { holds = tt }

-- A report that is parsed is evaluated without a throw, and the evaluation requires feedback unless
-- the function is complete or legitimately blocked and the architecture is compliant without a P0
-- or P1 finding.
pub parse_reviewer_report-IsJudged :
    (parse_json : String → Outcome Value) (v : Value) (r : Report)
    → parse_reviewer_report parse_json v ≡ ok r
    → IsJudged r
parse_reviewer_report-IsJudged parse_json v r e =
    Gives-eq (parse_reviewer_report parse_json v) (parse_reviewer_report-Gives parse_json v) e
