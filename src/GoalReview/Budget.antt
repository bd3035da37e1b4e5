-- ===== src/GoalReview/Budget.antt =====
-- A review is claimed once for a turn of a goal, and never beyond the goal's budget.
use codex_hooks.Base.{
  Outcome-cases, Fault, ℕ, suc, ◌≤◌, String, true, false, ◌≡◌, refl, none, some, inl, inr,
  Bool-cases, Option-cases, ok, throws, leb, or_else, arith,
}
use codex_hooks.Base.Dict.{lookup, put, lookup-put_self}
use codex_hooks.Protocol.Hooks.{HookEvent}
use codex_hooks.GoalReview.Desk.{Desk, Goal, Review}
use codex_hooks.GoalReview.Claim.{
  suppressed_review, claimed_review, claim_review, claim_new, update_goal, desk_primitives,
  is_exhausted, counted,
}

-- The desk has a review of this id, claimed or suppressed.
abbrev pub IsClaimed : String → Desk → Type 0
IsClaimed review_id d = (r : Review) × (lookup review_id d.goal_reviews ≡ some r)

claim_review-known :
    (at : String) (goal : Goal) (event : HookEvent) (review_id : String) (d : Desk)
    → IsClaimed review_id d
    → claim_review at goal event review_id d ≡ (ok false, d)
unfolding claim_review desk_primitives
claim_review-known at goal event review_id d (r, found) = rw found refl

update_goal-reviews :
    (id : String) (patch : Goal → Goal) (d : Desk)
    → (update_goal id patch d).1.goal_reviews ≡ d.goal_reviews
unfolding update_goal desk_primitives
update_goal-reviews id patch d = elim (Option-cases (lookup id d.longhorizon)) [
  | inl e ↦ rw e refl
  | inr (g, e) ↦ rw e refl
]

-- How a claim of a new id ends, by the budget.
claim_new-exhausted :
    (at : String) (goal : Goal) (event : HookEvent) (review_id : String) (d : Desk)
    → is_exhausted goal.review_count goal.review_budget ≡ true
    → ((claim_new at goal event review_id d).0 ≡ ok false)
      × IsClaimed review_id (claim_new at goal event review_id d).1
unfolding claim_new desk_primitives
claim_new-exhausted at goal event review_id d e =
    rw e (
      refl,
      (suppressed_review at goal event review_id, lookup-put_self review_id _ d.goal_reviews),
    )

abbrev reserved : String → Goal → HookEvent → String → Desk → Desk
reserved at goal event review_id d = record d {
  goal_reviews = put review_id (claimed_review at goal event review_id) d.goal_reviews;
}

claim_new-state :
    (at : String) (goal : Goal) (event : HookEvent) (review_id : String) (d : Desk)
    → is_exhausted goal.review_count goal.review_budget ≡ false
    → (claim_new at goal event review_id d).1
      ≡ (update_goal goal.id
          (counted goal.review_count event (claimed_review at goal event review_id))
          (reserved at goal event review_id d)).1
unfolding claim_new desk_primitives
claim_new-state at goal event review_id d e =
    elim (Outcome-cases
      (update_goal goal.id
        (counted goal.review_count event (claimed_review at goal event review_id))
        (reserved at goal event review_id d)).0) [
          | inl (u, f) ↦ rw (e, f) refl
          | inr (t, f) ↦ rw (e, f) refl
        ]

claim_new-IsClaimed :
    (at : String) (goal : Goal) (event : HookEvent) (review_id : String) (d : Desk)
    → IsClaimed review_id (claim_new at goal event review_id d).1
claim_new-IsClaimed at goal event review_id d =
    elim (Bool-cases (is_exhausted goal.review_count goal.review_budget)) [
      | inl e ↦ (claim_new-exhausted at goal event review_id d e).1
      | inr e ↦
          rw
            (
              claim_new-state at goal event review_id d e,
              update_goal-reviews goal.id
                  (counted goal.review_count event (claimed_review at goal event review_id))
                  (reserved at goal event review_id d),
            )
            (claimed_review at goal event review_id, lookup-put_self review_id _ d.goal_reviews)
    ]

claim_review-new :
    (at : String) (goal : Goal) (event : HookEvent) (review_id : String) (d : Desk)
    → lookup review_id d.goal_reviews ≡ none
    → claim_review at goal event review_id d ≡ claim_new at goal event review_id d
unfolding claim_review desk_primitives
claim_review-new at goal event review_id d e = rw e refl

claim_review-IsClaimed :
    (at : String) (goal : Goal) (event : HookEvent) (review_id : String) (d : Desk)
    → IsClaimed review_id (claim_review at goal event review_id d).1
claim_review-IsClaimed at goal event review_id d =
    elim (Option-cases (lookup review_id d.goal_reviews)) [
      | inl e ↦
          rw (claim_review-new at goal event review_id d e)
            (claim_new-IsClaimed at goal event review_id d)
      | inr (r, e) ↦ rw (claim_review-known at goal event review_id d (r, e)) (r, e)
    ]

-- After one claim of a review id, whatever came of it, a second claim of that id is refused and
-- changes nothing, for whichever goal and event it is made.
pub claim_review_twice :
    (at later : String) (goal goal' : Goal) (event event' : HookEvent) (review_id : String)
    (d : Desk)
    → claim_review later goal' event' review_id (claim_review at goal event review_id d).1
      ≡ (ok false, (claim_review at goal event review_id d).1)
claim_review_twice at later goal goal' event event' review_id d =
    claim_review-known later goal' event' review_id _
      (claim_review-IsClaimed at goal event review_id d)

-- The goal is counted once more than the claim has read, and is within its budget.
pub record IsCounted (goal : Goal) (d : Desk) : Type 0 where
  pub kept : Goal
  pub found : lookup goal.id d.longhorizon ≡ some kept
  pub one_more : kept.review_count ≡ some (suc (or_else goal.review_count 0))
  pub within :
      (budget : ℕ) → goal.review_budget ≡ some budget → or_else kept.review_count 0 ≤ budget

counted-IsCounted :
    (goal stored : Goal) (event : HookEvent) (review : Review) (d : Desk)
    → lookup goal.id d.longhorizon ≡ some stored
    → is_exhausted goal.review_count goal.review_budget ≡ false
    → IsCounted goal (update_goal goal.id (counted goal.review_count event review) d).1
unfolding update_goal desk_primitives
counted-IsCounted goal stored event review d found free = rw found (record {
  kept = counted goal.review_count event review stored;
  found = lookup-put_self goal.id _ d.longhorizon;
  one_more = refl;
  within = λ budget limit.
      let open_budget : leb budget (or_else goal.review_count 0) ≡ false = rw limit at free in
      ground arith;
})

update_goal-missing :
    (id : String) (patch : Goal → Goal) (d : Desk)
    → lookup id d.longhorizon ≡ none
    → (t : Fault) × ((update_goal id patch d).0 ≡ throws t)
unfolding update_goal desk_primitives
update_goal-missing id patch d e = rw e (_, refl)

claim_new-done :
    (at : String) (goal : Goal) (event : HookEvent) (review_id : String) (d : Desk)
    → lookup goal.id d.longhorizon ≡ none
    → is_exhausted goal.review_count goal.review_budget ≡ false
    → (t : Fault) × ((claim_new at goal event review_id d).0 ≡ throws t)
unfolding claim_new desk_primitives
claim_new-done at goal event review_id d missing free =
    let (t, f) =
      update_goal-missing goal.id
        (counted goal.review_count event (claimed_review at goal event review_id))
        (reserved at goal event review_id d) missing in
    (t, rw (free, f) refl)

-- A claim that succeeds counts one review more than the goal had, and a goal with a budget stays
-- within it.
pub claim_review-IsCounted :
    (at : String) (goal : Goal) (event : HookEvent) (review_id : String) (d : Desk)
    → (claim_review at goal event review_id d).0 ≡ ok true
    → IsCounted goal (claim_review at goal event review_id d).1
claim_review-IsCounted at goal event review_id d done =
    elim (Option-cases (lookup review_id d.goal_reviews)) [
      | inr (r, e) ↦
          let clash = rw (claim_review-known at goal event review_id d (r, e)) at done in cc
      | inl e ↦
          let started = claim_review-new at goal event review_id d e in
          let done' = rw started at done in
          rw started (elim (Bool-cases (is_exhausted goal.review_count goal.review_budget)) [
            | inl x ↦ let refused = (claim_new-exhausted at goal event review_id d x).0 in cc
            | inr x ↦ elim (Option-cases (lookup goal.id d.longhorizon)) [
              | inl missing ↦
                  let (t, thrown) = claim_new-done at goal event review_id d missing x in cc
              | inr (stored, found) ↦ rw (claim_new-state at goal event review_id d x) (
                  counted-IsCounted goal stored event (claimed_review at goal event review_id)
                    (reserved at goal event review_id d) found x)
            ]
          ])
    ]
