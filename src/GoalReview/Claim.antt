-- ===== src/GoalReview/Claim.antt =====
-- src/goal-review.js: `onStop`, up to the review that it starts, and what it asks and claims. The
-- time that `now()` returns is an argument.
use codex_hooks.Base.{
  ℕ, suc, String, Bool, true, false, not, Option, none, some, List, [], ◌∷◌, ◌==◌, ◌&&◌, ◌||◌, leb,
  if◌then◌else◌, concat, keep, any, is_some, or_else, fault, ok, throws,
}
use codex_hooks.Base.Exec.{Exec, pure, raise, on_option, on_outcome, ◌>>=◌, ◌>>◌}
use codex_hooks.Base.Dict.{lookup, put, remove, values}
use codex_hooks.Protocol.Value.{get, is_text, null}
use codex_hooks.Protocol.Names.{HookKind, HookName}
use codex_hooks.Protocol.Hooks.{HookEvent, interrupt_suppression_key}
use codex_hooks.GoalReview.Desk.{Desk, Goal, Review, Subagent}

-- `sort` by the id, which is stable
unfoldable pub insert_goal : (String → String → Bool) → Goal → List Goal → List Goal
insert_goal text_le g [] = g ∷ []
insert_goal text_le g (x ∷ xs) =
    if text_le g.id x.id then g ∷ x ∷ xs else x ∷ insert_goal text_le g xs

unfoldable pub sort_goals : (String → String → Bool) → List Goal → List Goal
sort_goals text_le [] = []
sort_goals text_le (g ∷ gs) = insert_goal text_le g (sort_goals text_le gs)

abbrev pub is_enabled : Option Bool → Bool
is_enabled (some b) = b
is_enabled none = false

-- `record?.mode === "goal" && record.enabled === true`
abbrev pub is_active : Goal → Bool
is_active g = g.mode == "goal" && is_enabled g.enabled

-- The goal belongs to the session of the event.
abbrev pub is_goal_of : String → Goal → Bool
is_goal_of session_id g =
    is_text (get g.target "thread_id") session_id
    || is_text (get g.target "session_id") session_id
    || is_text g.owner_session_id session_id

-- `matching.length === 1 ? matching[0] : null`
abbrev pub only : List Goal → Option Goal
only (g ∷ []) = some g
only _ = none

-- `this.findGoal(event)`
unfoldable pub find_goal : (String → String → Bool) → HookEvent → Desk → Option Goal
find_goal text_le event d = only (
    keep (is_goal_of event.session_id) (sort_goals text_le (keep is_active (values d.longhorizon))))

-- `this.isReviewerStop(event)`
unfoldable pub is_reviewer_stop : HookEvent → Desk → Bool
is_reviewer_stop event d =
    any (λ (s : Subagent). is_text s.thread_id event.session_id && is_text s.kind "goal_reviewer")
      (values d.subagents)

-- `this.isSuppressed(event)`: a suppression is used up by the stop that it suppresses
unfoldable pub is_suppressed : HookEvent → Exec Desk Bool
is_suppressed event d =
    let exact = interrupt_suppression_key event.session_id event.turn_id in
    let wildcard = interrupt_suppression_key event.session_id none in
    if is_some (lookup exact d.stop_suppression) || is_some (lookup wildcard d.stop_suppression)
    then (
      ok true,
      record d { stop_suppression = remove wildcard (remove exact d.stop_suppression) },
    )
    else (ok false, d)

-- `reviewIdentity(goal, event)`
unfoldable pub review_identity : Goal → HookEvent → String
review_identity goal event =
    concat (
      "goal-review:"
      ∷ goal.id
      ∷ ":"
      ∷ event.session_id
      ∷ ":"
      ∷ or_else event.turn_id "no-turn"
      ∷ [])

unfoldable pub get_review : String → Exec Desk (Option Review)
get_review review_id d = (ok (lookup review_id d.goal_reviews), d)

unfoldable pub put_review : Review → Exec Desk (Unit {0})
put_review r d = (ok tt, record d { goal_reviews = put r.review_id r d.goal_reviews })

unfoldable pub get_goal : String → Exec Desk (Option Goal)
get_goal id d = (ok (lookup id d.longhorizon), d)

unfoldable pub put_goal : String → Goal → Exec Desk (Unit {0})
put_goal id g d = (ok tt, record d { longhorizon = put id g d.longhorizon })

-- `this.updateGoal(goalId, patch)`
unfoldable pub update_goal : String → (Goal → Goal) → Exec Desk (Unit {0})
update_goal id patch = do
  found ← get_goal id
  on_option found (raise (fault (concat ("longhorizon goal disappeared: " ∷ id ∷ []))))
      (λ g. put_goal id (patch g))

-- `this.isGoalActive(goalId)`
unfoldable pub is_goal_active : String → Desk → Bool
is_goal_active id d = elim (lookup id d.longhorizon) [ none ↦ false | some g ↦ is_active g ]

-- `this.updateReview(reviewId, patch)`
unfoldable pub update_review : String → (Review → Review) → Exec Desk (Unit {0})
update_review review_id patch = do
  found ← get_review review_id
  on_option found (raise (fault (concat ("goal review disappeared: " ∷ review_id ∷ []))))
      (λ r d. (ok tt, record d { goal_reviews = put review_id (patch r) d.goal_reviews }))

-- `reviewBudget != null && reviewCount >= reviewBudget`
abbrev pub is_exhausted : Option ℕ → Option ℕ → Bool
is_exhausted count none = false
is_exhausted count (some budget) = leb budget (or_else count 0)

abbrev pub suppressed_review : String → Goal → HookEvent → String → Review
suppressed_review at goal event review_id = record {
  review_id = review_id;
  goal_id = goal.id;
  state = "suppressed";
  reason = some "review_budget_exhausted";
  source_session_id = event.session_id;
  source_turn_id = event.turn_id;
  source_cwd = none;
  goal_file = null;
  target = null;
  claimed_at = at;
}

abbrev pub claimed_review : String → Goal → HookEvent → String → Review
claimed_review at goal event review_id = record {
  review_id = review_id;
  goal_id = goal.id;
  state = "claimed";
  reason = none;
  source_session_id = event.session_id;
  source_turn_id = event.turn_id;
  source_cwd = some event.cwd;
  goal_file = goal.goal_file;
  target = goal.target;
  claimed_at = at;
}

-- The patch of a claimed goal, with the count that the claim has read.
abbrev pub counted : Option ℕ → HookEvent → Review → Goal → Goal
counted count event review g = record g {
  review_count = some (suc (or_else count 0));
  last_turn_id = event.turn_id;
  last_event_key = review.review_id;
  last_review_state = "claimed";
  last_review_receipt = some review;
}

-- `claimReview`, for an id without a review
unfoldable pub claim_new : String → Goal → HookEvent → String → Exec Desk Bool
claim_new at goal event review_id =
    if is_exhausted goal.review_count goal.review_budget
    then (do put_review (suppressed_review at goal event review_id); pure false)
    else (do
      let review = claimed_review at goal event review_id
      put_review review
      update_goal goal.id (counted goal.review_count event review)
      pure true)

-- `this.claimReview(goal, event, reviewId)`: whether the review was claimed
unfoldable pub claim_review : String → Goal → HookEvent → String → Exec Desk Bool
claim_review at goal event review_id = do
  existing ← get_review review_id
  on_option existing (claim_new at goal event review_id) (λ review. pure false)

abbrev pub is_stop : HookKind → HookName → Bool
is_stop HookKind.stop HookName.stop = true
is_stop _ _ = false

-- The end of `onStop`: the goal whose review is started, if it was claimed.
unfoldable pub start_review : String → HookEvent → Goal → Exec Desk (Option Goal)
start_review at event goal =
    on_outcome (claim_review at goal event (review_identity goal event)) (λ outcome. elim outcome [
      | ok claimed ↦ pure (if claimed then some goal else none)
      | throws e ↦ pure none
    ])

unfoldable pub stop_goal : Option Goal → String → HookEvent → Exec Desk (Option Goal)
stop_goal none at event = pure none
stop_goal (some goal) at event = start_review at event goal

-- `this.onStop(event, kind)`: the goal whose review `runReview` starts
unfoldable pub on_stop :
    (String → String → Bool) → String → HookEvent → HookKind → Exec Desk (Option Goal)
on_stop text_le at event kind d =
    if d.closed
      || not (is_stop kind event.hook_event_name)
      || event.stop_hook_active
      || not d.stopless_enabled
      || is_reviewer_stop event d
    then (ok none, d)
    else (do
      suppressed ← is_suppressed event
      if suppressed then pure none else (λ e. stop_goal (find_goal text_le event e) at event e))
        d

-- Opening this opens the primitive methods.
unfoldable pub desk_primitives : Unit {0}
unfolding ◌>>=◌ get_review put_review get_goal put_goal
desk_primitives = tt
