-- ===== src/GoalReview.antt =====
-- src/goal-review.js: the claim of a review, the report of a reviewer and the feedback made of it.
pub mod Report
pub mod Evaluate
pub mod Feedback
pub mod Passes
pub mod Desk
pub mod Claim
pub mod Prompt
pub mod Budget
pub mod Suppression
mod Tests
mod ClaimTests
