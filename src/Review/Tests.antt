-- ===== src/Review/Tests.antt =====
-- The theorems about the review jobs at concrete inputs.
pub mod Rows
pub mod Jobs
pub mod Planner
pub mod Plan
pub mod Worker
