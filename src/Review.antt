-- ===== src/Review.antt =====
-- The package internal/review: review jobs over the audited requests.
pub mod Types
pub mod Decision
pub mod Planner
pub mod Database
pub mod Jobs
pub mod Worker
pub mod Plan
pub mod Tests
