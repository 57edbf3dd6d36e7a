-- ===== src/Review/Worker.antt =====
-- internal/review/worker.go: a worker that reviews the entries of a job.
pub mod Calls
pub mod Selection
pub mod Content
pub mod Settle
pub mod Loop
pub mod Retry
pub mod Ready
pub mod Counters
pub mod Updates
pub mod Tables
pub mod Kept
pub mod Progress
pub mod Sound
pub mod Twice
