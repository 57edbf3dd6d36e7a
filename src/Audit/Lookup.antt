-- ===== src/Audit/Lookup.antt =====
-- internal/audit/index.go: which audited request belongs to a line of the usage log. Times are
-- integers within int64; the ids and the limit, which the callers read from tables, are natural
-- numbers. A lookup sees the tables as they are when it starts.
pub mod Filter
pub mod Candidate
pub mod Answer
pub mod ClientInfo
pub mod Best
pub mod Sorted
pub mod Scope
pub mod Window
pub mod Agreement
pub mod Cached
pub mod Single
pub mod Tests
