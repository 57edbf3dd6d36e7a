-- ===== src/Audit/Types.antt =====
-- internal/audit/types.go: the values that other packages read, and the rows of
-- internal/audit/index.go that they share.
use newapi_usage.Prelude.{ℕ, Text, Bool, true, false}

pub record Message : Type 0 where
  pub role : Text
  pub content : Text

-- CleanupStatusQueued and the other four of internal/audit/cleanup.go.
pub data CleanupStatus : Type 0 where
  queued running completed canceled failed : CleanupStatus

-- status IN ('queued', 'running')
abbrev pub is_active_cleanup : CleanupStatus → Bool
is_active_cleanup queued = true
is_active_cleanup running = true
is_active_cleanup _ = false

-- A row of audit_cleanup_jobs.
pub record CleanupJob : Type 0 where
  pub id : ℕ
  pub start_at : ℕ
  pub end_at : ℕ
  pub status : CleanupStatus
  pub estimated_entries : ℕ
  pub estimated_alerts : ℕ
  pub estimated_matches : ℕ
  pub estimated_review_rows : ℕ
  pub estimated_bytes : ℕ
  pub deleted_entries : ℕ
  pub deleted_alerts : ℕ
  pub deleted_matches : ℕ
  pub deleted_review_rows : ℕ
  pub deleted_bytes : ℕ
  pub cancel_requested : Bool
  pub error_text : Text
  pub created_at : ℕ
  pub started_at : ℕ
  pub completed_at : ℕ
  pub updated_at : ℕ
