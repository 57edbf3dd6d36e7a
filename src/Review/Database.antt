-- ===== src/Review/Database.antt =====
-- The SQLite tables that internal/review/schema.go creates, and the table of the cleanup jobs that
-- internal/review/jobs.go reads. A statement is one function; the program has one connection, so
-- statements do not overlap. Statements that fail in the engine are not modelled.
use newapi_usage.Prelude.{ℕ, List, Option, Text}
use newapi_usage.Audit.Types.{CleanupJob}
use newapi_usage.Review.Types.{Job, Entry, Result}

-- What internal/review and the cleanup read of audit_entries; `bytes` is the length of the bodies.
pub record AuditRow : Type 0 where
  pub id : ℕ
  pub token_id : ℕ
  pub created_at : ℕ
  pub model : Text
  pub request_id : Text
  pub bytes : ℕ

pub record Database : Type 0 where
  pub jobs : List Job
  pub entries : List Entry
  pub results : List Result
  pub audit_entries : List AuditRow
  -- The rows of audit_cleanup_jobs, or `none` where the table does not exist.
  pub cleanup_jobs : Option (List CleanupJob)
  -- What AUTOINCREMENT gives out next.
  pub next_job_id : ℕ
  pub next_entry_id : ℕ
  pub next_result_id : ℕ
