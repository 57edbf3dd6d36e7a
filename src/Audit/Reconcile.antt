-- ===== src/Audit/Reconcile.antt =====
-- reconcileReviewJob of internal/audit/cleanup.go: a cleanup that deletes entries of a review job
-- counts the job's columns anew.
use newapi_usage.Prelude.{
  ℕ, Bool, true, false, not, ◌&&◌, bool_int, is_blank, ltb, ◌==◌, if◌then◌else◌, List, update_where,
  sum_by,
}
use newapi_usage.Review.Types.{Job, Entry, EntryStatus, done, is_settled, is_flagged, is_error}
use newapi_usage.Review.Database.{Database}
use newapi_usage.Review.Jobs.{has_id}

-- The ten counting columns of a job.
pub record Tally : Type 0 where
  pub total : ℕ
  pub processed : ℕ
  pub units : ℕ
  pub reviewed : ℕ
  pub hits : ℕ
  pub flagged : ℕ
  pub errors : ℕ
  pub chars : ℕ
  pub prompt : ℕ
  pub completion : ℕ

abbrev pub is_done : EntryStatus → Bool
is_done done = true
is_done _ = false

abbrev pub in_job : ℕ → Entry → Bool
in_job id e = e.job_id == id

abbrev pub of_job : ℕ → (Entry → ℕ) → Entry → ℕ
of_job id column e = if in_job id e then column e else 0

abbrev pub is_reviewed : Entry → Bool
is_reviewed e = is_done e.status && (not e.cache_hit && ltb 0 e.result_id)

-- The ten subqueries.
unfoldable pub tally : ℕ → List Entry → Tally
tally id es = record {
  total = sum_by (of_job id (λ e. 1)) es;
  processed = sum_by (of_job id (λ e. bool_int (is_settled e.status))) es;
  units = sum_by (of_job id (λ e. bool_int (not (is_blank e.content_hash)))) es;
  reviewed = sum_by (of_job id (λ e. bool_int (is_reviewed e))) es;
  hits = sum_by (of_job id (λ e. bool_int e.cache_hit)) es;
  flagged =
      sum_by (of_job id (λ e. bool_int (is_settled e.status && is_flagged e.effective_decision)))
        es;
  errors = sum_by (of_job id (λ e. bool_int (is_error e.status))) es;
  chars = sum_by (of_job id (λ e. e.content_chars)) es;
  prompt = sum_by (of_job id (λ e. e.prompt_tokens)) es;
  completion = sum_by (of_job id (λ e. e.completion_tokens)) es;
}

abbrev pub with_tally : ℕ → Tally → Job → Job
with_tally now t j = record j {
  total_entries = t.total;
  processed_entries = t.processed;
  review_units = t.units;
  reviewed_units = t.reviewed;
  cache_hits = t.hits;
  flagged_entries = t.flagged;
  error_entries = t.errors;
  estimated_chars = t.chars;
  prompt_tokens = t.prompt;
  completion_tokens = t.completion;
  updated_at = now;
}

unfoldable pub reconcile_review_job : Database → ℕ → ℕ → Database
unfolding tally
reconcile_review_job db now id = record db {
  jobs = update_where (has_id id) (with_tally now (tally id db.entries)) db.jobs;
}
