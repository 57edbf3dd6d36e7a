-- ===== src/Audit/Cleanup.antt =====
-- The cleanup jobs of internal/audit/cleanup.go: their creation, cancellation and claim, the batches
-- that delete a range of the audited requests with all that depends on it, and the loop of a job.
-- Pauses between batches and the sizes that an estimate adds up are not modelled.
pub mod Lifecycle
pub mod Admission
pub mod Race
pub mod Reconciled
pub mod Asked
pub mod Run
use newapi_usage.Prelude.{
  ℕ, zero, suc, ◌+◌, Bool, true, false, not, ◌&&◌, ◌||◌, Text, is_blank, List, [], ◌∷◌, ◌++◌, map,
  Option, none, some, ltb, leb, ◌==◌, if◌then◌else◌, length, take, update_where, select_where,
  delete_where, find_where, exists_where, count_where, sum_by, sort_by,
}
use newapi_usage.Audit.Types.{
  CleanupStatus, queued, running, completed, canceled, failed, CleanupJob, is_active_cleanup,
}
use newapi_usage.Audit.Reconcile.{reconcile_review_job}
use newapi_usage.Review.Types.{Status, Job, Entry}
use newapi_usage.Review.Database.{Database, AuditRow}
use newapi_usage.Review.Jobs.Input.{contains_id, contains_text}

-- A row of audit_cleanup_entries.
pub record CatalogRow : Type 0 where
  pub audit_entry_id : ℕ
  pub created_at : ℕ

-- What the cleanup reads of audit_security_alerts; `bytes` is the length of its texts.
pub record Alert : Type 0 where
  pub id : ℕ
  pub request_id : Text
  pub request_at : ℕ
  pub bytes : ℕ

-- The tables: `matches` is the column audit_entry_id of log_audit_matches, and `review` the tables of
-- the review with audit_entries and audit_cleanup_jobs.
pub record Store : Type 0 where
  pub review : Database
  pub catalog : List CatalogRow
  pub alerts : List Alert
  pub matches : List ℕ
  pub next_cleanup_id : ℕ

abbrev pub rows_of : Option (List CleanupJob) → List CleanupJob
rows_of none = []
rows_of (some js) = js

abbrev pub cleanups : Store → List CleanupJob
cleanups s = rows_of s.review.cleanup_jobs

-- A write to audit_cleanup_jobs.
abbrev pub with_cleanups : Database → List CleanupJob → Database
with_cleanups db js = record db { cleanup_jobs = some js }

abbrev pub in_cleanup : CleanupJob → ℕ → Bool
in_cleanup j at = leb j.start_at at && leb at j.end_at

abbrev pub catalog_order : CatalogRow → CatalogRow → Bool
catalog_order a b =
    ltb a.created_at b.created_at
    || (a.created_at == b.created_at && leb a.audit_entry_id b.audit_entry_id)

-- JOIN audit_entries e ON e.id = c.audit_entry_id
unfoldable pub join_entries : List AuditRow → List CatalogRow → List AuditRow
join_entries rows [] = []
join_entries rows (c ∷ cs) =
    select_where (λ r. r.id == c.audit_entry_id) rows ++ join_entries rows cs

abbrev pub cleanup_entry_batch_size : ℕ
cleanup_entry_batch_size = 200

abbrev pub cleanup_alert_batch_size : ℕ
cleanup_alert_batch_size = 500

-- The rows of the next batch of a job.
unfoldable pub cleanup_entry_rows : Store → CleanupJob → List AuditRow
unfolding join_entries
cleanup_entry_rows s j = take cleanup_entry_batch_size (
    join_entries s.review.audit_entries (
      sort_by catalog_order
        (select_where (λ (c : CatalogRow). in_cleanup j c.created_at) s.catalog)))

-- SELECT DISTINCT job_id
unfoldable pub cleanup_review_job_ids : List ℕ → List Entry → List ℕ → List ℕ
cleanup_review_job_ids ids [] seen = []
cleanup_review_job_ids ids (e ∷ es) seen =
    let skip = cleanup_review_job_ids ids es seen in
    let keep = cleanup_review_job_ids ids es (e.job_id ∷ seen) in
    if contains_id ids e.audit_entry_id && not (contains_id seen e.job_id)
    then e.job_id ∷ keep
    else skip

unfoldable pub reconcile_all : ℕ → Database → List ℕ → Database
unfolding reconcile_review_job
reconcile_all now db [] = db
reconcile_all now db (id ∷ ids) = reconcile_all now (reconcile_review_job db now id) ids

-- UPDATE review_job_entries SET parent_audit_entry_id = 0 WHERE …
abbrev pub without_parent : Entry → Entry
without_parent e = record e { parent_audit_entry_id = 0 }

abbrev pub is_audit_of : List ℕ → Entry → Bool
is_audit_of ids e = contains_id ids e.audit_entry_id

-- The entries of the review after the two statements that a batch makes on them.
unfoldable pub without_entries : List ℕ → List Entry → List Entry
without_entries ids es =
    delete_where (is_audit_of ids)
      (update_where (λ e. contains_id ids e.parent_audit_entry_id) without_parent es)

unfoldable pub clean_review : ℕ → List ℕ → Database → Database
unfolding cleanup_review_job_ids reconcile_all without_entries
clean_review now ids db =
    reconcile_all now (record db { entries = without_entries ids db.entries })
      (cleanup_review_job_ids ids db.entries [])

abbrev pub request_ids : List AuditRow → List Text
request_ids [] = []
request_ids (r ∷ rs) =
    if is_blank r.request_id then request_ids rs else r.request_id ∷ request_ids rs

abbrev pub alert_of : List AuditRow → Alert → Bool
alert_of batch a = contains_text (request_ids batch) a.request_id

abbrev pub has_cleanup_id : ℕ → CleanupJob → Bool
has_cleanup_id id j = j.id == id

-- The counters that a batch of entries adds to.
unfoldable pub counted_cleanup : ℕ → Store → List AuditRow → List ℕ → CleanupJob → CleanupJob
counted_cleanup now s batch ids j = record j {
  deleted_entries = j.deleted_entries + length batch;
  deleted_alerts = j.deleted_alerts + count_where (alert_of batch) s.alerts;
  deleted_matches = j.deleted_matches + count_where (contains_id ids) s.matches;
  deleted_review_rows = j.deleted_review_rows + count_where (is_audit_of ids) s.review.entries;
  deleted_bytes = j.deleted_bytes + sum_by (λ (r : AuditRow). r.bytes + 384) batch;
  updated_at = now;
}

-- The transaction of cleanupEntryBatch on a batch that is not empty, where the tables of the review
-- exist.
unfoldable pub delete_entries : ℕ → Store → CleanupJob → List AuditRow → Store
unfolding clean_review counted_cleanup
delete_entries now s j batch =
    let ids = map (λ (r : AuditRow). r.id) batch in
    let db = clean_review now ids s.review in
    record s {
      review = record db {
        audit_entries = delete_where (λ (r : AuditRow). contains_id ids r.id) db.audit_entries;
        cleanup_jobs =
            some
              (update_where (has_cleanup_id j.id) (counted_cleanup now s batch ids) (cleanups s));
      };
      catalog = delete_where (λ (c : CatalogRow). contains_id ids c.audit_entry_id) s.catalog;
      alerts = delete_where (alert_of batch) s.alerts;
      matches = delete_where (contains_id ids) s.matches;
    }

unfoldable pub cleanup_entry_batch : ℕ → Store → CleanupJob → Store × ℕ
unfolding cleanup_entry_rows delete_entries
cleanup_entry_batch now s j = elim (cleanup_entry_rows s j) [
  | [] ↦ (s, 0)
  | r ∷ rs ↦ (delete_entries now s j (r ∷ rs), length (r ∷ rs))
]

abbrev pub alert_order : Alert → Alert → Bool
alert_order a b = ltb a.request_at b.request_at || (a.request_at == b.request_at && leb a.id b.id)

unfoldable pub cleanup_alert_rows : Store → CleanupJob → List Alert
cleanup_alert_rows s j =
    take cleanup_alert_batch_size
      (sort_by alert_order (select_where (λ (a : Alert). in_cleanup j a.request_at) s.alerts))

unfoldable pub counted_alerts : ℕ → Store → List Alert → List ℕ → CleanupJob → CleanupJob
counted_alerts now s batch ids c = record c {
  deleted_alerts = c.deleted_alerts + count_where (λ (a : Alert). contains_id ids a.id) s.alerts;
  deleted_bytes = c.deleted_bytes + sum_by (λ (a : Alert). a.bytes + 256) batch;
  updated_at = now;
}

unfoldable pub delete_alerts : ℕ → Store → CleanupJob → List Alert → Store
unfolding counted_alerts
delete_alerts now s j batch =
    let ids = map (λ (a : Alert). a.id) batch in
    record s {
      alerts = delete_where (λ (a : Alert). contains_id ids a.id) s.alerts;
      review =
          with_cleanups s.review
            (update_where (has_cleanup_id j.id) (counted_alerts now s batch ids) (cleanups s));
    }

unfoldable pub cleanup_alert_batch : ℕ → Store → CleanupJob → Store × ℕ
unfolding cleanup_alert_rows delete_alerts
cleanup_alert_batch now s j = elim (cleanup_alert_rows s j) [
  | [] ↦ (s, 0)
  | a ∷ as_ ↦ (delete_alerts now s j (a ∷ as_), length (a ∷ as_))
]
