-- ===== src/Audit/Tests.antt =====
-- The theorems about the cleanup at concrete tables.
use newapi_usage.Audit.Reconcile.{tally}
use newapi_usage.Prelude.{
  ℕ, ◌<◌, ◌≤◌, ◌≡◌, refl, arith, true, [], ◌∷◌, ◌++◌, some, pos, codes, All, count_where,
  select_where, sum_by, sort_by, trim_space, is_space, text_eq,
}
use newapi_usage.Audit.Types.{queued, running, CleanupJob}
use newapi_usage.Audit.Cleanup.{Store, cleanups, with_cleanups, cleanup_entry_batch}
use newapi_usage.Audit.Cleanup.Lifecycle.{create_cleanup_job, active_reviews, active_cleanup_jobs}
use newapi_usage.Audit.Cleanup.Admission.{Covers, create_cleanup_job-created}
use newapi_usage.Audit.Cleanup.Race.{create_job_between-both_active}
use newapi_usage.Audit.Cleanup.Reconciled.{Counted, cleanup_entry_batch-Counted}
use newapi_usage.Audit.Cleanup.Run.{Ended, execute_cleanup_job, execute_cleanup_job-Ended}
use newapi_usage.Review.Types.{Status, EntryStatus, Job}
use newapi_usage.Review.Database.{AuditRow}
use newapi_usage.Review.Jobs.Create.{JobInput, JobSettings, create_job, create_job_between, created}
use newapi_usage.Review.Tests.Rows.{job_row, entry_row, tables, cleanup_row}

abbrev audited : ℕ → AuditRow
audited id = record {
  id = id;
  token_id = 7;
  created_at = id;
  model = codes "gpt";
  request_id = codes "r";
  bytes = 10;
}

-- A completed review job with two settled entries, the second of which continues the first; the
-- cleanup deletes the first five seconds.
abbrev store : Store
store = record {
  review =
      record (tables
        (record (job_row 1 Status.completed) { total_entries = 2; processed_entries = 2 } ∷ [])
        (entry_row 1 0 EntryStatus.done ∷ entry_row 8 1 EntryStatus.done ∷ [])) {
          audit_entries = audited 1 ∷ audited 8 ∷ [];
          cleanup_jobs = some [];
        };
  catalog =
      record { audit_entry_id = 1; created_at = 1 }
      ∷ record { audit_entry_id = 8; created_at = 8 }
      ∷ [];
  alerts = record { id = 1; request_id = codes "r"; request_at = 2; bytes = 5 } ∷ [];
  matches = 1 ∷ [];
  next_cleanup_id = 3;
}

abbrev estimated_job : CleanupJob
estimated_job = record (cleanup_row 3 queued) {
  estimated_entries = 1;
  estimated_alerts = 1;
  estimated_matches = 1;
  estimated_review_rows = 1;
  estimated_bytes = 99;
}

create_cleanup_job-created_example :
    (true ≡ true)
    × (0 < estimated_job.start_at)
    × (estimated_job.start_at ≤ estimated_job.end_at)
    × (pos estimated_job.start_at ≡ pos 1)
    × (pos estimated_job.end_at ≡ pos 5)
    × Covers store estimated_job.start_at estimated_job.end_at
    × (active_cleanup_jobs store ≡ 0)
    × (active_reviews store ≡ 0)
    × (estimated_job.status ≡ queued)
    × (estimated_job.id ≡ store.next_cleanup_id)
    × (cleanups (create_cleanup_job store 1 true 99 (pos 1) (pos 5)).0
        ≡ cleanups store ++ estimated_job ∷ [])
    × ((create_cleanup_job store 1 true 99 (pos 1) (pos 5)).0.review.jobs ≡ store.review.jobs)
unfolding create_cleanup_job select_where count_where
create_cleanup_job-created_example =
    create_cleanup_job-created store 1 true 99 (pos 1) (pos 5) estimated_job refl

abbrev input : JobInput
input = record {
  token_ids = pos 7 ∷ [];
  models = codes "gpt" ∷ [];
  start = pos 1;
  end = pos 9;
  role_mode = codes "user";
}

abbrev settings : JobSettings
settings = record {
  model = codes "judge";
  reasoning_effort = codes "low";
  concurrency = pos 5;
  config_hash = codes "cfg";
}

abbrev new_row : Job
new_row = record (job_row 10 Status.queued) { max_entry_id = 8; total_entries = 2 }

create_job_between-both_active_example :
    let t = (create_cleanup_job store 1 true 99 (pos 1) (pos 5)).0 in
    let r = create_job_between store.review store.review t.review 2 (some settings) input in
    let u : Store = record t { review = r.0 } in
    ((k : Job) × (r.1 ≡ created k)) × (0 < active_cleanup_jobs u) × (0 < active_reviews u)
unfolding create_cleanup_job create_job select_where count_where sort_by trim_space is_space text_eq
create_job_between-both_active_example =
    create_job_between-both_active store 1 2 true 99 (pos 1) (pos 5) estimated_job (some settings)
      input new_row refl refl

cleanup_entry_batch-Counted_example :
    let db = (cleanup_entry_batch 9 store (cleanup_row 1 running)).0.review in
    All (Counted db.entries) db.jobs
unfolding tally sum_by
cleanup_entry_batch-Counted_example =
    cleanup_entry_batch-Counted 9 store (cleanup_row 1 running) (refl, tt)

-- The store with the row of a job at work.
abbrev at_work : Store
at_work = record store { review = with_cleanups store.review (cleanup_row 1 running ∷ []) }

execute_cleanup_job-Ended_example :
    Ended (cleanup_row 1 running) at_work (execute_cleanup_job 9 (cleanup_row 1 running) 5 at_work)
execute_cleanup_job-Ended_example =
    execute_cleanup_job-Ended 9 (cleanup_row 1 running) 5 at_work (omega arith)
