-- ===== src/Review/Tests/Jobs.antt =====
-- The theorems about the life of a job at concrete tables.
use newapi_usage.Prelude.{
  ℕ, ◌<◌, ◌≤◌, ◌≡◌, ◌≢◌, ◌⊎◌, ◌↔◌, refl, arith, [], ◌∷◌, ◌++◌, some, none, pos, negsuc, codes, All,
  In, length, is_space, text_eq, find_where, count_where, sort_by, trim_space, select_where,
}
use newapi_usage.Review.Types.{queued, claimed, running, paused, canceled, failed, Job}
use newapi_usage.Review.Database.{Database}
use newapi_usage.Audit.Types.{CleanupStatus}
use newapi_usage.Review.Jobs.{
  job, set_job_status, pausable, resume_job, fail_job, claim_next_queued_job, found,
  cannot_transition, not_found,
}
use newapi_usage.Review.Jobs.Create.{JobInput, JobSettings, create_job, active_cleanups}
use newapi_usage.Review.Jobs.Acts.{act, act_all, pauses, resumes, claims, requeues}
use newapi_usage.Review.Jobs.Transitions.{Moved, Entered, act-Moved}
use newapi_usage.Review.Jobs.Final.{Stays, act_all-final}
use newapi_usage.Review.Jobs.Claims.{claim-oldest}
use newapi_usage.Review.Jobs.Keys.{Ascending, normalize_token_ids-exact}
use newapi_usage.Review.Jobs.Input.{normalize_token_ids}
use newapi_usage.Review.Jobs.Exclusion.{
  set_job_status-one_row, set_job_status-refused, create_job-created, fail_job-resume,
  resume_job-during_cleanup,
}
use newapi_usage.Review.Tests.Rows.{job_row, tables, cleanup_row}

abbrev two_jobs : Database
two_jobs =
    tables (job_row 3 queued ∷ job_row 2 running ∷ job_row 4 queued ∷ job_row 5 canceled ∷ []) []

act-Moved_example :
    All (λ j. Moved two_jobs.jobs j ⊎ Entered two_jobs j) (act two_jobs (5, pauses 2)).jobs
act-Moved_example = act-Moved two_jobs 5 (pauses 2)

act_all-final_example :
    Stays 5 canceled (act_all two_jobs ((5, resumes 5) ∷ (6, claims) ∷ (7, requeues) ∷ [])).jobs
act_all-final_example =
    act_all-final 5 canceled two_jobs ((5, resumes 5) ∷ (6, claims) ∷ (7, requeues) ∷ []) refl
      (omega arith) (refl, (refl, (refl, tt)))
      (
        (λ e. absurd (omega (arith, e))),
        ((λ e. absurd (omega (arith, e))), ((λ e. absurd (omega (arith, e))), ((λ e. refl), tt))),
      )

claim-oldest_example :
    ((old : Job) × In old two_jobs.jobs
      × (old.status ≡ queued)
      × (job_row 3 claimed ≡ record old { status = claimed }))
    × ((k : Job) → In k two_jobs.jobs → k.status ≡ queued → 3 ≤ k.id)
    × All (λ (k : Job). k.id ≡ 3 → k.status ≢ queued) (claim_next_queued_job two_jobs 1).0.jobs
unfolding claim_next_queued_job sort_by select_where
claim-oldest_example = claim-oldest two_jobs 1 (job_row 3 claimed) refl

abbrev no_queue : Database
no_queue = tables (job_row 2 running ∷ []) []

set_job_status-one_row_example :
    let r = set_job_status two_jobs 5 2 paused pausable in
    ((k : Job) × (r.1 ≡ found k)
      × (job r.0 2 ≡ some k)
      × (paused ≡ queued → k.completed_at ≡ 0)
      × (paused ≢ queued → k.completed_at ≡ (job_row 2 running).completed_at)
      × (k ≡ record (job_row 2 running) {
        status = paused;
        error_text = [];
        completed_at = k.completed_at;
        updated_at = 5;
      }))
    × ((i : ℕ) → i ≢ 2 → job r.0 i ≡ job two_jobs i)
unfolding job find_where
set_job_status-one_row_example =
    set_job_status-one_row two_jobs 5 2 paused pausable (job_row 2 running) refl refl

set_job_status-refused_example :
    ((set_job_status two_jobs 5 5 paused pausable).0 ≡ two_jobs)
    × ((j : Job)
        → job two_jobs 5 ≡ some j
        → (set_job_status two_jobs 5 5 paused pausable).1 ≡ cannot_transition)
    × (job two_jobs 5 ≡ none → (set_job_status two_jobs 5 5 paused pausable).1 ≡ not_found)
set_job_status-refused_example = set_job_status-refused two_jobs 5 5 paused pausable (
  (λ e. absurd (omega (arith, e))),
  ((λ e. absurd (omega (arith, e))), ((λ e. absurd (omega (arith, e))), ((λ e. refl), tt))),
)

abbrev input : JobInput
input = record {
  token_ids = pos 7 ∷ negsuc 0 ∷ pos 7 ∷ [];
  models = codes "gpt" ∷ [];
  start = pos 1;
  end = pos 9;
  role_mode = codes "user";
}

abbrev settings : JobSettings
settings = record {
  model = codes "judge";
  reasoning_effort = codes "low";
  concurrency = pos 5;
  config_hash = codes "cfg";
}

abbrev new_row : Job
new_row = record (job_row 10 queued) { max_entry_id = 0; total_entries = 0 }

create_job-created_example :
    (active_cleanups two_jobs ≡ 0)
    × (0 < length new_row.token_ids)
    × (length new_row.token_ids ≤ 500)
    × (0 < length new_row.models)
    × (length new_row.models ≤ 500)
    × (0 < new_row.start)
    × (new_row.start ≤ new_row.end)
    × (new_row.status ≡ queued)
    × (new_row.id ≡ two_jobs.next_job_id)
    × ((create_job two_jobs 1 (some settings) input).0.jobs ≡ two_jobs.jobs ++ new_row ∷ [])
unfolding create_job sort_by trim_space is_space text_eq select_where
create_job-created_example = create_job-created two_jobs 1 (some settings) input new_row refl

normalize_token_ids-exact_example :
    Ascending (normalize_token_ids (pos 7 ∷ negsuc 0 ∷ pos 3 ∷ []))
    × ((n : ℕ)
        → In n (normalize_token_ids (pos 7 ∷ negsuc 0 ∷ pos 3 ∷ []))
          ↔ ((0 < n) × In (pos n) (pos 7 ∷ negsuc 0 ∷ pos 3 ∷ [])))
normalize_token_ids-exact_example = normalize_token_ids-exact (pos 7 ∷ negsuc 0 ∷ pos 3 ∷ [])

fail_job-resume_example :
    (k : Job) × ((resume_job (fail_job two_jobs 5 5 (codes "late")) 6 5).1 ≡ found k)
    × (job (resume_job (fail_job two_jobs 5 5 (codes "late")) 6 5).0 5 ≡ some k)
    × (k.status ≡ queued)
unfolding job find_where
fail_job-resume_example = fail_job-resume two_jobs 5 6 5 (codes "late") (job_row 5 canceled) refl

abbrev cleaning : Database
cleaning = record (tables (job_row 1 failed ∷ []) []) {
  cleanup_jobs = some (cleanup_row 1 CleanupStatus.running ∷ []);
}

resume_job-during_cleanup_example :
    (0 < active_cleanups (resume_job cleaning 5 1).0)
    × ((k : Job) × (job (resume_job cleaning 5 1).0 1 ≡ some k) × (k.status ≡ queued))
unfolding job find_where count_where
resume_job-during_cleanup_example =
    resume_job-during_cleanup cleaning 5 1 (job_row 1 failed) refl refl (omega arith)
