-- ===== src/Review/Jobs.antt =====
-- internal/review/jobs.go: the calls that pause, resume, cancel and delete review jobs, and the
-- statements of internal/review/worker.go and manager.go that move a job along. The time in
-- seconds is an argument.
pub mod Input
pub mod Create
pub mod Keys
pub mod Acts
pub mod Transitions
pub mod Final
pub mod Claims
pub mod Exclusion
pub mod Lists
use newapi_usage.Prelude.{
  ℕ, zero, suc, ◌+◌, ◌≡◌, Bool, true, false, ◌&&◌, ◌||◌, Text, codes, text_eq, trim_space, is_blank,
  List, [], ◌∷◌, ◌++◌, Option, none, some, ℤ, pos, pos_part, leb_ℤ, ltb_ℤ, ltb, leb, ◌==◌,
  if◌then◌else◌, length, update_where, select_where, delete_where, find_where, count_where, sort_by,
}
use newapi_usage.Review.Types.{
  Status, queued, claimed, planning, running, paused, completed, canceled, failed, RoleMode, user,
  user_tool, all, Job, is_queued, is_running,
}
use newapi_usage.Review.Database.{Database}
use Input.{normalize_token_ids, normalize_models, normalize_role_mode, contains_id, contains_text}

abbrev pub has_id : ℕ → Job → Bool
has_id id j = j.id == id

unfoldable pub job : Database → ℕ → Option Job
job db id = find_where (has_id id) db.jobs

pub data JobResult : Type 0 where
  found : Job → JobResult
  not_found : JobResult
  cannot_transition : JobResult

abbrev pub lookup_result : Option Job → JobResult
lookup_result (some j) = found j
lookup_result none = not_found

-- The row that setJobStatus writes.
abbrev pub with_status : ℕ → Status → Job → Job
with_status now s j = record j {
  status = s;
  completed_at = if is_queued s then 0 else j.completed_at;
  error_text = [];
  updated_at = now;
}

abbrev pub allowed_job : ℕ → (Status → Bool) → Job → Bool
allowed_job id allowed j = j.id == id && allowed j.status

unfoldable pub set_job_status : Database → ℕ → ℕ → Status → (Status → Bool) → Database × JobResult
unfolding job
set_job_status db now id s allowed =
    let changed = length (select_where (allowed_job id allowed) db.jobs) in
    let db' = record db {
      jobs = update_where (allowed_job id allowed) (with_status now s) db.jobs;
    } in
    if changed == 0
    then (db', elim (job db' id) [ none ↦ not_found | some _ ↦ cannot_transition ])
    else (db', lookup_result (job db' id))

abbrev pub pausable : Status → Bool
pausable queued = true
pausable claimed = true
pausable planning = true
pausable running = true
pausable _ = false

abbrev pub resumable : Status → Bool
resumable paused = true
resumable failed = true
resumable _ = false

abbrev pub cancelable : Status → Bool
cancelable completed = false
cancelable canceled = false
cancelable _ = true

unfoldable pub pause_job : Database → ℕ → ℕ → Database × JobResult
unfolding set_job_status
pause_job db now id = set_job_status db now id paused pausable

unfoldable pub resume_job : Database → ℕ → ℕ → Database × JobResult
unfolding set_job_status
resume_job db now id = set_job_status db now id queued resumable

unfoldable pub cancel_job : Database → ℕ → ℕ → Database × JobResult
unfolding set_job_status
cancel_job db now id = set_job_status db now id canceled cancelable

pub data DeleteResult : Type 0 where
  deleted missing active : DeleteResult

abbrev pub is_over : Status → Bool
is_over completed = true
is_over canceled = true
is_over failed = true
is_over _ = false

-- The transaction of DeleteJob.
unfoldable pub delete_job : Database → ℕ → Database × DeleteResult
unfolding job
delete_job db id = elim (job db id) [
  | none ↦ (db, missing)
  | some j ↦
      if is_over j.status
      then (
        record db {
          entries = delete_where (λ e. e.job_id == id) db.entries;
          jobs = delete_where (has_id id) db.jobs;
        },
        deleted,
      )
      else (db, active)
]

-- ORDER BY id LIMIT 1
unfoldable pub first_row : List Job → Option Job
first_row [] = none
first_row (j ∷ js) = some j

abbrev pub by_id : Job → Job → Bool
by_id a b = leb a.id b.id

-- The transaction of claimNextQueuedJob; `none` is sql.ErrNoRows.
unfoldable pub claim_next_queued_job : Database → ℕ → Database × Option Job
unfolding first_row
claim_next_queued_job db now =
    elim (first_row (sort_by by_id (select_where (λ j. is_queued j.status) db.jobs))) [
      | none ↦ (db, none)
      | some j ↦
          let still = λ (r : Job). r.id == j.id && is_queued r.status in
          if length (select_where still db.jobs) == 0 then (db, none) else (
            record db {
              jobs =
                  update_where still (λ r. record r { status = claimed; updated_at = now }) db.jobs;
            },
            some (record j { status = claimed }),
          )
    ]

abbrev pub is_claimed_or_busy : Status → Bool
is_claimed_or_busy claimed = true
is_claimed_or_busy planning = true
is_claimed_or_busy running = true
is_claimed_or_busy _ = false

-- The statement of Open that puts the jobs of a stopped process back into the queue.
unfoldable pub requeue_interrupted : Database → ℕ → Database
requeue_interrupted db now = record db {
  jobs =
      update_where (λ j. is_claimed_or_busy j.status)
        (λ j. record j { status = queued; updated_at = now }) db.jobs;
}

abbrev is_claimed : Status → Bool
is_claimed claimed = true
is_claimed _ = false

abbrev is_claimed_or_planning : Status → Bool
is_claimed_or_planning claimed = true
is_claimed_or_planning planning = true
is_claimed_or_planning _ = false

abbrev first_start : ℕ → ℕ → ℕ
first_start now started = if started == 0 then now else started

-- The three guarded status statements of runNextJob.
unfoldable pub begin_planning : Database → ℕ → ℕ → Database
begin_planning db now id = record db {
  jobs =
      update_where (allowed_job id is_claimed)
        (λ j. record j {
          status = planning;
          started_at = first_start now j.started_at;
          error_text = [];
          updated_at = now;
        })
        db.jobs;
}

unfoldable pub begin_running : Database → ℕ → ℕ → Database
begin_running db now id = record db {
  jobs =
      update_where (allowed_job id is_claimed_or_planning)
        (λ j. record j {
          status = running;
          started_at = first_start now j.started_at;
          updated_at = now;
        })
        db.jobs;
}

abbrev pub as_completed : ℕ → Job → Job
as_completed now j = record j { status = completed; completed_at = now; updated_at = now }

unfoldable pub complete_job : Database → ℕ → ℕ → Database
complete_job db now id = record db {
  jobs = update_where (allowed_job id is_running) (as_completed now) db.jobs;
}

-- failJob has no guard on the status; the message is what truncateError returned.
unfoldable pub fail_job : Database → ℕ → ℕ → Text → Database
fail_job db now id message = record db {
  jobs =
      update_where (has_id id)
        (λ j. record j {
          status = failed;
          error_text = message;
          completed_at = now;
          updated_at = now;
        })
        db.jobs;
}
