-- ===== src/Review/Jobs/Acts.antt =====
-- The calls and statements that write the status of a review job, as one step function: API calls
-- and the three workers interleave as a list of acts.
use newapi_usage.Prelude.{ℕ, List, [], ◌∷◌, Option, Text}
use newapi_usage.Review.Database.{Database}
use newapi_usage.Review.Jobs.{
  pause_job, resume_job, cancel_job, delete_job, claim_next_queued_job, requeue_interrupted,
  begin_planning, begin_running, complete_job, fail_job,
}
use newapi_usage.Review.Jobs.Create.{JobInput, JobSettings, create_job}

-- One status-writing call or statement.
pub data Act : Type 0 where
  creates : Option JobSettings → JobInput → Act
  pauses resumes cancels deletes : ℕ → Act
  claims requeues : Act
  plans runs completes : ℕ → Act
  fails : ℕ → Text → Act

-- One act at a time.
unfoldable pub act : Database → ℕ × Act → Database
act db (now, creates settings input) = (create_job db now settings input).0
act db (now, pauses id) = (pause_job db now id).0
act db (now, resumes id) = (resume_job db now id).0
act db (now, cancels id) = (cancel_job db now id).0
act db (now, deletes id) = (delete_job db id).0
act db (now, claims) = (claim_next_queued_job db now).0
act db (now, requeues) = requeue_interrupted db now
act db (now, plans id) = begin_planning db now id
act db (now, runs id) = begin_running db now id
act db (now, completes id) = complete_job db now id
act db (now, fails id message) = fail_job db now id message

unfoldable pub act_all : Database → List (ℕ × Act) → Database
act_all db [] = db
act_all db (a ∷ as_) = act_all (act db a) as_
