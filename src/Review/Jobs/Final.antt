-- ===== src/Review/Jobs/Final.antt =====
-- A job that is completed or canceled stays so, unless a worker reports a failure for it.
use newapi_usage.Prelude.{
  ℕ, ◌≤◌, ◌<◌, ◌≡◌, refl, Bool, true, false, ◌&&◌, List, [], ◌∷◌, Option, none, some, arith, inl,
  inr, ltb, ◌==◌, length, All, All-append, Bool-cases, Option-cases, update_where, select_where,
  delete_where, sort_by,
}
use newapi_usage.Review.Types.{
  Status, queued, paused, completed, canceled, Job, is_queued, is_running,
}
use newapi_usage.Review.Database.{Database}
use newapi_usage.Review.Jobs.{
  has_id, allowed_job, set_job_status, pausable, resumable, cancelable, pause_job, resume_job,
  cancel_job, delete_job, claim_next_queued_job, first_row, by_id, is_claimed_or_busy,
  requeue_interrupted, is_claimed, is_claimed_or_planning, begin_planning, begin_running,
  complete_job, fail_job,
}
use newapi_usage.Review.Jobs.Create.{
  JobInput, JobSettings, create_job, create_job_between, insert_job, check_input, admit_job,
  active_cleanups,
}
use newapi_usage.Review.Jobs.Acts.{
  Act, creates, pauses, resumes, cancels, deletes, claims, requeues, plans, runs, completes, fails,
  act, act_all,
}
use newapi_usage.Review.Jobs.Input.{normalize_token_ids, normalize_models}
use newapi_usage.Review.Jobs.Transitions.{set_job_status-jobs, guard_status}

abbrev pub is_final : Status → Bool
is_final completed = true
is_final canceled = true
is_final _ = false

-- Each job of this id has this status.
abbrev pub Stays : ℕ → Status → List Job → Type 0
Stays id s = All (λ j. j.id ≡ id → j.status ≡ s)

-- The act reports a failure of the job.
abbrev pub fails_job : ℕ → ℕ × Act → Bool
fails_job id (now, fails i message) = i == id
fails_job id _ = false

module _ (id : ℕ) (s : Status) (final : is_final s ≡ true) where
  Stays-update :
      (q : Job → Bool) (f : Job → Job) (js : List Job)
      → ((j : Job) → q j ≡ true → (f j).id ≡ j.id)
      → ((j : Job) → q j ≡ true → j.id ≡ id → j.status ≡ s → ⊥)
      → Stays id s js
      → Stays id s (update_where q f js)
  unfolding update_where
  Stays-update q f [] same other h = tt
  Stays-update q f (j ∷ js) same other h = elim (Bool-cases (q j)) [
    | inl e ↦ rw e (
      (λ i. absurd (other j e (cc (same j e)) (h.0 (cc (same j e))))),
      Stays-update q f js same other h.1,
    )
    | inr e ↦ rw e (h.0, Stays-update q f js same other h.1)
  ]

  Stays-delete : (q : Job → Bool) (js : List Job) → Stays id s js → Stays id s (delete_where q js)
  unfolding delete_where
  Stays-delete q [] h = tt
  Stays-delete q (j ∷ js) h = ground (arith, Stays-delete q js h.1)

  -- A guard that lets no final status through.
  excluded :
      (allowed : Status → Bool)
      → ((t : Status) → is_final t ≡ true → allowed t ≡ false)
      → (t : Status) → allowed t ≡ true
      → t ≡ s
      → ⊥
  excluded allowed never t a e = cc (never t (rw e final))

  Stays-set :
      (db : Database) (now i : ℕ) (t : Status) (allowed : Status → Bool)
      → ((t : Status) → is_final t ≡ true → allowed t ≡ false)
      → Stays id s db.jobs
      → Stays id s (set_job_status db now i t allowed).0.jobs
  Stays-set db now i t allowed never h = rw (set_job_status-jobs db now i t allowed) (
      Stays-update _ _ db.jobs (λ j g. refl)
        (λ j g e st. excluded allowed never j.status (guard_status i allowed j g) st) h)

  Stays-guarded :
      (i : ℕ) (allowed : Status → Bool) (f : Job → Job) (js : List Job)
      → ((t : Status) → is_final t ≡ true → allowed t ≡ false)
      → ((j : Job) → (f j).id ≡ j.id)
      → Stays id s js
      → Stays id s (update_where (allowed_job i allowed) f js)
  Stays-guarded i allowed f js never same h =
      Stays-update _ f js (λ j g. same j)
        (λ j g e st. excluded allowed never j.status (guard_status i allowed j g) st) h

  Stays-claim :
      (db : Database) (now : ℕ)
      → Stays id s db.jobs
      → Stays id s (claim_next_queued_job db now).0.jobs
  unfolding claim_next_queued_job
  Stays-claim db now h =
      elim (Option-cases
        (first_row (sort_by by_id (select_where (λ j. is_queued j.status) db.jobs)))) [
          | inl e ↦ rw (e, claim_next_queued_job) h
          | inr (j, e) ↦
              let still = λ (r : Job). r.id == j.id && is_queued r.status in
              elim (Bool-cases (length (select_where still db.jobs) == 0)) [
                | inl gone ↦ rw (e, claim_next_queued_job, gone) h
                | inr found ↦
                    rw (e, claim_next_queued_job, found)
                      (Stays-guarded j.id is_queued _ db.jobs (λ t. ground arith) (λ r. refl) h)
              ]
        ]

  Stays-create :
      (db : Database) (now : ℕ) (settings : Option JobSettings) (input : JobInput)
      → id < db.next_job_id
      → Stays id s db.jobs
      → Stays id s (create_job db now settings input).0.jobs
  unfolding create_job create_job_between insert_job admit_job
  Stays-create db now none input lt h = ground arith
  Stays-create db now (some x) input lt h =
      let tokens = normalize_token_ids input.token_ids in
      let models = normalize_models input.models in
      elim (Bool-cases (ltb 0 (active_cleanups db))) [
        | inl e ↦ rw e h
        | inr e ↦ elim (Option-cases (check_input tokens models input)) [
          | inl ok ↦
              rw (e, ok, insert_job) (All-append _ db.jobs _ h ((λ same. absurd (omega arith)), tt))
          | inr (x, bad) ↦ rw (e, bad, insert_job) h
        ]
      ]

  act-Stays :
      (db : Database) (now : ℕ) (a : Act)
      → id < db.next_job_id
      → fails_job id (now, a) ≡ false
      → Stays id s db.jobs
      → Stays id s (act db (now, a)).jobs
  unfolding act pause_job resume_job cancel_job begin_planning begin_running complete_job fail_job
      requeue_interrupted delete_job
  act-Stays db now (creates settings input) lt ok h = Stays-create db now settings input lt h
  act-Stays db now (pauses i) lt ok h = Stays-set db now i paused pausable (λ t. ground arith) h
  act-Stays db now (resumes i) lt ok h = Stays-set db now i queued resumable (λ t. ground arith) h
  act-Stays db now (cancels i) lt ok h =
      Stays-set db now i canceled cancelable (λ t. ground arith) h
  act-Stays db now (deletes i) lt ok h = ground (arith, Stays-delete (has_id i) db.jobs h)
  act-Stays db now claims lt ok h = Stays-claim db now h
  act-Stays db now requeues lt ok h =
      Stays-update _ _ db.jobs (λ j g. refl)
        (λ j g e st. excluded is_claimed_or_busy (λ t. ground arith) j.status g st) h
  act-Stays db now (plans i) lt ok h =
      Stays-guarded i is_claimed _ db.jobs (λ t. ground arith) (λ r. refl) h
  act-Stays db now (runs i) lt ok h =
      Stays-guarded i is_claimed_or_planning _ db.jobs (λ t. ground arith) (λ r. refl) h
  act-Stays db now (completes i) lt ok h =
      Stays-guarded i is_running _ db.jobs (λ t. ground arith) (λ r. refl) h
  act-Stays db now (fails i message) lt ok h =
      Stays-update _ _ db.jobs (λ j g. refl) (λ j g e st. ground arith) h

set_job_status-next :
    (db : Database) (now i : ℕ) (t : Status) (allowed : Status → Bool)
    → (set_job_status db now i t allowed).0.next_job_id ≡ db.next_job_id
unfolding set_job_status
set_job_status-next db now i t allowed =
    elim (Bool-cases (length (select_where (allowed_job i allowed) db.jobs) == 0)) [
      | inl e ↦ rw e refl
      | inr e ↦ rw e refl
    ]

claim-next :
    (db : Database) (now : ℕ) → (claim_next_queued_job db now).0.next_job_id ≡ db.next_job_id
unfolding claim_next_queued_job
claim-next db now = ground arith

delete-next : (db : Database) (i : ℕ) → (delete_job db i).0.next_job_id ≡ db.next_job_id
unfolding delete_job
delete-next db i = ground arith

create-next :
    (db : Database) (now : ℕ) (s : Option JobSettings) (input : JobInput)
    → db.next_job_id ≤ (create_job db now s input).0.next_job_id
unfolding create_job create_job_between insert_job admit_job
create-next db now none input = ground arith
create-next db now (some x) input = ground arith

-- Ids of jobs are given out in increasing order.
pub act-next_job_id : (db : Database) (a : ℕ × Act) → db.next_job_id ≤ (act db a).next_job_id
unfolding act pause_job resume_job cancel_job begin_planning begin_running complete_job fail_job
    requeue_interrupted
act-next_job_id db (now, creates s input) = create-next db now s input
act-next_job_id db (now, pauses i) = omega (arith, set_job_status-next db now i paused pausable)
act-next_job_id db (now, resumes i) = omega (arith, set_job_status-next db now i queued resumable)
act-next_job_id db (now, cancels i) =
    omega (arith, set_job_status-next db now i canceled cancelable)
act-next_job_id db (now, deletes i) = omega (arith, delete-next db i)
act-next_job_id db (now, claims) = omega (arith, claim-next db now)
act-next_job_id db (now, requeues) = omega arith
act-next_job_id db (now, plans i) = omega arith
act-next_job_id db (now, runs i) = omega arith
act-next_job_id db (now, completes i) = omega arith
act-next_job_id db (now, fails i message) = omega arith

-- A completed or canceled job keeps that status, whatever calls and worker statements follow in any
-- order, as long as no worker reports a failure for it. (It may be deleted.)
pub act_all-final :
    (id : ℕ) (s : Status) (db : Database) (acts : List (ℕ × Act))
    → is_final s ≡ true
    → id < db.next_job_id
    → All (λ (a : ℕ × Act). fails_job id a ≡ false) acts
    → Stays id s db.jobs
    → Stays id s (act_all db acts).jobs
unfolding act_all
act_all-final id s db [] final lt quiet h = h
act_all-final id s db ((now, a) ∷ rest) final lt quiet h =
    act_all-final id s (act db (now, a)) rest final (omega (arith, act-next_job_id db (now, a)))
      quiet.1 (act-Stays id s final db now a lt quiet.0 h)
