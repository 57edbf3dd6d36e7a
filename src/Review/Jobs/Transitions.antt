-- ===== src/Review/Jobs/Transitions.antt =====
-- The life of a review job under any sequence of the calls and worker statements that write its
-- status, whoever makes them and in whatever order.
use newapi_usage.Prelude.{
  ℕ, ◌≡◌, refl, ◌⊎◌, inl, inr, Bool, true, ◌&&◌, Text, List, [], ◌∷◌, ◌++◌, Option, none, some,
  arith, ◌==◌, length, All, All-append, In, here, there, Bool-cases, update_where, select_where,
  delete_where, sort_by, Option-cases,
}
use newapi_usage.Review.Types.{
  Status, queued, claimed, planning, running, paused, completed, canceled, failed, Job, is_queued,
  is_running,
}
use newapi_usage.Review.Database.{Database, AuditRow}
use newapi_usage.Review.Jobs.{
  job, has_id, allowed_job, with_status, set_job_status, pausable, resumable, cancelable, pause_job,
  resume_job, cancel_job, is_over, delete_job, claim_next_queued_job, first_row, by_id,
  is_claimed_or_busy, requeue_interrupted, is_claimed, is_claimed_or_planning, begin_planning,
  begin_running, complete_job, fail_job,
}
use newapi_usage.Review.Jobs.Create.{
  JobInput, JobSettings, create_job, create_job_between, insert_job, check_input, admit_job,
}
use newapi_usage.Review.Jobs.Acts.{
  Act, creates, pauses, resumes, cancels, deletes, claims, requeues, plans, runs, completes, fails,
  act,
}
use newapi_usage.Review.Jobs.Input.{normalize_token_ids, normalize_models}

-- The moves of a job's status.
pub data Edge : Status → Status → Type 0 where
  to_paused : {s : Status} → pausable s ≡ true → Edge s paused
  to_queue : {s : Status} → resumable s ≡ true → Edge s queued
  to_canceled : {s : Status} → cancelable s ≡ true → Edge s canceled
  to_claimed : Edge queued claimed
  requeued : {s : Status} → is_claimed_or_busy s ≡ true → Edge s queued
  to_planning : Edge claimed planning
  to_running : {s : Status} → is_claimed_or_planning s ≡ true → Edge s running
  to_completed : Edge running completed
  to_failed : {s : Status} → Edge s failed

-- The row comes from a row with its id, by at most one move.
abbrev pub Moved : List Job → Job → Type 0
Moved old j' =
    (j : Job) × In j old × (j.id ≡ j'.id) × ((j.status ≡ j'.status) ⊎ Edge j.status j'.status)

-- A new row, in the queue.
abbrev pub Entered : Database → Job → Type 0
Entered db j = (j.id ≡ db.next_job_id) × (j.status ≡ queued)

abbrev Explained : Database → List Job → Type 0
Explained db = All (λ j. Moved db.jobs j ⊎ Entered db j)

Moved-there :
    (j0 : Job) (old : List Job) (js : List Job) → All (Moved old) js → All (Moved (j0 ∷ old)) js
Moved-there j0 old [] h = tt
Moved-there j0 old (j ∷ js) ((k, m, e, s), rest) = ((k, there m, e, s), Moved-there j0 old js rest)

Moved-refl : (js : List Job) → All (Moved js) js
Moved-refl [] = tt
Moved-refl (j ∷ js) = ((j, here, refl, inl refl), Moved-there j js js (Moved-refl js))

-- An update whose rows keep their id and make a move.
Moved-update :
    (q : Job → Bool) (f : Job → Job) (js : List Job)
    → ((j : Job) → q j ≡ true → (j.id ≡ (f j).id) × Edge j.status (f j).status)
    → All (Moved js) (update_where q f js)
unfolding update_where
Moved-update q f [] moves = tt
Moved-update q f (j ∷ js) moves = elim (Bool-cases (q j)) [
  | inl e ↦
      rw e (
        (j, here, (moves j e).0, inr (moves j e).1),
        Moved-there j js _ (Moved-update q f js moves),
      )
  | inr e ↦ rw e ((j, here, refl, inl refl), Moved-there j js _ (Moved-update q f js moves))
]

Moved-delete : (q : Job → Bool) (js : List Job) → All (Moved js) (delete_where q js)
unfolding delete_where
Moved-delete q [] = tt
Moved-delete q (j ∷ js) = elim (Bool-cases (q j)) [
  | inl e ↦ rw e (Moved-there j js _ (Moved-delete q js))
  | inr e ↦ rw e ((j, here, refl, inl refl), Moved-there j js _ (Moved-delete q js))
]

Moved-Explained : (db : Database) (js : List Job) → All (Moved db.jobs) js → Explained db js
Moved-Explained db [] h = tt
Moved-Explained db (j ∷ js) h = (inl h.0, Moved-Explained db js h.1)

-- The guard of an update by id and status.
pub guard_status :
    (id : ℕ) (allowed : Status → Bool) (j : Job)
    → allowed_job id allowed j ≡ true
    → allowed j.status ≡ true
guard_status id allowed j h = ground arith

pub set_job_status-jobs :
    (db : Database) (now id : ℕ) (s : Status) (allowed : Status → Bool)
    → (set_job_status db now id s allowed).0.jobs
      ≡ update_where (allowed_job id allowed) (with_status now s) db.jobs
unfolding set_job_status
set_job_status-jobs db now id s allowed =
    elim (Bool-cases (length (select_where (allowed_job id allowed) db.jobs) == 0)) [
      | inl e ↦ rw e refl
      | inr e ↦ rw e refl
    ]

set_job_status-Moved :
    (db : Database) (now id : ℕ) (s : Status) (allowed : Status → Bool)
    → ((t : Status) → allowed t ≡ true → Edge t s)
    → All (Moved db.jobs) (set_job_status db now id s allowed).0.jobs
set_job_status-Moved db now id s allowed edge =
    rw (set_job_status-jobs db now id s allowed)
      (Moved-update _ _ db.jobs λ j h. (refl, edge j.status (guard_status id allowed j h)))

claimed-Edge : (s : Status) → is_queued s ≡ true → Edge s claimed
claimed-Edge queued h = to_claimed
claimed-Edge claimed h = cc
claimed-Edge planning h = cc
claimed-Edge running h = cc
claimed-Edge paused h = cc
claimed-Edge completed h = cc
claimed-Edge canceled h = cc
claimed-Edge failed h = cc

planning-Edge : (s : Status) → is_claimed s ≡ true → Edge s planning
planning-Edge claimed h = to_planning
planning-Edge queued h = cc
planning-Edge planning h = cc
planning-Edge running h = cc
planning-Edge paused h = cc
planning-Edge completed h = cc
planning-Edge canceled h = cc
planning-Edge failed h = cc

completed-Edge : (s : Status) → is_running s ≡ true → Edge s completed
completed-Edge running h = to_completed
completed-Edge queued h = cc
completed-Edge claimed h = cc
completed-Edge planning h = cc
completed-Edge paused h = cc
completed-Edge completed h = cc
completed-Edge canceled h = cc
completed-Edge failed h = cc

claim-Moved : (db : Database) (now : ℕ) → All (Moved db.jobs) (claim_next_queued_job db now).0.jobs
unfolding claim_next_queued_job
claim-Moved db now =
    elim (Option-cases
      (first_row (sort_by by_id (select_where (λ j. is_queued j.status) db.jobs)))) [
        | inl e ↦ rw (e, claim_next_queued_job) (Moved-refl db.jobs)
        | inr (j, e) ↦
            let still = λ (r : Job). r.id == j.id && is_queued r.status in
            elim (Bool-cases (length (select_where still db.jobs) == 0)) [
              | inl gone ↦ rw (e, claim_next_queued_job, gone) (Moved-refl db.jobs)
              | inr here_ ↦
                  rw (e, claim_next_queued_job, here_)
                    (Moved-update still _ db.jobs
                      λ r h. (refl, claimed-Edge r.status (guard_status j.id is_queued r h)))
            ]
      ]

delete-Moved : (db : Database) (id : ℕ) → All (Moved db.jobs) (delete_job db id).0.jobs
unfolding delete_job
delete-Moved db id = elim (Option-cases (job db id)) [
  | inl e ↦ rw (e, delete_job) (Moved-refl db.jobs)
  | inr (j, e) ↦ elim (Bool-cases (is_over j.status)) [
    | inl over ↦ rw (e, delete_job, over) (Moved-delete (has_id id) db.jobs)
    | inr busy ↦ rw (e, delete_job, busy) (Moved-refl db.jobs)
  ]
]

Explained-refl : (db : Database) → Explained db db.jobs
Explained-refl db = Moved-Explained db db.jobs (Moved-refl db.jobs)

Explained-new : (db : Database) (j : Job) → Entered db j → Explained db (db.jobs ++ j ∷ [])
Explained-new db j e = All-append _ db.jobs (j ∷ []) (Explained-refl db) (inr e, tt)

admit-Explained :
    (db : Database) (rows : List AuditRow) (now : ℕ) (s : JobSettings) (tokens : List ℕ)
    (models : List Text) (input : JobInput)
    → Explained db (admit_job rows db now s tokens models input).0.jobs
unfolding admit_job
admit-Explained db rows now s tokens models input = Explained-new db _ (refl, refl)

insert-Explained :
    (db : Database) (rows : List AuditRow) (now : ℕ) (s : JobSettings) (input : JobInput)
    → Explained db (insert_job rows db now s input).0.jobs
unfolding insert_job
insert-Explained db rows now s input =
    let tokens = normalize_token_ids input.token_ids in
    let models = normalize_models input.models in
    elim (Option-cases (check_input tokens models input)) [
      | inl e ↦ rw (e, insert_job) (admit-Explained db rows now s tokens models input)
      | inr (x, e) ↦ rw (e, insert_job) (Explained-refl db)
    ]

create-Explained :
    (db : Database) (now : ℕ) (s : Option JobSettings) (input : JobInput)
    → Explained db (create_job db now s input).0.jobs
unfolding create_job create_job_between
create-Explained db now none input = ground (arith, Explained-refl db)
create-Explained db now (some s) input =
    ground (arith, Explained-refl db, insert-Explained db db.audit_entries now s input)

-- After any call or statement, every job of the table is a job that was there, with its status
-- unchanged or moved along one edge of the diagram, or a new job in the queue.
pub act-Moved :
    (db : Database) (now : ℕ) (a : Act)
    → All (λ j. Moved db.jobs j ⊎ Entered db j) (act db (now, a)).jobs
unfolding act pause_job resume_job cancel_job begin_planning begin_running complete_job fail_job
    requeue_interrupted
act-Moved db now (creates s input) = create-Explained db now s input
act-Moved db now (pauses id) =
    Moved-Explained db _ (set_job_status-Moved db now id paused pausable λ t h. to_paused h)
act-Moved db now (resumes id) =
    Moved-Explained db _ (set_job_status-Moved db now id queued resumable λ t h. to_queue h)
act-Moved db now (cancels id) =
    Moved-Explained db _ (set_job_status-Moved db now id canceled cancelable λ t h. to_canceled h)
act-Moved db now (deletes id) = Moved-Explained db _ (delete-Moved db id)
act-Moved db now claims = Moved-Explained db _ (claim-Moved db now)
act-Moved db now requeues =
    Moved-Explained db _ (Moved-update _ _ db.jobs λ j h. (refl, requeued h))
act-Moved db now (plans id) = Moved-Explained db _ (
    Moved-update _ _ db.jobs λ j h. (refl, planning-Edge j.status (guard_status id is_claimed j h)))
act-Moved db now (runs id) = Moved-Explained db _ (
    Moved-update _ _ db.jobs λ j h. (refl, to_running (guard_status id is_claimed_or_planning j h)))
act-Moved db now (completes id) = Moved-Explained db _ (
    Moved-update _ _ db.jobs
      λ j h. (refl, completed-Edge j.status (guard_status id is_running j h)))
act-Moved db now (fails id message) =
    Moved-Explained db _ (Moved-update _ _ db.jobs λ j h. (refl, to_failed))
