-- ===== src/Review/Jobs/Exclusion.antt =====
-- The answers of the status calls, and the rule that a review job and an audit cleanup do not run at
-- the same time, which CreateJob keeps and ResumeJob does not.
use newapi_usage.Prelude.{
  ℕ, ◌≤◌, ◌<◌, ◌≡◌, refl, ap, ◌∙◌, inl, inr, Bool, true, false, Text, List, [], ◌∷◌, ◌++◌, Option,
  none, some, arith, ◌==◌, if◌then◌else◌, length, All, In, Bool-cases, update_where, select_where,
  find_where, find_where-In, find_where-update_where, ◌≢◌, In-select_where, In-not-nil,
}
use newapi_usage.Review.Types.{Status, queued, failed, Job, is_queued}
use newapi_usage.Review.Database.{Database}
use newapi_usage.Review.Jobs.{
  job, has_id, allowed_job, with_status, set_job_status, resumable, resume_job, fail_job, found,
  not_found, cannot_transition,
}
use newapi_usage.Review.Jobs.Create.{
  active_cleanups, JobInput, JobSettings, create_job, insert_job, check_input, admit_job, created,
  create_job_between,
}

length_not_zero : (js : List Job) → (js ≡ [] → ⊥) → (length js == 0) ≡ false
length_not_zero [] h = absurd (h refl)
length_not_zero (j ∷ js) h = ground arith

-- An update that keeps ids is seen through a lookup by id.
pub find-update :
    (id : ℕ) (q : Job → Bool) (f : Job → Job) (js : List Job) (j : Job)
    → ((k : Job) → (f k).id ≡ k.id)
    → find_where (has_id id) js ≡ some j
    → find_where (has_id id) (update_where q f js) ≡ some (if q j then f j else j)
unfolding find_where update_where
find-update id q f [] j same h = cc
find-update id q f (k ∷ js) j same h = elim (Bool-cases (k.id == id)) [
  | inl e ↦
      let eq : k ≡ j = ground arith in
      let hit : has_id id (f k) ≡ true = ground (arith, same k) in
      elim (Bool-cases (q k)) [
        | inl g ↦ rw (g, hit, ← eq, g) refl
        | inr g ↦ rw (g, e, ← eq, g) refl
      ]
  | inr e ↦
      let rest = find-update id q f js j same (rw e at h) in
      let miss : has_id id (f k) ≡ false = ground (arith, same k) in
      elim (Bool-cases (q k)) [ inl g ↦ rw (g, miss) rest | inr g ↦ rw (g, e) rest ]
]

not_queued : (s : Status) (n m : ℕ) → s ≢ queued → (if is_queued s then n else m) ≡ m
not_queued s n m h = ground arith

module _ (db : Database) (now id : ℕ) (s : Status) (allowed : Status → Bool) where
  pub set_job_status-found :
      (j : Job)
      → job db id ≡ some j
      → allowed j.status ≡ true
      → let r = set_job_status db now id s allowed in
        (r.1 ≡ found (with_status now s j)) × (job r.0 id ≡ some (with_status now s j))
  unfolding set_job_status job
  set_job_status-found j h ok = rw (changed, after) (refl, refl)
    where
      row : In j db.jobs × (has_id id j ≡ true)
      row = find_where-In (has_id id) db.jobs h

      guard : allowed_job id allowed j ≡ true
      guard = rw (row.1, ok) refl

      changed : (length (select_where (allowed_job id allowed) db.jobs) == 0) ≡ false
      changed = length_not_zero _ (In-not-nil (In-select_where _ row.0 guard))

      after :
          find_where (has_id id) (update_where (allowed_job id allowed) (with_status now s) db.jobs)
          ≡ some (with_status now s j)
      after = find-update id _ _ db.jobs j (λ k. refl) h ∙ rw guard refl

  -- Another job is found as before.
  set_job_status-others : (i : ℕ) → i ≢ id → job (set_job_status db now id s allowed).0 i ≡ job db i
  unfolding set_job_status job
  set_job_status-others i other =
      elim (Bool-cases (length (select_where (allowed_job id allowed) db.jobs) == 0)) [
        | inl e ↦ rw e (find-other db.jobs)
        | inr e ↦ rw e (find-other db.jobs)
      ]
    where
      apart : (k : Job) → has_id i k ≡ true → allowed_job id allowed k ≡ false
      apart k e = ground (arith, other, e)

      find-other :
          (js : List Job)
          → find_where (has_id i) (update_where (allowed_job id allowed) (with_status now s) js)
            ≡ find_where (has_id i) js
      find-other js =
          find_where-update_where (has_id i) (allowed_job id allowed) (with_status now s) js
            (λ k. refl)
          ∙ untouched (find_where (has_id i) js) refl
        where
          untouched :
              (o : Option Job)
              → find_where (has_id i) js ≡ o
              → elim o [
                | none ↦ none
                | some k ↦ some (if allowed_job id allowed k then with_status now s k else k)
              ]
                ≡ o
          untouched none e = refl
          untouched (some k) e = rw (apart k (find_where-In (has_id i) js {x = k} e).1) refl

  -- A status call on a job in an allowed status answers with the row that the table then holds: its
  -- status is the new one, its error is empty, its time of completion is 0 where it enters the queue
  -- and as it was elsewhere, it is updated now, and its other columns are as they were. Every other
  -- job is found as before.
  pub set_job_status-one_row :
      (j : Job)
      → job db id ≡ some j
      → allowed j.status ≡ true
      → let r = set_job_status db now id s allowed in
        ((k : Job) × (r.1 ≡ found k)
          × (job r.0 id ≡ some k)
          × (s ≡ queued → k.completed_at ≡ 0)
          × (s ≢ queued → k.completed_at ≡ j.completed_at)
          × (k ≡ record j {
            status = s;
            error_text = [];
            completed_at = k.completed_at;
            updated_at = now;
          }))
        × ((i : ℕ) → i ≢ id → job r.0 i ≡ job db i)
  set_job_status-one_row j h ok =
      let r = set_job_status-found j h ok in
      ((with_status now s j, r.0, r.1, zeroed, kept, refl), set_job_status-others)
    where
      zeroed : s ≡ queued → (if is_queued s then 0 else j.completed_at) ≡ 0
      zeroed e = rw e refl

      kept : s ≢ queued → (if is_queued s then 0 else j.completed_at) ≡ j.completed_at
      kept e = not_queued s 0 j.completed_at e

  update_refused :
      (js : List Job)
      → All (λ (k : Job). k.id ≡ id → allowed k.status ≡ false) js
      → (select_where (allowed_job id allowed) js ≡ [])
        × (update_where (allowed_job id allowed) (with_status now s) js ≡ js)
  unfolding select_where update_where
  update_refused [] h = (refl, refl)
  update_refused (k ∷ js) h =
      let rest = update_refused js h.1 in
      let no_guard : allowed_job id allowed k ≡ false = refuse k h.0 in
      (rw no_guard rest.0, rw no_guard (ap (◌∷◌ k) rest.1))
    where
      refuse : (k : Job) → (k.id ≡ id → allowed k.status ≡ false) → allowed_job id allowed k ≡ false
      refuse k g = elim (Bool-cases (k.id == id)) [
        | inl e ↦ rw (e, g (ground arith)) refl
        | inr e ↦ rw e refl
      ]

  -- A status call on a job in any other status changes nothing and is refused, and one on an id that
  -- no job has changes nothing and answers that there is no such job.
  pub set_job_status-refused :
      All (λ (k : Job). k.id ≡ id → allowed k.status ≡ false) db.jobs
      → let r = set_job_status db now id s allowed in
        (r.0 ≡ db)
        × ((j : Job) → job db id ≡ some j → r.1 ≡ cannot_transition)
        × (job db id ≡ none → r.1 ≡ not_found)
  unfolding set_job_status
  set_job_status-refused h =
      let u = update_refused db.jobs h in rw (u.0, u.1) (refl, (λ j e. rw e refl), (λ e. rw e refl))

abbrev failed_row : ℕ → Text → Job → Job
failed_row t message k = record k {
  status = failed;
  error_text = message;
  completed_at = t;
  updated_at = t;
}

fail_job-row :
    (db : Database) (t id : ℕ) (message : Text) (j : Job)
    → job db id ≡ some j
    → job (fail_job db t id message) id ≡ some (failed_row t message j)
unfolding fail_job job
fail_job-row db t id message j h =
    find-update id (has_id id) (failed_row t message) db.jobs j (λ k. refl) h
    ∙ rw (find_where-In (has_id id) db.jobs h).1 refl

-- Whatever the status of a job, canceled or completed included, a failure that a worker reports for
-- it followed by a resume call puts it into the queue again.
pub fail_job-resume :
    (db : Database) (t u id : ℕ) (message : Text) (j : Job)
    → job db id ≡ some j
    → (k : Job) × ((resume_job (fail_job db t id message) u id).1 ≡ found k)
      × (job (resume_job (fail_job db t id message) u id).0 id ≡ some k)
      × (k.status ≡ queued)
unfolding resume_job
fail_job-resume db t u id message j h =
    let r =
      set_job_status-found (fail_job db t id message) u id queued resumable (failed_row t message j)
        (fail_job-row db t id message j h) refl in
    (with_status u queued (failed_row t message j), r.0, r.1, refl)

-- A job is created only where no cleanup is queued or running, for 1 to 500 keys and 1 to 500
-- models, over a time range that starts after 0 and does not end before it starts; it enters the
-- queue under the next id, behind the jobs that were there.
pub create_job-created :
    (db : Database) (now : ℕ) (settings : Option JobSettings) (input : JobInput) (j : Job)
    → (create_job db now settings input).1 ≡ created j
    → (active_cleanups db ≡ 0)
      × (0 < length j.token_ids)
      × (length j.token_ids ≤ 500)
      × (0 < length j.models)
      × (length j.models ≤ 500)
      × (0 < j.start)
      × (j.start ≤ j.end)
      × (j.status ≡ queued)
      × (j.id ≡ db.next_job_id)
      × ((create_job db now settings input).0.jobs ≡ db.jobs ++ j ∷ [])
unfolding create_job create_job_between insert_job check_input admit_job
create_job-created db now none input j h = ground arith
create_job-created db now (some s) input j h = ground arith

cleanups_same :
    (db : Database) (now id : ℕ)
    → active_cleanups (set_job_status db now id queued resumable).0 ≡ active_cleanups db
unfolding set_job_status
cleanups_same db now id =
    elim (Bool-cases (length (select_where (allowed_job id resumable) db.jobs) == 0)) [
      | inl e ↦ rw e refl
      | inr e ↦ rw e refl
    ]

-- A failed job can be resumed while a cleanup is active: then a job is in the queue and a cleanup
-- is active.
pub resume_job-during_cleanup :
    (db : Database) (now id : ℕ) (j : Job)
    → job db id ≡ some j
    → j.status ≡ failed
    → 0 < active_cleanups db
    → let r = resume_job db now id in
      (0 < active_cleanups r.0) × ((k : Job) × (job r.0 id ≡ some k) × (k.status ≡ queued))
unfolding resume_job
resume_job-during_cleanup db now id j h e active =
    let r = set_job_status-found db now id queued resumable j h (rw e refl) in
    (rw (cleanups_same db now id) active, (with_status now queued j, r.1, refl))
