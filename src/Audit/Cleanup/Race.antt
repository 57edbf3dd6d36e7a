-- ===== src/Audit/Cleanup/Race.antt =====
-- CreateJob of internal/review/jobs.go beside CreateCleanupJob of internal/audit/cleanup.go: the first
-- is not a transaction.
use newapi_usage.Prelude.{
  ℕ, ◌<◌, ◌≡◌, refl, ap, sym, subst, ◌∙◌, Option, none, some, ℤ, [], ◌∷◌, ◌++◌, arith, ltb,
  count_where, Bool, inl, inr, Bool-cases, Option-cases,
}
use newapi_usage.Audit.Types.{CleanupJob, is_active_cleanup}
use newapi_usage.Audit.Cleanup.{Store, cleanups, rows_of}
use newapi_usage.Audit.Cleanup.Lifecycle.{
  done, active_reviews, active_cleanup_jobs, create_cleanup_job, is_active_review,
}
use newapi_usage.Audit.Cleanup.Admission.{create_cleanup_job-created, counted-last}
use newapi_usage.Review.Types.{Job, queued}
use newapi_usage.Review.Database.{Database}
use newapi_usage.Review.Jobs.Create.{
  JobInput, JobSettings, created, create_job, create_job_between, insert_job, check_input,
  admit_job, active_cleanups,
}
use newapi_usage.Review.Jobs.Input.{normalize_token_ids, normalize_models}

-- A creation that would succeed by itself inserts an active job, whatever the tables are by then.
between-created :
    (checked db : Database) (now later : ℕ) (settings : Option JobSettings) (input : JobInput)
    (j : Job)
    → (create_job checked now settings input).1 ≡ created j
    → let r = create_job_between checked checked db later settings input in
      (r.0.cleanup_jobs ≡ db.cleanup_jobs)
      × ((k : Job) × (r.1 ≡ created k) × (r.0.jobs ≡ db.jobs ++ k ∷ []) × (k.status ≡ queued))
unfolding create_job create_job_between insert_job check_input admit_job
between-created checked db now later none input j h = absurd (ground arith)
between-created checked db now later (some s) input j h =
    elim (Bool-cases (ltb 0 (active_cleanups checked))) [
      | inl busy ↦ absurd (ground (arith, busy, h))
      | inr free ↦
          elim (Option-cases (
            check_input (normalize_token_ids input.token_ids) (normalize_models input.models)
              input)) [
                | inl fine ↦ rw (free, fine, insert_job) (refl, admitted)
                | inr (e, bad) ↦ absurd (ground (arith, free, bad, h))
              ]
    ]
  where
    admitted :
        let r =
          admit_job checked.audit_entries db later s
            (normalize_token_ids input.token_ids)
            (normalize_models input.models)
            input in
        (k : Job) × (r.1 ≡ created k) × (r.0.jobs ≡ db.jobs ++ k ∷ []) × (k.status ≡ queued)
    admitted = (_, refl, refl, refl)

-- Where a review job would be created by itself and a cleanup job would be created by itself: if the
-- transaction of the second runs after the first has counted the cleanups and queried the requests, and
-- before it inserts its row, then both are created, and a cleanup and a review job are active together.
pub create_job_between-both_active :
    (s : Store) (now later : ℕ) (ready : Bool) (bytes : ℕ) (start end : ℤ) (c : CleanupJob)
    (settings : Option JobSettings) (input : JobInput) (j : Job)
    → (create_cleanup_job s now ready bytes start end).1 ≡ done c
    → (create_job s.review now settings input).1 ≡ created j
    → let t = (create_cleanup_job s now ready bytes start end).0 in
      let r = create_job_between s.review s.review t.review later settings input in
      let u : Store = record t { review = r.0 } in
      ((k : Job) × (r.1 ≡ created k)) × (0 < active_cleanup_jobs u) × (0 < active_reviews u)
create_job_between-both_active s now later ready bytes start end c settings input j h g =
    let (_, _, _, _, _, _, _, _, fresh, _, listed, same) =
      create_cleanup_job-created s now ready bytes start end c h in
    let t = (create_cleanup_job s now ready bytes start end).0 in
    let (kept, (k, answer, jobs, status)) =
      between-created s.review t.review now later settings input j g in
    let cleaning : CleanupJob → Bool = λ x. is_active_cleanup x.status in
    let reviewing : Job → Bool = λ x. is_active_review x.status in
    (
      (k, answer),
      subst (λ cs. 0 < count_where cleaning cs) (sym (ap rows_of kept ∙ listed))
          (counted-last cleaning (cleanups s) c (ap is_active_cleanup fresh)),
      subst (λ js. 0 < count_where reviewing js) (sym jobs)
          (counted-last reviewing t.review.jobs k (ap is_active_review status)),
    )
