-- ===== src/Audit/Cleanup/Admission.antt =====
-- The creation of a cleanup job, and of a review job beside it.
use newapi_usage.Prelude.{
  ℕ, ◌+◌, ◌<◌, ◌≤◌, ◌≡◌, ◌⊎◌, inl, inr, Bool, true, List, [], ◌∷◌, ◌++◌, ℤ, pos, sum_by, arith, ltb,
  length, In, here, there, Bool-cases, count_where, select_where,
}
use newapi_usage.Audit.Types.{queued, CleanupJob}
use newapi_usage.Audit.Cleanup.{Store, CatalogRow, Alert, cleanups, in_cleanup}
use newapi_usage.Audit.Cleanup.Lifecycle.{
  done, estimate_cleanup, new_cleanup, active_reviews, active_cleanup_jobs, insert_cleanup,
  create_cleanup_job,
}

-- A row of the catalog or an alert in the range.
abbrev pub Covers : Store → ℕ → ℕ → Type 0
Covers s start end =
    ((c : CatalogRow) × In c s.catalog × (start ≤ c.created_at) × (c.created_at ≤ end))
    ⊎ ((a : Alert) × In a s.alerts × (start ≤ a.request_at) × (a.request_at ≤ end))

module _ {A : Type 0} where
  -- What is counted is there.
  counted-In :
      (q : A → Bool) (xs : List A) → 0 < count_where q xs → (x : A) × In x xs × (q x ≡ true)
  unfolding count_where sum_by
  counted-In q [] h = absurd (omega (arith, h))
  counted-In q (x ∷ xs) h = elim (Bool-cases (q x)) [
    | inl e ↦ (x, here, e)
    | inr e ↦ let r = counted-In q xs (ground (arith, e, h)) in (r.0, there r.1, r.2)
  ]

  listed-In :
      (q : A → Bool) (xs : List A)
      → 0 < length (select_where q xs)
      → (x : A) × In x xs × (q x ≡ true)
  unfolding select_where
  listed-In q [] h = absurd (omega (arith, h))
  listed-In q (x ∷ xs) h = elim (Bool-cases (q x)) [
    | inl e ↦ (x, here, e)
    | inr e ↦ let r = listed-In q xs (rw e at h) in (r.0, there r.1, r.2)
  ]

  pub counted-last :
      (q : A → Bool) (xs : List A) (x : A) → q x ≡ true → 0 < count_where q (xs ++ x ∷ [])
  unfolding count_where sum_by
  counted-last q [] x h = rw h (omega arith)
  counted-last q (y ∷ xs) x h = omega (arith, counted-last q xs x h)

within : (j : CleanupJob) (at : ℕ) → in_cleanup j at ≡ true → (j.start_at ≤ at) × (at ≤ j.end_at)
within j at h = ground arith

-- An estimate counts what is in the range.
estimate-Covers :
    (s : Store) (j : CleanupJob)
    → 0 < (estimate_cleanup s j).entries + (estimate_cleanup s j).alerts
    → Covers s j.start_at j.end_at
unfolding estimate_cleanup
estimate-Covers s j h = elim (Bool-cases (ltb 0 (length (select_where listed s.catalog)))) [
  | inl some_rows ↦
      let r = listed-In listed s.catalog (ground (arith, some_rows)) in
      let b = within j r.0.created_at r.2 in inl (r.0, r.1, b.0, b.1)
  | inr no_rows ↦
      let r = counted-In alerted s.alerts (ground (arith, no_rows, h)) in
      let b = within j r.0.request_at r.2 in inr (r.0, r.1, b.0, b.1)
]
  where
    listed : CatalogRow → Bool
    listed c = in_cleanup j c.created_at

    alerted : Alert → Bool
    alerted a = in_cleanup j a.request_at

-- What a successful creation passes, on an estimate that is not looked into.
created_row :
    (s : Store) (now : ℕ) (ready : Bool) (bytes : ℕ) (start end : ℤ) (j : CleanupJob)
    → (create_cleanup_job s now ready bytes start end).1 ≡ done j
    → (ready ≡ true)
      × (0 < j.start_at)
      × (j.start_at ≤ j.end_at)
      × (pos j.start_at ≡ start)
      × (pos j.end_at ≡ end)
      × (0
          < (estimate_cleanup s
              (new_cleanup s.next_cleanup_id now j.start_at j.end_at bytes)).entries
            + (estimate_cleanup s
                (new_cleanup s.next_cleanup_id now j.start_at j.end_at bytes)).alerts)
      × (active_cleanup_jobs s ≡ 0)
      × (active_reviews s ≡ 0)
      × (j.status ≡ queued)
      × (j.id ≡ s.next_cleanup_id)
      × (cleanups (create_cleanup_job s now ready bytes start end).0 ≡ cleanups s ++ j ∷ [])
      × ((create_cleanup_job s now ready bytes start end).0.review.jobs ≡ s.review.jobs)
unfolding create_cleanup_job insert_cleanup
created_row s now ready bytes start end j h = ground arith

-- A cleanup job is created only with the catalog filled, for the range that is asked for, which starts
-- after 0, does not end before it starts and has a row of the catalog or an alert in it, with no other
-- cleanup queued or running and no review job queued, at work or paused; it enters the queue under the
-- next id, behind the others, and no review job changes.
pub create_cleanup_job-created :
    (s : Store) (now : ℕ) (ready : Bool) (bytes : ℕ) (start end : ℤ) (j : CleanupJob)
    → (create_cleanup_job s now ready bytes start end).1 ≡ done j
    → (ready ≡ true)
      × (0 < j.start_at)
      × (j.start_at ≤ j.end_at)
      × (pos j.start_at ≡ start)
      × (pos j.end_at ≡ end)
      × Covers s j.start_at j.end_at
      × (active_cleanup_jobs s ≡ 0)
      × (active_reviews s ≡ 0)
      × (j.status ≡ queued)
      × (j.id ≡ s.next_cleanup_id)
      × (cleanups (create_cleanup_job s now ready bytes start end).0 ≡ cleanups s ++ j ∷ [])
      × ((create_cleanup_job s now ready bytes start end).0.review.jobs ≡ s.review.jobs)
create_cleanup_job-created s now ready bytes start end j h =
    let (a, b, c, d, e, f, g, k, l, m, n, o) = created_row s now ready bytes start end j h in
    let range = new_cleanup s.next_cleanup_id now j.start_at j.end_at bytes in
    (a, b, c, d, e, estimate-Covers s range f, g, k, l, m, n, o)
