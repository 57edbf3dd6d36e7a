-- ===== src/Audit/Cleanup/Asked.antt =====
-- What a cleanup job reads of its own row in audit_cleanup_jobs while it runs: whether it is asked to
-- stop, and its status (internal/audit/cleanup.go).
use newapi_usage.Prelude.{
  ℕ, ◌≡◌, refl, ap, inl, inr, Bool, true, Option, none, some, List, ◌==◌, if◌then◌else◌, Bool-cases,
  find_where, find_where-In, update_where, find_where-update_where,
}
use newapi_usage.Audit.Types.{CleanupStatus, running, CleanupJob}
use newapi_usage.Audit.Cleanup.{
  Store, Alert, cleanups, has_cleanup_id, counted_cleanup, counted_alerts, delete_entries,
  delete_alerts,
}
use newapi_usage.Audit.Cleanup.Lifecycle.{
  asked_of, cancel_requested, finish_cleanup_job, running_row,
}
use newapi_usage.Review.Database.{AuditRow}

-- The row of a cleanup job, if it is there.
abbrev pub row : Store → ℕ → Option CleanupJob
row s id = find_where (has_cleanup_id id) (cleanups s)

abbrev pub requested : Option CleanupJob → Option Bool
requested none = none
requested (some c) = some c.cancel_requested

abbrev pub status_of : Option CleanupJob → Option CleanupStatus
status_of none = none
status_of (some c) = some c.status

pub cancel_requested-row : (s : Store) (id : ℕ) → cancel_requested s id ≡ requested (row s id)
unfolding cancel_requested
cancel_requested-row s id = same (row s id)
  where
    same : (o : Option CleanupJob) → asked_of o ≡ requested o
    same none = refl
    same (some c) = refl

-- A statement on a job's row that keeps its id, its status and what is asked of it.
pub update-kept :
    (id : ℕ) (f : CleanupJob → CleanupJob) (cs : List CleanupJob)
    → ((c : CleanupJob) → (f c).id ≡ c.id)
    → ((c : CleanupJob) → (f c).cancel_requested ≡ c.cancel_requested)
    → ((c : CleanupJob) → (f c).status ≡ c.status)
    → let before = find_where (has_cleanup_id id) cs in
      let after = find_where (has_cleanup_id id) (update_where (has_cleanup_id id) f cs) in
      (requested after ≡ requested before) × (status_of after ≡ status_of before)
update-kept id f cs ids asked status =
    let found =
      find_where-update_where (has_cleanup_id id) (has_cleanup_id id) f cs
        (λ c. ap (λ n. n == id) (ids c)) in
    rw found (kept (find_where (has_cleanup_id id) cs))
  where
    kept :
        (o : Option CleanupJob)
        → let after : Option CleanupJob = elim o [
          | none ↦ none
          | some c ↦ some (if has_cleanup_id id c then f c else c)
        ] in
          (requested after ≡ requested o) × (status_of after ≡ status_of o)
    kept none = (refl, refl)
    kept (some c) = elim (Bool-cases (has_cleanup_id id c)) [
      | inl e ↦ rw e (ap some (asked c), ap some (status c))
      | inr e ↦ rw e (refl, refl)
    ]

pub delete_entries-row :
    (now : ℕ) (s : Store) (j : CleanupJob) (batch : List AuditRow)
    → (requested (row (delete_entries now s j batch) j.id) ≡ requested (row s j.id))
      × (status_of (row (delete_entries now s j batch) j.id) ≡ status_of (row s j.id))
unfolding delete_entries counted_cleanup
delete_entries-row now s j batch =
    update-kept j.id (counted_cleanup now s batch _) (cleanups s) (λ c. refl) (λ c. refl)
      (λ c. refl)

pub delete_alerts-row :
    (now : ℕ) (s : Store) (j : CleanupJob) (batch : List Alert)
    → (requested (row (delete_alerts now s j batch) j.id) ≡ requested (row s j.id))
      × (status_of (row (delete_alerts now s j batch) j.id) ≡ status_of (row s j.id))
unfolding delete_alerts counted_alerts
delete_alerts-row now s j batch =
    update-kept j.id (counted_alerts now s batch _) (cleanups s) (λ c. refl) (λ c. refl) (λ c. refl)

-- The last statement of a job that is still at work sets its status.
pub finish-status :
    (s : Store) (now id : ℕ) (status : CleanupStatus)
    → status_of (row s id) ≡ some running
    → status_of (row (finish_cleanup_job s now id status) id) ≡ some status
unfolding finish_cleanup_job
finish-status s now id status h =
    let f : CleanupJob → CleanupJob =
      λ j. record j { status = status; completed_at = now; updated_at = now } in
    let found =
      find_where-update_where (has_cleanup_id id) (running_row id) f (cleanups s) (λ c. refl) in
    rw found (changed (row s id) refl h)
  where
    changed :
        (o : Option CleanupJob)
        → row s id ≡ o
        → status_of o ≡ some running
        → status_of (elim o [
          | none ↦ none
          | some c ↦ some (
              if running_row id c
              then record c { status = status; completed_at = now; updated_at = now }
              else c)
        ])
          ≡ some status
    changed none e g = cc
    changed (some c) e g =
        let at : has_cleanup_id id c ≡ true =
          (find_where-In (has_cleanup_id id) (cleanups s) {x = c} e).1 in
        let work : c.status ≡ running = cc in rw (at, work) refl
