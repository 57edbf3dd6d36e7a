-- ===== src/Audit/Cleanup/Lifecycle.antt =====
-- The statements on the status of a cleanup job in internal/audit/cleanup.go: CreateCleanupJob,
-- CancelCleanupJob, claimNextCleanupJob, finishCleanupJob and failCleanupJob, and the loops of
-- executeCleanupJob. The bytes of an estimate are an argument.
use newapi_usage.Prelude.{
  ℕ, suc, Bool, true, false, not, ◌&&◌, ◌||◌, Text, List, [], ◌∷◌, ◌++◌, Option, none, some, ℤ, pos,
  pos_part, leb_ℤ, ltb_ℤ, ltb, leb, ◌==◌, if◌then◌else◌, length, update_where, select_where,
  find_where, count_where, sum_by, sort_by,
}
use newapi_usage.Audit.Types.{
  CleanupStatus, queued, running, canceled, failed, CleanupJob, is_active_cleanup,
}
use newapi_usage.Audit.Cleanup.{
  Store, CatalogRow, Alert, cleanups, with_cleanups, in_cleanup, has_cleanup_id,
}
use newapi_usage.Review.Types.{Status, Job, Entry}

abbrev pub is_queued_cleanup : CleanupStatus → Bool
is_queued_cleanup queued = true
is_queued_cleanup _ = false

abbrev pub is_running_cleanup : CleanupStatus → Bool
is_running_cleanup running = true
is_running_cleanup _ = false

-- status IN ('queued', 'claimed', 'planning', 'running', 'paused')
abbrev pub is_active_review : Status → Bool
is_active_review Status.completed = false
is_active_review Status.canceled = false
is_active_review Status.failed = false
is_active_review _ = true

pub data CleanupError : Type 0 where
  bad_range preparing no_data cleanup_conflict review_conflict not_found not_cancelable :
      CleanupError

pub data CleanupResult : Type 0 where
  done : CleanupJob → CleanupResult
  refused : CleanupError → CleanupResult

pub record Estimate : Type 0 where
  pub entries : ℕ
  pub alerts : ℕ
  pub matches : ℕ
  pub review_rows : ℕ

-- The counts of EstimateCleanup; `job` gives the range.
unfoldable pub estimate_cleanup : Store → CleanupJob → Estimate
estimate_cleanup s j =
    let rows = select_where (λ (c : CatalogRow). in_cleanup j c.created_at) s.catalog in
    record {
      entries = length rows;
      alerts = count_where (λ (a : Alert). in_cleanup j a.request_at) s.alerts;
      matches =
          sum_by (λ (c : CatalogRow). count_where (λ m. m == c.audit_entry_id) s.matches) rows;
      review_rows =
          sum_by
            (λ (c : CatalogRow).
              count_where (λ (e : Entry). e.audit_entry_id == c.audit_entry_id) s.review.entries)
            rows;
    }

abbrev pub new_cleanup : ℕ → ℕ → ℕ → ℕ → ℕ → CleanupJob
new_cleanup id now start end bytes = record {
  id = id;
  start_at = start;
  end_at = end;
  status = queued;
  estimated_entries = 0;
  estimated_alerts = 0;
  estimated_matches = 0;
  estimated_review_rows = 0;
  estimated_bytes = bytes;
  deleted_entries = 0;
  deleted_alerts = 0;
  deleted_matches = 0;
  deleted_review_rows = 0;
  deleted_bytes = 0;
  cancel_requested = false;
  error_text = [];
  created_at = now;
  started_at = 0;
  completed_at = 0;
  updated_at = now;
}

abbrev pub estimated : Estimate → CleanupJob → CleanupJob
estimated e j = record j {
  estimated_entries = e.entries;
  estimated_alerts = e.alerts;
  estimated_matches = e.matches;
  estimated_review_rows = e.review_rows;
}

abbrev pub active_reviews : Store → ℕ
active_reviews s = count_where (λ (j : Job). is_active_review j.status) s.review.jobs

abbrev pub active_cleanup_jobs : Store → ℕ
active_cleanup_jobs s = count_where (λ (j : CleanupJob). is_active_cleanup j.status) (cleanups s)

abbrev pub bad_cleanup_range : ℤ → ℤ → Bool
bad_cleanup_range start end = leb_ℤ start (pos 0) || leb_ℤ end (pos 0) || ltb_ℤ end start

-- The transaction of CreateCleanupJob.
unfoldable pub insert_cleanup : Store → Estimate → CleanupJob → Store × CleanupResult
insert_cleanup s e j =
    if ltb 0 (active_cleanup_jobs s)
    then (s, refused cleanup_conflict)
    else if ltb 0 (active_reviews s)
    then (s, refused review_conflict)
    else (
      record s {
        review = with_cleanups s.review (cleanups s ++ estimated e j ∷ []);
        next_cleanup_id = suc s.next_cleanup_id;
      },
      done (estimated e j),
    )

-- `ready` is whether the catalog is filled.
unfoldable pub create_cleanup_job : Store → ℕ → Bool → ℕ → ℤ → ℤ → Store × CleanupResult
unfolding estimate_cleanup insert_cleanup
create_cleanup_job s now ready bytes start end =
    let j = new_cleanup s.next_cleanup_id now (pos_part start) (pos_part end) bytes in
    let e = estimate_cleanup s j in
    if bad_cleanup_range start end
    then (s, refused bad_range)
    else if not ready
    then (s, refused preparing)
    else if e.entries == 0 && e.alerts == 0
    then (s, refused no_data)
    else insert_cleanup s e j

abbrev pub cleanup_result : Option CleanupJob → CleanupResult
cleanup_result none = refused not_found
cleanup_result (some j) = done j

abbrev pub canceled_row : ℕ → CleanupJob → CleanupJob
canceled_row now j = record j {
  cancel_requested = true;
  status = if is_queued_cleanup j.status then canceled else j.status;
  completed_at = if is_queued_cleanup j.status then now else j.completed_at;
  updated_at = now;
}

abbrev pub active_row : ℕ → CleanupJob → Bool
active_row id j = j.id == id && is_active_cleanup j.status

unfoldable pub cancel_cleanup_job : Store → ℕ → ℕ → Store × CleanupResult
cancel_cleanup_job s now id =
    let js = update_where (active_row id) (canceled_row now) (cleanups s) in
    if length (select_where (active_row id) (cleanups s)) == 0
    then (
      s,
      elim (find_where (has_cleanup_id id) (cleanups s)) [
        | none ↦ refused not_found
        | some j ↦ refused not_cancelable
      ],
    )
    else (
      record s { review = with_cleanups s.review js },
      cleanup_result (find_where (has_cleanup_id id) js),
    )

abbrev pub first_cleanup : List CleanupJob → Option CleanupJob
first_cleanup [] = none
first_cleanup (j ∷ js) = some j

abbrev pub cleanup_by_id : CleanupJob → CleanupJob → Bool
cleanup_by_id a b = leb a.id b.id

abbrev pub queued_row : ℕ → CleanupJob → Bool
queued_row id j = j.id == id && is_queued_cleanup j.status

abbrev pub started_row : ℕ → CleanupJob → CleanupJob
started_row now j = record j {
  status = running;
  started_at = if j.started_at == 0 then now else j.started_at;
  updated_at = now;
}

-- `none` is sql.ErrNoRows.
unfoldable pub claim_next_cleanup_job : Store → ℕ → Store × Option CleanupJob
claim_next_cleanup_job s now =
    elim (first_cleanup (
      sort_by cleanup_by_id
        (select_where (λ (j : CleanupJob). is_queued_cleanup j.status) (cleanups s)))) [
          | none ↦ (s, none)
          | some j ↦ if j.cancel_requested then (s, none) else (
            record s {
              review =
                  with_cleanups s.review
                    (update_where (queued_row j.id) (started_row now) (cleanups s));
            },
            some (record j { status = running; started_at = now }),
          )
        ]

abbrev pub running_row : ℕ → CleanupJob → Bool
running_row id j = j.id == id && is_running_cleanup j.status

unfoldable pub finish_cleanup_job : Store → ℕ → ℕ → CleanupStatus → Store
finish_cleanup_job s now id status = record s {
  review = with_cleanups s.review (
      update_where (running_row id)
        (λ (j : CleanupJob). record j { status = status; completed_at = now; updated_at = now })
        (cleanups s));
}

unfoldable pub fail_cleanup_job : Store → ℕ → ℕ → Text → Store
fail_cleanup_job s now id message = record s {
  review = with_cleanups s.review (
      update_where (has_cleanup_id id)
        (λ (j : CleanupJob). record j {
          status = failed;
          error_text = message;
          completed_at = now;
          updated_at = now;
        })
        (cleanups s));
}

abbrev pub asked_of : Option CleanupJob → Option Bool
asked_of none = none
asked_of (some j) = some j.cancel_requested

-- cleanupCancelRequested; `none` is sql.ErrNoRows.
unfoldable pub cancel_requested : Store → ℕ → Option Bool
cancel_requested s id = asked_of (find_where (has_cleanup_id id) (cleanups s))
