-- ===== src/Review/Worker/Selection.antt =====
-- Which entries a worker of internal/review/worker.go takes next: nextReadyWorkEntries, and the
-- groups of processWorkBatch.
use newapi_usage.Prelude.{
  ℕ, Bool, false, not, ◌&&◌, ◌||◌, Text, text_eq, is_blank, List, [], ◌∷◌, ◌++◌, map, Option, none,
  some, ltb, leb, ◌==◌, if◌then◌else◌, take, select_where, exists_where, count_where, sort_by,
}
use newapi_usage.Review.Types.{Job, Entry, is_running, is_pending, is_settled}
use newapi_usage.Review.Database.{Database}
use newapi_usage.Review.Jobs.{job}

pub record WorkEntry : Type 0 where
  pub id : ℕ
  pub audit_entry_id : ℕ
  pub token_id : ℕ
  pub created_at : ℕ
  pub parent_entry_id : ℕ
  pub delta_start : ℕ
  pub content_hash : Text

unfoldable pub ordered_cursor : Entry → Entry → Bool
ordered_cursor a b =
    ltb a.token_id b.token_id
    || (a.token_id == b.token_id
        && (ltb a.created_at b.created_at
            || (a.created_at == b.created_at && leb a.audit_entry_id b.audit_entry_id)))

abbrev pub work_entry : Entry → WorkEntry
work_entry e = record {
  id = e.id;
  audit_entry_id = e.audit_entry_id;
  token_id = e.token_id;
  created_at = e.created_at;
  parent_entry_id = e.parent_audit_entry_id;
  delta_start = e.delta_start_index;
  content_hash = e.content_hash;
}

abbrev pub is_parent : ℕ → ℕ → Entry → Bool
is_parent job_id audit_id p = p.job_id == job_id && p.audit_entry_id == audit_id

-- The condition of the query of nextReadyWorkEntries.
unfoldable pub is_ready : List Entry → ℕ → Entry → Bool
is_ready all job_id e =
    e.job_id == job_id
    && is_pending e.status
    && (e.parent_audit_entry_id == 0
        || not (exists_where (is_parent job_id e.parent_audit_entry_id) all)
        || exists_where (λ p. is_parent job_id e.parent_audit_entry_id p && is_settled p.status)
            all)

unfoldable pub next_ready_work_entries : Database → ℕ → ℕ → List WorkEntry
unfolding is_ready ordered_cursor
next_ready_work_entries db job_id limit =
    map work_entry
      (take limit (sort_by ordered_cursor (select_where (is_ready db.entries job_id) db.entries)))

abbrev pub is_open : ℕ → Entry → Bool
is_open job_id e = e.job_id == job_id && is_pending e.status

unfoldable pub pending_entries : Database → ℕ → ℕ
pending_entries db job_id = count_where (is_open job_id) db.entries

abbrev pub row_is_running : Option Job → Bool
row_is_running none = false
row_is_running (some j) = is_running j.status

-- currentJobStatus(…) == StatusRunning
unfoldable pub job_is_running : Database → ℕ → Bool
unfolding job
job_is_running db id = row_is_running (job db id)

-- Entries with one content hash form a group, in the order of their first entries; an entry without
-- new content is a group of its own.
abbrev pub same_group : WorkEntry → WorkEntry → Bool
same_group a b =
    if is_blank a.content_hash then a.id == b.id else text_eq a.content_hash b.content_hash

unfoldable pub add_to_groups :
    List (WorkEntry × List WorkEntry) → WorkEntry → List (WorkEntry × List WorkEntry)
add_to_groups [] e = (e, []) ∷ []
add_to_groups ((first, rest) ∷ gs) e =
    if same_group first e then (first, rest ++ e ∷ []) ∷ gs else (first, rest) ∷ add_to_groups gs e

unfoldable pub group_entries :
    List (WorkEntry × List WorkEntry) → List WorkEntry → List (WorkEntry × List WorkEntry)
unfolding add_to_groups
group_entries gs [] = gs
group_entries gs (e ∷ es) = group_entries (add_to_groups gs e) es
