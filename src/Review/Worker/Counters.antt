-- ===== src/Review/Worker/Counters.antt =====
-- The counting columns of a job, which processEntry adds to, are those that a recount of the job's
-- entries gives, as long as each entry is settled once.
use newapi_usage.Prelude.{
  ℕ, ◌+◌, ◌≡◌, refl, sym, ap, ◌∙◌, inl, inr, true, false, not, ◌&&◌, bool_int, Text, is_blank, List,
  [], ◌∷◌, some, arith, In, find_where-In, Bool-cases, update_where, select_where, find_where,
  sum_by, sum_by-update_one, select_where-In, here, subst,
}
use newapi_usage.Review.Types.{Job, Entry, is_pending, is_settled, is_flagged, is_error}
use newapi_usage.Review.Database.{Database}
use newapi_usage.Review.Planner.{Runtime}
use newapi_usage.Review.Jobs.{job, has_id}
use newapi_usage.Review.Jobs.Exclusion.{find-update}
use newapi_usage.Review.Worker.Calls.{Outside, CallSettings}
use newapi_usage.Review.Worker.Selection.{work_entry}
use newapi_usage.Review.Worker.Content.{Outcome, review_entry}
use newapi_usage.Review.Worker.Settle.{
  Settlement, settlement, settled_row, counted_job, is_target, process_entry, parent_effective,
  Inheritance,
}
use newapi_usage.Review.Worker.Tables.{process_entry-tables}
use newapi_usage.Audit.Reconcile.{Tally, tally, of_job, is_reviewed}
use newapi_usage.Review.Worker.Sound.{HasResultIds, IsSound, review_entry-IsSound}

-- The counting columns as the row of the job has them.
abbrev pub job_tally : Job → Tally
job_tally j = record {
  total = j.total_entries;
  processed = j.processed_entries;
  units = j.review_units;
  reviewed = j.reviewed_units;
  hits = j.cache_hits;
  flagged = j.flagged_entries;
  errors = j.error_entries;
  chars = j.estimated_chars;
  prompt = j.prompt_tokens;
  completion = j.completion_tokens;
}

-- A pending row as the planner writes it.
pub record IsFresh (e : Entry) : Type 0 where
  pub no_hit : e.cache_hit ≡ false
  pub no_prompt : e.prompt_tokens ≡ 0
  pub no_completion : e.completion_tokens ≡ 0

-- What the settlement of a fresh row adds to the columns.
abbrev Added : Tally → Settlement → Tally
Added t st = record {
  total = t.total;
  processed = t.processed + 1;
  units = t.units;
  reviewed = t.reviewed + bool_int st.outcome.called;
  hits = t.hits + bool_int st.outcome.cache_hit;
  flagged = t.flagged + bool_int (is_flagged st.effective.decision);
  errors = t.errors + bool_int st.is_error;
  chars = t.chars;
  prompt = t.prompt + st.outcome.usage.prompt;
  completion = t.completion + st.outcome.usage.completion;
}

of_job-in : (id : ℕ) (m : Entry → ℕ) (e : Entry) → e.job_id ≡ id → of_job id m e ≡ m e
of_job-in id m e h = ground (arith, h)

module _ (id now : ℕ) (st : Settlement) (es : List Entry) (x : Entry)
    (one : select_where (is_target x.id) es ≡ x ∷ []) (mine : x.job_id ≡ id)
    (waits : is_pending x.status ≡ true) (fresh : IsFresh x) where
  -- One column over the update of one row.
  column :
      (m : Entry → ℕ) (d : ℕ)
      → m (settled_row now st x) ≡ m x + d
      → sum_by (of_job id m) (update_where (is_target x.id) (settled_row now st) es)
        ≡ sum_by (of_job id m) es + d
  unfolding settled_row
  column m d step =
      let was = of_job-in id m x mine in
      let is_now = of_job-in id m (settled_row now st x) mine in
      let sums = sum_by-update_one (of_job id m) (is_target x.id) (settled_row now st) es x one in
      omega (arith, sums, step, was, is_now)

  still :
      (m : Entry → ℕ)
      → m (settled_row now st x) ≡ m x
      → sum_by (of_job id m) (update_where (is_target x.id) (settled_row now st) es)
        ≡ sum_by (of_job id m) es
  still m step = omega (arith, column m 0 (omega (arith, step)))

  is_processed :
      bool_int (is_settled (settled_row now st x).status) ≡ bool_int (is_settled x.status) + 1
  unfolding settled_row
  is_processed = elim (Bool-cases st.is_error) [
    | inl e ↦ rw e (ground (arith, waits))
    | inr e ↦ rw e (ground (arith, waits))
  ]

  is_failed :
      bool_int (is_error (settled_row now st x).status)
      ≡ bool_int (is_error x.status) + bool_int st.is_error
  unfolding settled_row
  is_failed = elim (Bool-cases st.is_error) [
    | inl e ↦ rw e (ground (arith, waits))
    | inr e ↦ rw e (ground (arith, waits))
  ]

  counts_flag :
      bool_int (
        is_settled (settled_row now st x).status
        && is_flagged (settled_row now st x).effective_decision)
      ≡ bool_int (is_settled x.status && is_flagged x.effective_decision)
        + bool_int (is_flagged st.effective.decision)
  unfolding settled_row
  counts_flag = elim (Bool-cases st.is_error) [
    | inl e ↦ rw e (ground (arith, waits))
    | inr e ↦ rw e (ground (arith, waits))
  ]

  counts_hit :
      bool_int (settled_row now st x).cache_hit
      ≡ bool_int x.cache_hit + bool_int st.outcome.cache_hit
  unfolding settled_row
  counts_hit = rw fresh.no_hit (omega arith)

  waits_unreviewed : is_reviewed x ≡ false
  waits_unreviewed = ground (arith, waits)

  counts_review :
      is_reviewed (settled_row now st x) ≡ st.outcome.called
      → bool_int (is_reviewed (settled_row now st x))
        ≡ bool_int (is_reviewed x) + bool_int st.outcome.called
  counts_review h = rw (h, waits_unreviewed) (omega arith)

  counts_prompt : (settled_row now st x).prompt_tokens ≡ x.prompt_tokens + st.outcome.usage.prompt
  unfolding settled_row
  counts_prompt = rw fresh.no_prompt (omega arith)

  counts_completion :
      (settled_row now st x).completion_tokens ≡ x.completion_tokens + st.outcome.usage.completion
  unfolding settled_row
  counts_completion = rw fresh.no_completion (omega arith)

  -- The recount of the settled table is the recount of the table before and one settlement more.
  tally-settled :
      is_reviewed (settled_row now st x) ≡ st.outcome.called
      → tally id (update_where (is_target x.id) (settled_row now st) es) ≡ Added (tally id es) st
  unfolding tally
  tally-settled h =
      rw
        (
          still (λ e. 1) refl,
          column (λ e. bool_int (is_settled e.status)) 1 is_processed,
          still (λ e. bool_int (not (is_blank e.content_hash))) (unfold settled_row in refl),
          column (λ e. bool_int (is_reviewed e)) _ (counts_review h),
          column (λ e. bool_int e.cache_hit) _ counts_hit,
          column (λ e. bool_int (is_settled e.status && is_flagged e.effective_decision)) _
              counts_flag,
          column (λ e. bool_int (is_error e.status)) _ is_failed,
          still (λ e. e.content_chars) (unfold settled_row in refl),
          column (λ e. e.prompt_tokens) _ counts_prompt,
          column (λ e. e.completion_tokens) _ counts_completion,
        )
        refl

-- Exactly the entries that were sent to the endpoint count as reviewed.
reviewed-called :
    (now : ℕ) (inherited : Inheritance) (o : Outcome) (x : Entry)
    → IsSound o
    → is_reviewed (settled_row now (settlement inherited o) x)
      ≡ (settlement inherited o).outcome.called
unfolding settled_row settlement
reviewed-called now inherited o x sound = elim (Bool-cases o.called) [
  | inl e ↦
      let (no_err, no_hit, result) = sound.called e in
      rw (e, no_err, no_hit) (ground (arith, result))
  | inr e ↦ elim (Bool-cases o.cache_hit) [
    | inl hit ↦ rw (e, hit) (ground arith)
    | inr miss ↦ rw (e, miss, sound.not_called e miss) (ground arith)
  ]
]

job_tally-counted :
    (now : ℕ) (st : Settlement) (k : Job)
    → job_tally (counted_job now st k) ≡ Added (job_tally k) st
unfolding counted_job
job_tally-counted now st k = refl

-- processEntry on a pending row of the job keeps the job's ten counting columns equal to what the
-- subqueries of reconcileReviewJob count over the entries, when the row is the only one with its id
-- and is as the planner wrote it, and result ids start at 1.
pub process_entry-counted :
    (rt : Runtime) (out : Outside) (now : ℕ) (j : Job) (config : Text) (db : Database)
    (s : CallSettings) (x : Entry) (k : Job)
    → HasResultIds db
    → IsFresh x
    → select_where (is_target x.id) db.entries ≡ x ∷ []
    → x.job_id ≡ j.id
    → job db j.id ≡ some k
    → job_tally k ≡ tally j.id db.entries
    → let db' = (process_entry rt out db now j (work_entry x) s config).0 in
      (k' : Job) × (job db' j.id ≡ some k') × (job_tally k' ≡ tally j.id db'.entries)
unfolding job counted_job
process_entry-counted rt out now j config db s x k ids fresh one mine found counted =
    let o = review_entry rt out db now j.role_mode (work_entry x) s config in
    let inherited = parent_effective db j.id x.parent_audit_entry_id in
    let st = settlement inherited o in
    let sound = review_entry-IsSound rt out now j s config db (work_entry x) ids in
    let tables = process_entry-tables rt out db now j (work_entry x) s config in
    let row = select_where-In (is_target x.id) {x = x} db.entries (subst (In x) (sym one) here) in
    let sums =
      tally-settled j.id now st db.entries x one mine (target_pending x row.1) fresh
        (reviewed-called now inherited o x sound) in
    (
      counted_job now st k,
      ap (find_where (has_id j.id)) tables.1
          ∙ find-update j.id (has_id j.id) (counted_job now st) db.jobs k (λ y. refl) found
          ∙ rw (find_where-In (has_id j.id) db.jobs found).1 refl,
      job_tally-counted now st k
          ∙ ap (λ t. Added t st) counted
          ∙ sym sums
          ∙ ap (tally j.id) (sym tables.0),
    )
  where
    target_pending : (x : Entry) → is_target x.id x ≡ true → is_pending x.status ≡ true
    target_pending x h = ground arith
