-- ===== src/Audit/Cleanup/Reconciled.antt =====
-- The counting columns of the review jobs stay right when a cleanup deletes entries under them.
use newapi_usage.Prelude.{
  ℕ, ◌+◌, ◌≡◌, refl, ap, sym, ◌∙◌, ◌⊎◌, inl, inr, true, false, not, ◌&&◌, bool_int, is_blank, List,
  [], ◌∷◌, arith, ◌==◌, if◌then◌else◌, All, map, Bool-cases, update_where, delete_where, sum_by,
}
use newapi_usage.Audit.Types.{CleanupJob}
use newapi_usage.Audit.Reconcile.{tally, of_job, is_reviewed, with_tally, reconcile_review_job}
use newapi_usage.Audit.Cleanup.{
  Store, cleanup_review_job_ids, reconcile_all, without_parent, is_audit_of, without_entries,
  clean_review, delete_entries, cleanup_entry_rows, cleanup_entry_batch,
}
use newapi_usage.Review.Types.{Job, Entry, is_settled, is_flagged, is_error}
use newapi_usage.Review.Database.{Database, AuditRow}
use newapi_usage.Review.Jobs.{has_id}
use newapi_usage.Review.Jobs.Input.{contains_id}
use newapi_usage.Review.Worker.Counters.{job_tally}

-- The columns of the job are the recount of its entries.
abbrev pub Counted : List Entry → Job → Type 0
Counted es k = job_tally k ≡ tally k.id es

-- No entry of the job has an audit entry of the list.
abbrev Spared : List ℕ → ℕ → Entry → Type 0
Spared ids id e = e.job_id ≡ id → is_audit_of ids e ≡ false

job_ids-Spared :
    (ids : List ℕ) (es : List Entry) (seen : List ℕ) (id : ℕ)
    → contains_id (cleanup_review_job_ids ids es seen) id ≡ false
    → contains_id seen id ≡ false
    → All (Spared ids id) es
unfolding cleanup_review_job_ids contains_id
job_ids-Spared ids [] seen id h g = tt
job_ids-Spared ids (e ∷ es) seen id h g = elim (Bool-cases (contains_id ids e.audit_entry_id)) [
  | inr miss ↦ ((λ own. miss), job_ids-Spared ids es seen id (rw miss at h) g)
  | inl hit ↦ elim (Bool-cases (contains_id seen e.job_id)) [
    | inl old ↦
        ((λ own. absurd (clash own old)), job_ids-Spared ids es seen id (rw (hit, old) at h) g)
    | inr new ↦
        let parts = split (cleanup_review_job_ids ids es (e.job_id ∷ seen)) (rw (hit, new) at h) in
        (
          (λ own. absurd (parts.0 own)),
          job_ids-Spared ids es (e.job_id ∷ seen) id parts.1 (front parts.0),
        )
  ]
]
  where
    clash : e.job_id ≡ id → contains_id seen e.job_id ≡ true → ⊥
    clash own old = cc

    split :
        (l : List ℕ)
        → contains_id (e.job_id ∷ l) id ≡ false
        → (e.job_id ≡ id → ⊥) × (contains_id l id ≡ false)
    split l h = ground arith

    front : (e.job_id ≡ id → ⊥) → contains_id (e.job_id ∷ seen) id ≡ false
    front apart = ground (arith, apart, g)

of_job-same :
    (id : ℕ) (m : Entry → ℕ) (e f : Entry)
    → m f ≡ m e
    → f.job_id ≡ e.job_id
    → of_job id m f ≡ of_job id m e
of_job-same id m e f h g = ground (arith, h, g)

module _ (ids : List ℕ) (id : ℕ) where
  -- One row, as it was or without its parent.
  row_kept :
      (m : Entry → ℕ) (e f : Entry) (xs ys : List Entry)
      → m f ≡ m e
      → f.job_id ≡ e.job_id
      → f.audit_entry_id ≡ e.audit_entry_id
      → Spared ids id e
      → sum_by (of_job id m) xs ≡ sum_by (of_job id m) ys
      → sum_by (of_job id m) (if is_audit_of ids f then xs else f ∷ xs)
        ≡ of_job id m e + sum_by (of_job id m) ys
  unfolding sum_by
  row_kept m e f xs ys same job_of audit_of spared rest =
      let alike = of_job-same id m e f same job_of in
      elim (Bool-cases (e.job_id == id)) [
        | inl own ↦
            let miss : is_audit_of ids f ≡ false =
              ap (contains_id ids) audit_of ∙ spared (is_own own) in
            rw miss (omega (arith, alike, rest))
        | inr other ↦ elim (Bool-cases (is_audit_of ids f)) [
          | inl hit ↦ rw hit (omega (arith, rest, none_of other))
          | inr miss ↦ rw miss (omega (arith, rest, alike))
        ]
      ]
    where
      is_own : (e.job_id == id) ≡ true → e.job_id ≡ id
      is_own own = ground arith

      none_of : (e.job_id == id) ≡ false → of_job id m e ≡ 0
      none_of other = rw other refl

  -- A column that does not read the parent sums to the same.
  column_kept :
      (m : Entry → ℕ) (es : List Entry)
      → ((e : Entry) → m (without_parent e) ≡ m e)
      → All (Spared ids id) es
      → sum_by (of_job id m) (without_entries ids es) ≡ sum_by (of_job id m) es
  unfolding without_entries update_where delete_where sum_by
  column_kept m [] same spared = refl
  column_kept m (e ∷ es) same spared =
      let rest = column_kept m es same spared.1 in
      elim (Bool-cases (contains_id ids e.parent_audit_entry_id)) [
        | inl child ↦
            rw child (row_kept m e (without_parent e) _ _ (same e) refl refl spared.0 rest)
        | inr free ↦ rw free (row_kept m e e _ _ refl refl refl spared.0 rest)
      ]

  tally_kept :
      (es : List Entry) → All (Spared ids id) es → tally id (without_entries ids es) ≡ tally id es
  unfolding tally
  tally_kept es spared =
      rw
        (
          column_kept (λ e. 1) es (λ e. refl) spared,
          column_kept (λ e. bool_int (is_settled e.status)) es (λ e. refl) spared,
          column_kept (λ e. bool_int (not (is_blank e.content_hash))) es (λ e. refl) spared,
          column_kept (λ e. bool_int (is_reviewed e)) es (λ e. refl) spared,
          column_kept (λ e. bool_int e.cache_hit) es (λ e. refl) spared,
          column_kept (λ e. bool_int (is_settled e.status && is_flagged e.effective_decision)) es
              (λ e. refl) spared,
          column_kept (λ e. bool_int (is_error e.status)) es (λ e. refl) spared,
          column_kept (λ e. e.content_chars) es (λ e. refl) spared,
          column_kept (λ e. e.prompt_tokens) es (λ e. refl) spared,
          column_kept (λ e. e.completion_tokens) es (λ e. refl) spared,
        )
        refl

contains_cons :
    (l : List ℕ) (x id : ℕ) → (x == id) ≡ false → contains_id (x ∷ l) id ≡ contains_id l id
unfolding contains_id
contains_cons l x id h = rw h refl

-- The rows of the jobs that are not in the list are right already.
abbrev Waiting : List Entry → List ℕ → Job → Type 0
Waiting es l k = contains_id l k.id ≡ false → Counted es k

reconcile-Waiting :
    (es : List Entry) (now x : ℕ) (l : List ℕ) (js : List Job)
    → All (Waiting es (x ∷ l)) js
    → All (Waiting es l) (update_where (has_id x) (with_tally now (tally x es)) js)
unfolding update_where
reconcile-Waiting es now x l [] h = tt
reconcile-Waiting es now x l (k ∷ js) h = elim (Bool-cases (k.id == x)) [
  | inl hit ↦
      rw hit ((λ g. ap (λ i. tally i es) (sym (is_same hit))), reconcile-Waiting es now x l js h.1)
  | inr miss ↦
      rw miss
        ((λ g. h.0 (contains_cons l x k.id (apart miss) ∙ g)), reconcile-Waiting es now x l js h.1)
]
  where
    is_same : (k.id == x) ≡ true → k.id ≡ x
    is_same hit = ground arith

    apart : (k.id == x) ≡ false → (x == k.id) ≡ false
    apart miss = ground arith

reconcile_all-Counted :
    (now : ℕ) (l : List ℕ) (db : Database)
    → All (Waiting db.entries l) db.jobs
    → let db' = reconcile_all now db l in
      (db'.entries ≡ db.entries) × All (Waiting db.entries []) db'.jobs
unfolding reconcile_all reconcile_review_job
reconcile_all-Counted now [] db h = (refl, h)
reconcile_all-Counted now (x ∷ l) db h =
    reconcile_all-Counted now l (reconcile_review_job db now x)
      (reconcile-Waiting db.entries now x l db.jobs h)

without_entries-Waiting :
    (ids : List ℕ) (es : List Entry) (js : List Job)
    → All (Counted es) js
    → All (Waiting (without_entries ids es) (cleanup_review_job_ids ids es [])) js
unfolding contains_id
without_entries-Waiting ids es [] h = tt
without_entries-Waiting ids es (k ∷ js) h = (
  (λ g. h.0 ∙ sym (tally_kept ids k.id es (job_ids-Spared ids es [] k.id g refl))),
  without_entries-Waiting ids es js h.1,
)

Waiting-Counted : (es : List Entry) (js : List Job) → All (Waiting es []) js → All (Counted es) js
unfolding contains_id
Waiting-Counted es [] h = tt
Waiting-Counted es (k ∷ js) h = (h.0 refl, Waiting-Counted es js h.1)

clean_review-Counted :
    (now : ℕ) (ids : List ℕ) (db : Database)
    → All (Counted db.entries) db.jobs
    → let db' = clean_review now ids db in All (Counted db'.entries) db'.jobs
unfolding clean_review
clean_review-Counted now ids db h =
    let r =
      reconcile_all-Counted now (cleanup_review_job_ids ids db.entries [])
        (record db { entries = without_entries ids db.entries })
        (without_entries-Waiting ids db.entries db.jobs h) in
    rw r.0 (Waiting-Counted (without_entries ids db.entries) _ r.1)

rows-cases :
    (rows : List AuditRow) → (rows ≡ []) ⊎ ((r : AuditRow) × (rs : List AuditRow) × (rows ≡ r ∷ rs))
rows-cases [] = inl refl
rows-cases (r ∷ rs) = inr (r, rs, refl)

-- A cleanup batch, which takes audited requests away with the review entries on them, keeps the
-- counting columns of every review job what a recount of its remaining entries gives, though it
-- recounts only the jobs that lose an entry.
pub cleanup_entry_batch-Counted :
    (now : ℕ) (s : Store) (j : CleanupJob)
    → All (Counted s.review.entries) s.review.jobs
    → let db = (cleanup_entry_batch now s j).0.review in All (Counted db.entries) db.jobs
unfolding cleanup_entry_batch delete_entries
cleanup_entry_batch-Counted now s j h = elim (rows-cases (cleanup_entry_rows s j)) [
  | inl e ↦ rw (e, cleanup_entry_batch) h
  | inr (r, rs, e) ↦
      rw (e, cleanup_entry_batch)
        (clean_review-Counted now (map (λ (x : AuditRow). x.id) (r ∷ rs)) s.review h)
]
