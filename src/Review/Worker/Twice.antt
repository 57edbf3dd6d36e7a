-- ===== src/Review/Worker/Twice.antt =====
-- The counting columns when an entry is processed a second time, and what a recount leaves.
use newapi_usage.Prelude.{
  ℕ, ◌+◌, ◌≡◌, ◌≢◌, refl, sym, ap, ◌∙◌, inl, inr, Bool, Text, List, [], ◌∷◌, some, arith,
  find_where-In, Bool-cases, update_where, select_where, find_where,
}
use newapi_usage.Review.Types.{Job, Entry}
use newapi_usage.Review.Database.{Database}
use newapi_usage.Review.Planner.{Runtime}
use newapi_usage.Review.Jobs.{job, has_id}
use newapi_usage.Review.Jobs.Exclusion.{find-update}
use newapi_usage.Review.Worker.Calls.{Outside, CallSettings}
use newapi_usage.Review.Worker.Selection.{WorkEntry}
use newapi_usage.Review.Worker.Content.{review_entry}
use newapi_usage.Review.Worker.Settle.{
  settlement, settled_row, counted_job, is_target, process_entry, parent_effective,
}
use newapi_usage.Review.Worker.Tables.{process_entry-tables}
use newapi_usage.Audit.Reconcile.{Tally, tally, with_tally, reconcile_review_job}
use newapi_usage.Review.Worker.Counters.{job_tally}

-- An update that matches no row leaves the table as it is.
update_none :
    (q : Entry → Bool) (f : Entry → Entry) (es : List Entry)
    → select_where q es ≡ []
    → update_where q f es ≡ es
unfolding update_where select_where
update_none q f [] h = refl
update_none q f (e ∷ es) h = elim (Bool-cases (q e)) [
  | inl hit ↦ absurd (cons_not_nil (rw hit at h))
  | inr miss ↦ rw miss (ap (◌∷◌ e) (update_none q f es (rw miss at h)))
]
  where
    cons_not_nil : {x : Entry} {xs : List Entry} → x ∷ xs ≡ [] → ⊥
    cons_not_nil g = cc

-- processEntry on an entry whose row is not pending any more leaves the entries as they are and still
-- adds 1 to the processed entries of the job, so a job counted before is counted no more.
pub process_entry-again :
    (rt : Runtime) (out : Outside) (now : ℕ) (j : Job) (config : Text) (db : Database)
    (s : CallSettings) (e : WorkEntry) (k : Job)
    → select_where (is_target e.id) db.entries ≡ []
    → job db j.id ≡ some k
    → job_tally k ≡ tally j.id db.entries
    → let db' = (process_entry rt out db now j e s config).0 in
      (db'.entries ≡ db.entries)
      × ((k' : Job) × (job db' j.id ≡ some k')
          × (k'.processed_entries ≡ k.processed_entries + 1)
          × (job_tally k' ≢ tally j.id db'.entries))
unfolding job counted_job
process_entry-again rt out now j config db s e k gone found counted =
    let st =
      settlement (parent_effective db j.id e.parent_entry_id)
        (review_entry rt out db now j.role_mode e s config) in
    let tables = process_entry-tables rt out db now j e s config in
    let same = tables.0 ∙ update_none (is_target e.id) (settled_row now st) db.entries gone in
    (
      same,
      (
        counted_job now st k,
        ap (find_where (has_id j.id)) tables.1
            ∙ find-update j.id (has_id j.id) (counted_job now st) db.jobs k (λ y. refl) found
            ∙ rw (find_where-In (has_id j.id) db.jobs found).1 refl,
        refl,
        λ h. more k.processed_entries (ap Tally.processed (h ∙ ap (tally j.id) same ∙ sym counted)),
      ),
    )
  where
    more : (n : ℕ) → n + 1 ≡ n → ⊥
    more n h = omega arith

-- The recount writes what the columns hold already when they are right: but for the time of the update
-- the row of the job stays, whatever the job.
pub reconcile-same :
    (db : Database) (now id : ℕ) (k : Job)
    → job db id ≡ some k
    → job_tally k ≡ tally id db.entries
    → job (reconcile_review_job db now id) id ≡ some (record k { updated_at = now })
unfolding job reconcile_review_job
reconcile-same db now id k found counted =
    find-update id (has_id id) (with_tally now (tally id db.entries)) db.jobs k (λ y. refl) found
    ∙ rw (find_where-In (has_id id) db.jobs found).1
        (ap (λ t. some (with_tally now t k)) (sym counted))
