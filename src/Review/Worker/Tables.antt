-- ===== src/Review/Worker/Tables.antt =====
-- What processEntry writes into the two tables it settles an entry in.
use newapi_usage.Prelude.{
  ℕ, ◌≡◌, refl, inl, inr, Text, text_eq, is_blank, Bool-cases, Option-cases, update_where,
}
use newapi_usage.Review.Types.{Job}
use newapi_usage.Review.Database.{Database}
use newapi_usage.Review.Planner.{Runtime, delta_content}
use newapi_usage.Review.Jobs.{has_id}
use newapi_usage.Review.Worker.Calls.{
  Outside, CallSettings, decided, gave_up, Reviewed, fetched, unreadable, Fetched,
}
use newapi_usage.Review.Worker.Selection.{WorkEntry}
use newapi_usage.Review.Worker.Content.{
  review_entry, review_content, after_call, store_result, cached_result,
}
use newapi_usage.Review.Worker.Settle.{
  settlement, settled_row, counted_job, is_target, settle, process_entry, parent_effective,
}

-- The review of the content writes neither the jobs nor the entries.
record Untouched (db db' : Database) : Type 0 where
  jobs : db'.jobs ≡ db.jobs
  entries : db'.entries ≡ db.entries

after_call-Untouched :
    (db : Database) (now : ℕ) (s : CallSettings) (hash config : Text) (r : Reviewed)
    → Untouched db (after_call db now s hash config r).database
unfolding after_call store_result
after_call-Untouched db now s hash config (gave_up e) = record { jobs = refl; entries = refl }
after_call-Untouched db now s hash config (decided a s') =
    elim (Option-cases (cached_result db hash config)) [
      | inl e ↦ rw (e, store_result) (record { jobs = refl; entries = refl })
      | inr (r, e) ↦ rw (e, store_result) (record { jobs = refl; entries = refl })
    ]

module _ (rt : Runtime) (out : Outside) where
  review_content-Untouched :
      (db : Database) (now : ℕ) (j : Job) (e : WorkEntry) (s : CallSettings) (config : Text)
      (f : Fetched)
      → Untouched db (review_content rt out db now j.role_mode e s config f).database
  unfolding review_content
  review_content-Untouched db now j e s config (unreadable m) = record {
    jobs = refl;
    entries = refl;
  }
  review_content-Untouched db now j e s config (fetched ms) =
      elim (Bool-cases (
        text_eq (Runtime.sha256_hex rt (delta_content rt ms e.delta_start j.role_mode).0)
          e.content_hash)) [
            | inl same ↦ rw same (after_call-Untouched db now s e.content_hash config _)
            | inr differs ↦ rw differs (record { jobs = refl; entries = refl })
          ]

  review_entry-Untouched :
      (db : Database) (now : ℕ) (j : Job) (e : WorkEntry) (s : CallSettings) (config : Text)
      → Untouched db (review_entry rt out db now j.role_mode e s config).database
  unfolding review_entry
  review_entry-Untouched db now j e s config = elim (Bool-cases (is_blank e.content_hash)) [
    | inl blank ↦ rw blank (record { jobs = refl; entries = refl })
    | inr text ↦ elim (Option-cases (cached_result db e.content_hash config)) [
      | inl miss ↦
          rw (text, miss, review_entry)
            (review_content-Untouched db now j e s config (Outside.body out e.audit_entry_id))
      | inr (r, hit) ↦ rw (text, hit, review_entry) (record { jobs = refl; entries = refl })
    ]
  ]

  -- The two statements of an entry, on the tables as they were.
  pub process_entry-tables :
      (db : Database) (now : ℕ) (j : Job) (e : WorkEntry) (s : CallSettings) (config : Text)
      → let t =
          settlement
            (parent_effective db j.id e.parent_entry_id)
            (review_entry rt out db now j.role_mode e s config) in
        let db' = (process_entry rt out db now j e s config).0 in
        (db'.entries ≡ update_where (is_target e.id) (settled_row now t) db.entries)
        × (db'.jobs ≡ update_where (has_id j.id) (counted_job now t) db.jobs)
  unfolding process_entry settle
  process_entry-tables db now j e s config =
      let u = review_entry-Untouched db now j e s config in (rw u.entries refl, rw u.jobs refl)
