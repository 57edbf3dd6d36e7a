-- ===== src/Review/Worker/Sound.antt =====
-- What the review of one entry leaves behind: a call leaves a result, and no call leaves none.
use newapi_usage.Prelude.{
  ℕ, ◌<◌, ◌≡◌, refl, inl, inr, true, false, Text, is_blank, text_eq, [], some, All, In-All,
  find_where-In, Bool-cases, Option-cases,
}
use newapi_usage.Review.Types.{Job, Result}
use newapi_usage.Review.Database.{Database}
use newapi_usage.Review.Planner.{Runtime, delta_content}
use newapi_usage.Review.Worker.Calls.{
  Outside, CallSettings, Reviewed, decided, gave_up, Fetched, fetched, unreadable,
  call_review_with_retry,
}
use newapi_usage.Review.Worker.Selection.{WorkEntry}
use newapi_usage.Review.Worker.Content.{
  Outcome, review_entry, review_content, after_call, store_result, cached_result,
}

-- AUTOINCREMENT starts at 1.
pub record HasResultIds (db : Database) : Type 0 where
  pub next : 0 < db.next_result_id
  pub given : All (λ (r : Result). 0 < r.id) db.results

-- A call of the endpoint leaves a result and no error; without a call there is no result but a
-- cached one.
pub record IsSound (o : Outcome) : Type 0 where
  pub called : o.called ≡ true → (o.item_err ≡ []) × (o.cache_hit ≡ false) × (0 < o.result_id)
  pub not_called : o.called ≡ false → o.cache_hit ≡ false → o.result_id ≡ 0

after_call-IsSound :
    (db : Database) (now : ℕ) (s : CallSettings) (hash config : Text) (r : Reviewed)
    → HasResultIds db
    → IsSound (after_call db now s hash config r)
unfolding after_call store_result
after_call-IsSound db now s hash config (gave_up e) ids = record {
  called = λ h. cc;
  not_called = λ h g. refl;
}
after_call-IsSound db now s hash config (decided a s') ids =
    elim (Option-cases (cached_result db hash config)) [
      | inl e ↦
          rw (e, store_result)
            (record { called = λ h. (refl, refl, ids.next); not_called = λ h g. cc })
      | inr (r, e) ↦
          rw (e, store_result)
            (record { called = λ h. (refl, refl, old r e); not_called = λ h g. cc })
    ]
  where
    old : (r : Result) → cached_result db hash config ≡ some r → 0 < r.id
    old r e = In-All _ (find_where-In _ db.results (unfold cached_result in e)).0 ids.given

module _ (rt : Runtime) (out : Outside) (now : ℕ) (j : Job) (s : CallSettings) (config : Text) where
  review_content-IsSound :
      (db : Database) (e : WorkEntry) (f : Fetched)
      → HasResultIds db
      → IsSound (review_content rt out db now j.role_mode e s config f)
  unfolding review_content
  review_content-IsSound db e (unreadable m) ids = record {
    called = λ h. cc;
    not_called = λ h g. refl;
  }
  review_content-IsSound db e (fetched ms) ids =
      elim (Bool-cases (
        text_eq (Runtime.sha256_hex rt (delta_content rt ms e.delta_start j.role_mode).0)
          e.content_hash)) [
            | inl same ↦ rw same (
                after_call-IsSound db now s e.content_hash config
                  (call_review_with_retry out e.id s
                    (delta_content rt ms e.delta_start j.role_mode).0)
                  ids)
            | inr differs ↦ rw differs (record { called = λ h. cc; not_called = λ h g. refl })
          ]

  pub review_entry-IsSound :
      (db : Database) (e : WorkEntry)
      → HasResultIds db
      → IsSound (review_entry rt out db now j.role_mode e s config)
  unfolding review_entry
  review_entry-IsSound db e ids = elim (Bool-cases (is_blank e.content_hash)) [
    | inl blank ↦ rw blank (record { called = λ h. cc; not_called = λ h g. refl })
    | inr text ↦ elim (Option-cases (cached_result db e.content_hash config)) [
      | inl miss ↦
          rw (text, miss, review_entry)
            (review_content-IsSound db e (Outside.body out e.audit_entry_id) ids)
      | inr (r, hit) ↦
          rw (text, hit, review_entry) (record { called = λ h. cc; not_called = λ h g. cc })
    ]
  ]
