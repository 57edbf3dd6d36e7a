-- ===== src/Audit/Lookup/Tests.antt =====
-- The theorems about lookups at a concrete index.
use newapi_usage.Prelude.{
  ℕ, true, codes, List, [], ◌∷◌, some, pos, In, here, In-cons_cases, ◌≡◌, refl, ap, sym, ◌∙◌, ◌⊎◌,
  inl, inr, arith, trim_space, sort_by, select_where, is_space, exists_where,
}
use newapi_usage.Audit.Entries.{EntryRow, AuditEntry, Gzip}
use newapi_usage.Audit.Lookup.Filter.{
  LookupFilter, lookup_by_token_window, in_window, precedes, window_order, lookup_center,
  model_order,
}
use newapi_usage.Audit.Lookup.Candidate.{
  lookup_client_candidates, best_client_candidate, model_rank_of,
}
use newapi_usage.Audit.Lookup.Answer.{Index, lookup, token_time_note, token_time, cached_note}
use newapi_usage.Audit.Lookup.Scope.{LateFilter, Late}
use newapi_usage.Audit.Lookup.Agreement.{
  UniqueIds, first_listed, best_client_candidate-first_listed,
}
use newapi_usage.Audit.Lookup.ClientInfo.{lookup_client_info}
use newapi_usage.Audit.Lookup.Single.{clients_of, lookup_client_info-first_listed}
use newapi_usage.Audit.Lookup.Cached.{lookup-again}

abbrev plain : Gzip
plain = record { compress = λ b. b; decompress = λ b. some b }

abbrev pub row : ℕ → ℕ → EntryRow
row id at = record {
  id = id;
  source_id = codes "1:1";
  source_path = codes "a.jsonl";
  source_line = id;
  byte_offset = 0;
  created_at = pos at;
  ingested_at = at;
  method = codes "POST";
  path = codes "/v1";
  model = codes "gpt";
  token_id = 7;
  key_tail = codes "abc";
  key_hash = [];
  user_agent = [];
  client_name = [];
  client_version = [];
  client_variant = [];
  request_id = [];
  has_timestamp = true;
  body = codes "hi";
  body_gzip = [];
  body_encoding = [];
}

abbrev rows : List EntryRow
rows = row 1 400 ∷ row 2 495 ∷ []

abbrev asked : LookupFilter
asked = record {
  request_id = [];
  token_id = 7;
  key_tail = [];
  model = codes "gpt";
  created_at = pos 500;
  use_time = pos 6;
  log_id = 9;
  limit = 5;
}

abbrev id_of : EntryRow → ℕ
id_of e = e.id

differ : id_of (row 1 400) ≡ id_of (row 2 495) → ⊥
differ h = omega arith

In-rows : (e : EntryRow) → In e rows → (e ≡ row 1 400) ⊎ (e ≡ row 2 495)
In-rows e m = elim (In-cons_cases m) [
  | inl same ↦ inl same
  | inr rest ↦ elim (In-cons_cases rest) [
    | inl same ↦ inr same
    | inr none_left ↦ elim none_left [ ]
  ]
]

ids_of : UniqueIds rows
unfolding UniqueIds
ids_of a b ma mb same = elim (In-rows a ma) [
  | inl p ↦ elim (In-rows b mb) [
    | inl q ↦ p ∙ sym q
    | inr q ↦ absurd (differ (ap id_of (sym p) ∙ same ∙ ap id_of q))
  ]
  | inr p ↦ elim (In-rows b mb) [
    | inl q ↦ absurd (differ (sym (ap id_of (sym p) ∙ same ∙ ap id_of q)))
    | inr q ↦ p ∙ sym q
  ]
]

late : LateFilter (pos 120) asked
unfolding LateFilter lookup_center Late
late _ = refl

-- The request that ended at 500 after 6 seconds started at 494.
nearest :
    best_client_candidate asked (lookup_client_candidates rows (asked ∷ []) (pos 120)) (pos 120)
    ≡ some (row 2 495)
unfolding best_client_candidate lookup_center lookup_client_candidates sort_by select_where
    model_rank_of trim_space is_space
nearest = refl

best_client_candidate-first_listed_example :
    best_client_candidate asked (lookup_client_candidates rows (asked ∷ []) (pos 120)) (pos 120)
    ≡ first_listed (lookup_by_token_window rows asked (pos 120))
unfolding lookup_center
best_client_candidate-first_listed_example =
    best_client_candidate-first_listed asked (pos 120) rows (asked ∷ []) ids_of here (late, tt)
      (omega arith) (omega arith) refl refl

abbrev before : Index
before = record { entries = rows; matches = [] }

-- What the first lookup answers.
abbrev found : AuditEntry
found = record {
  row = row 2 495;
  body = codes "hi";
  matched_by = token_time;
  matched_note = token_time_note (pos 120) (pos 494);
}

abbrev other : AuditEntry
other = record {
  row = row 1 400;
  body = codes "hi";
  matched_by = token_time;
  matched_note = token_time_note (pos 120) (pos 494);
}

abbrev filter_again : LookupFilter
filter_again = record asked { token_id = 8 }

abbrev grown : Index
grown = record (lookup plain (pos 120) 600 before asked).0 { entries = row 3 494 ∷ rows }

-- Later a nearer row has come, and the answer is the same.
lookup-again_example :
    lookup plain (pos 120) 700 grown filter_again
    ≡ (grown, some (record found { matched_note = cached_note found.matched_note } ∷ []))
unfolding exists_where lookup sort_by select_where in_window trim_space lookup_center window_order
    precedes model_order is_space
lookup-again_example =
    lookup-again plain (pos 120) 600 before asked found (other ∷ []) (omega arith) refl refl
      (λ same. cc) (pos 120) 700 grown filter_again refl refl refl

lookup_client_info-first_listed_example :
    (lookup_client_info 600 (pos 120) before (asked ∷ [])).1
    ≡ clients_of asked (pos 120) (first_listed (lookup_by_token_window rows asked (pos 120)))
unfolding exists_where lookup_center
lookup_client_info-first_listed_example =
    lookup_client_info-first_listed 600 (pos 120) before asked ids_of late (omega arith) refl
      (omega arith) (omega arith) refl refl
