-- ===== src/Audit/Lookup/Single.antt =====
-- LookupClientInfo for one line of the usage log names the entry that Lookup's query lists first.
use newapi_usage.Prelude.{
  ℕ, ◌<◌, true, false, List, [], ◌∷◌, Option, none, some, ◌==◌, ℤ, pos, ltb_ℤ, leb_ℤ, exists_where,
  select_where, here, ◌≡◌, refl, inl, inr, Bool-cases, arith,
}
use newapi_usage.Audit.Entries.{EntryRow, MatchRow}
use newapi_usage.Audit.Lookup.Filter.{LookupFilter, lookup_center, lookup_by_token_window}
use newapi_usage.Audit.Lookup.Answer.{
  Index, has_log_id, token_time, token_time_note, effective_window,
}
use newapi_usage.Audit.Lookup.Scope.{LateFilter}
use newapi_usage.Audit.Lookup.Agreement.{
  UniqueIds, first_listed, best_client_candidate-first_listed,
}
use newapi_usage.Audit.Lookup.ClientInfo.{
  Clients, put_client, has_client, clean_filters, lookup_cached_clients, add_candidate_entry,
  match_pending, lookup_client_info,
}
use newapi_usage.Review.Jobs.Input.{contains_id}

effective_window-nonnegative : (seconds : ℤ) → leb_ℤ (pos 0) (effective_window seconds) ≡ true
effective_window-nonnegative seconds = ground arith

clean_filters-one : (f : LookupFilter) → 0 < f.log_id → clean_filters [] (f ∷ []) ≡ f ∷ []
unfolding clean_filters contains_id
clean_filters-one f h = let some_log : (f.log_id == 0) ≡ false = ground arith in rw some_log

lookup_cached_clients-fresh :
    (entries : List EntryRow) (ms : List MatchRow) (log_id : ℕ)
    → exists_where (has_log_id log_id) ms ≡ false
    → lookup_cached_clients entries ms (log_id ∷ []) [] ≡ []
unfolding lookup_cached_clients exists_where contains_id
lookup_cached_clients-fresh entries [] log_id h = refl
lookup_cached_clients-fresh entries (m ∷ ms) log_id h = elim (Bool-cases (m.log_id == log_id)) [
  | inl same ↦ absurd (ground (arith, h, same))
  | inr other ↦
      let flipped : (log_id == m.log_id) ≡ false = ground (arith, other) in
      rw flipped (lookup_cached_clients-fresh entries ms log_id (rw other at h))
]

-- What the map holds for a line of the usage log.
abbrev pub clients_of : LookupFilter → ℤ → Option EntryRow → Clients
clients_of f window none = []
clients_of f window (some e) =
    (
      f.log_id,
      record {
        row = e;
        body = [];
        matched_by = token_time;
        matched_note = token_time_note window (lookup_center f);
      },
    )
    ∷ []

add_candidate_entry-clients :
    (now : ℕ) (window : ℤ) (f : LookupFilter) (o : Option EntryRow) (ix : Index)
    → (add_candidate_entry now window f o (ix, [])).1 ≡ clients_of f window o
unfolding add_candidate_entry put_client
add_candidate_entry-clients now window f none ix = refl
add_candidate_entry-clients now window f (some e) ix = refl

-- For a line of the usage log that is not matched, with a key, a time after 1970 and a window that
-- starts after 1970, where ids are unique: LookupClientInfo for that line alone answers with the
-- entry that Lookup's query by token and time lists first, and with nothing where it lists none.
pub lookup_client_info-first_listed :
    (now : ℕ) (window_seconds : ℤ) (ix : Index) (f : LookupFilter)
    → UniqueIds ix.entries
    → LateFilter (effective_window window_seconds) f
    → 0 < f.log_id
    → exists_where (has_log_id f.log_id) ix.matches ≡ false
    → 0 < f.token_id
    → 0 < f.limit
    → ltb_ℤ (pos 0) f.created_at ≡ true
    → ltb_ℤ (pos 0) (lookup_center f) ≡ true
    → let window = effective_window window_seconds in
      (lookup_client_info now window_seconds ix (f ∷ [])).1
      ≡ clients_of f window (first_listed (lookup_by_token_window ix.entries f window))
unfolding lookup_client_info match_pending select_where has_client exists_where
lookup_client_info-first_listed now window_seconds ix f unique late log fresh token limit created
      center =
    let window = effective_window window_seconds in
    let given : (f.token_id == 0) ≡ false = ground (arith, token) in
    let timed : leb_ℤ f.created_at (pos 0) ≡ false = ground (arith, created) in
    let best =
      best_client_candidate-first_listed f window ix.entries (f ∷ []) unique here (late, tt) token
        limit center (effective_window-nonnegative window_seconds) in
    rw
      (
        clean_filters-one f log,
        lookup_cached_clients-fresh ix.entries ix.matches f.log_id fresh,
        given,
        timed,
        best,
      )
      (add_candidate_entry-clients now window f
        (first_listed (lookup_by_token_window ix.entries f window)) ix)
