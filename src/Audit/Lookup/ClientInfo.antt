-- ===== src/Audit/Lookup/ClientInfo.antt =====
-- LookupClientInfo and lookupCachedClients of internal/audit/index.go, without the counts of security
-- alerts that are added at the end. The bodies of the entries are not read.
use newapi_usage.Prelude.{
  ℕ, Bool, true, false, ◌||◌, List, [], ◌∷◌, map, Option, none, some, ◌==◌, if◌then◌else◌, ℤ, pos,
  leb_ℤ, find_where, exists_where, select_where,
}
use newapi_usage.Audit.Entries.{EntryRow, MatchRow, AuditEntry}
use newapi_usage.Audit.Lookup.Filter.{LookupFilter, lookup_center}
use newapi_usage.Audit.Lookup.Candidate.{lookup_client_candidates, best_client_candidate}
use newapi_usage.Audit.Lookup.Answer.{
  Index, has_entry_id, remember_lookup, token_time, token_time_note, effective_window,
}
use newapi_usage.Review.Jobs.Input.{contains_id}

-- The map from the ids of log lines to entries.
abbrev pub Clients : Type 0
Clients = List (ℕ × AuditEntry)

unfoldable pub put_client : ℕ → AuditEntry → Clients → Clients
put_client log_id e [] = (log_id, e) ∷ []
put_client log_id e ((key, old) ∷ clients) =
    let rest = put_client log_id e clients in
    if key == log_id then (key, e) ∷ clients else (key, old) ∷ rest

unfoldable pub has_client : ℕ → Clients → Bool
unfolding exists_where
has_client log_id clients = exists_where (λ (c : ℕ × AuditEntry). c.0 == log_id) clients

-- The filters with a log line, each line once.
unfoldable pub clean_filters : List ℕ → List LookupFilter → List LookupFilter
unfolding contains_id
clean_filters seen [] = []
clean_filters seen (f ∷ fs) =
    let skipped = clean_filters seen fs in
    let kept = f ∷ clean_filters (f.log_id ∷ seen) fs in
    if f.log_id == 0 || contains_id seen f.log_id then skipped else kept

unfoldable pub add_cached : MatchRow → Option EntryRow → Clients → Clients
unfolding put_client
add_cached m none clients = clients
add_cached m (some e) clients =
    put_client m.log_id
      (record { row = e; body = []; matched_by = m.matched_by; matched_note = m.matched_note })
      clients

-- The rows of the join for the log lines that are asked for.
unfoldable pub lookup_cached_clients : List EntryRow → List MatchRow → List ℕ → Clients → Clients
unfolding add_cached contains_id find_where
lookup_cached_clients entries [] log_ids clients = clients
lookup_cached_clients entries (m ∷ ms) log_ids clients = lookup_cached_clients entries ms log_ids (
    if contains_id log_ids m.log_id
    then add_cached m (find_where (has_entry_id m.audit_entry_id) entries) clients
    else clients)

abbrev pub is_pending : Clients → LookupFilter → Bool
is_pending clients f =
    if has_client f.log_id clients
    then false
    else if f.token_id == 0 || leb_ℤ f.created_at (pos 0)
    then false
    else true

unfoldable pub add_candidate_entry :
    ℕ → ℤ → LookupFilter → Option EntryRow → Index × Clients → Index × Clients
unfolding put_client remember_lookup
add_candidate_entry now window f none out = out
add_candidate_entry now window f (some e) (ix, clients) =
    let entry : AuditEntry = record {
      row = e;
      body = [];
      matched_by = token_time;
      matched_note = token_time_note window (lookup_center f);
    } in
    (remember_lookup now f.log_id (entry ∷ []) ix, put_client f.log_id entry clients)

-- The loop over the pending filters.
unfoldable pub match_pending :
    ℕ → ℤ → List EntryRow → List LookupFilter → Index × Clients → Index × Clients
unfolding add_candidate_entry best_client_candidate
match_pending now window candidates [] out = out
match_pending now window candidates (f ∷ fs) out =
    match_pending now window candidates fs
      (add_candidate_entry now window f (best_client_candidate f candidates window) out)

unfoldable pub lookup_client_info : ℕ → ℤ → Index → List LookupFilter → Index × Clients
unfolding clean_filters lookup_cached_clients match_pending lookup_client_candidates has_client
    select_where
lookup_client_info now window_seconds ix filters =
    let cleaned = clean_filters [] filters in
    let cached =
      lookup_cached_clients ix.entries ix.matches (map (λ (f : LookupFilter). f.log_id) cleaned)
        [] in
    let pending = select_where (is_pending cached) cleaned in
    let window = effective_window window_seconds in
    match_pending now window (lookup_client_candidates ix.entries pending window) pending
      (ix, cached)
