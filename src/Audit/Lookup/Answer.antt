-- ===== src/Audit/Lookup/Answer.antt =====
-- Lookup of internal/audit/index.go with the table of matches that it fills, and EntryByID. `none` is
-- an error; the security alerts that Lookup adds to its entries are left out.
use newapi_usage.Prelude.{
  ℕ, Bool, not, ◌&&◌, ◌||◌, Text, codes, text_eq, is_blank, trim_space, List, [], ◌∷◌, ◌++◌, map,
  Option, none, some, ltb, ◌==◌, if◌then◌else◌, ℤ, pos, ltb_ℤ, leb_ℤ, format_int, find_where,
  exists_where,
}
use newapi_usage.Audit.Entries.{EntryRow, MatchRow, AuditEntry, Gzip, decode_body, scan_entries}
use newapi_usage.Audit.Lookup.Filter.{
  LookupFilter, lookup_center, lookup_by_token_window, lookup_latest_by_token, lookup_by_request_id,
}

-- The tables of the index that a lookup uses.
pub record Index : Type 0 where
  pub entries : List EntryRow
  pub matches : List MatchRow

abbrev pub has_entry_id : ℕ → EntryRow → Bool
has_entry_id id e = e.id == id

abbrev pub has_log_id : ℕ → MatchRow → Bool
has_log_id log_id m = m.log_id == log_id

-- log_audit_matches m JOIN audit_entries e ON e.id = m.audit_entry_id WHERE m.log_id = ? LIMIT 1
unfoldable pub joined_row : ℕ → List EntryRow → List MatchRow → Option (MatchRow × EntryRow)
unfolding find_where
joined_row log_id entries [] = none
joined_row log_id entries (m ∷ ms) =
    let rest = joined_row log_id entries ms in
    if has_log_id log_id m
    then elim (find_where (has_entry_id m.audit_entry_id) entries) [
      | none ↦ rest
      | some e ↦ some (m, e)
    ]
    else rest

abbrev pub cached_note : Text → Text
cached_note note = if is_blank note then codes "cached match" else codes "cached match; " ++ note

unfoldable pub cached_entry : MatchRow → EntryRow → Option Text → Option (List AuditEntry)
cached_entry m e none = none
cached_entry m e (some body) = some (
    record {
      row = e;
      body = body;
      matched_by = m.matched_by;
      matched_note = cached_note m.matched_note;
    }
    ∷ [])

unfoldable pub cached_items : Gzip → Option (MatchRow × EntryRow) → Option (List AuditEntry)
unfolding cached_entry decode_body
cached_items g none = some []
cached_items g (some (m, e)) = cached_entry m e (decode_body g e.body e.body_gzip e.body_encoding)

unfoldable pub lookup_cached_match : Gzip → Index → ℕ → Option (List AuditEntry)
unfolding joined_row cached_items
lookup_cached_match g ix log_id = cached_items g (joined_row log_id ix.entries ix.matches)

-- INSERT OR IGNORE, on the primary key log_id.
unfoldable pub remember_match : ℕ → ℕ → AuditEntry → Index → Index
unfolding exists_where
remember_match now log_id entry ix =
    if exists_where (has_log_id log_id) ix.matches then ix else record ix {
      matches =
          ix.matches
          ++ record {
            log_id = log_id;
            audit_entry_id = entry.row.id;
            matched_by = entry.matched_by;
            matched_note = entry.matched_note;
            matched_at = now;
          }
            ∷ [];
    }

abbrev pub token_time : Text
token_time = codes "token_time"

abbrev pub by_request_id : Text
by_request_id = codes "request_id"

abbrev pub token_latest : Text
token_latest = codes "token_latest"

unfoldable pub remember_lookup : ℕ → ℕ → List AuditEntry → Index → Index
unfolding remember_match text_eq
remember_lookup now log_id [] ix = ix
remember_lookup now log_id (first ∷ items) ix =
    if log_id == 0
    then ix
    else if not (text_eq first.matched_by token_time)
        && not (text_eq first.matched_by by_request_id)
    then ix
    else remember_match now log_id first ix

abbrev pub matched : Text → Text → AuditEntry → AuditEntry
matched by note e = record e { matched_by = by; matched_note = note }

abbrev pub mark : Text → Text → Option (List AuditEntry) → Option (List AuditEntry)
mark by note none = none
mark by note (some items) = some (map (matched by note) items)

-- What Lookup does with the rows of a query: an error ends it, no rows let it go on with `rest`, and
-- rows are marked, remembered and returned.
unfoldable pub answer_with :
    ℕ
    → Index
    → ℕ
    → Text
    → Text
    → Option (List AuditEntry)
    → Index × Option (List AuditEntry)
    → Index × Option (List AuditEntry)
unfolding remember_lookup
answer_with now ix log_id by note none rest = (ix, none)
answer_with now ix log_id by note (some []) rest = rest
answer_with now ix log_id by note (some (e ∷ es)) rest =
    let items = map (matched by note) (e ∷ es) in (remember_lookup now log_id items ix, some items)

abbrev pub token_time_note : ℤ → ℤ → Text
token_time_note window center =
    codes "same token within +/- "
    ++ (format_int window
        ++ (codes "s around estimated request start "
            ++ (format_int center ++ codes "; model match is ranked first")))

abbrev pub latest_note : Text
latest_note =
    codes
      "audit log has no usable timestamp match; newest same-token candidates are shown with model match ranked first"

abbrev pub effective_window : ℤ → ℤ
effective_window seconds = if leb_ℤ seconds (pos 0) then pos 120 else seconds

abbrev pub effective_limit : ℕ → ℕ
effective_limit limit = if limit == 0 || ltb 50 limit then 10 else limit

module _ (g : Gzip) (window_seconds : ℤ) (now : ℕ) where
  unfoldable pub lookup_latest : Index → LookupFilter → Option (List AuditEntry)
  unfolding lookup_latest_by_token scan_entries
  lookup_latest ix f =
      if f.token_id == 0
      then some []
      else mark token_latest latest_note (scan_entries g (lookup_latest_by_token ix.entries f))

  unfoldable pub lookup_request : Index → LookupFilter → Index × Option (List AuditEntry)
  unfolding answer_with lookup_latest lookup_by_request_id scan_entries
  lookup_request ix f =
      if is_blank (trim_space f.request_id)
      then (ix, lookup_latest ix f)
      else answer_with now ix f.log_id by_request_id (codes "exact request_id match")
          (scan_entries g (lookup_by_request_id ix.entries f.request_id f.limit))
          (ix, lookup_latest ix f)

  unfoldable pub lookup_window : Index → LookupFilter → Index × Option (List AuditEntry)
  unfolding answer_with lookup_request lookup_by_token_window scan_entries
  lookup_window ix f =
      if ltb 0 f.token_id && ltb_ℤ (pos 0) f.created_at
      then (let window = effective_window window_seconds in
          answer_with now ix f.log_id token_time (token_time_note window (lookup_center f))
            (scan_entries g (lookup_by_token_window ix.entries f window)) (lookup_request ix f))
      else lookup_request ix f

  -- The cached match, if there is one.
  unfoldable pub after_cache :
      Index → LookupFilter → Option (List AuditEntry) → Index × Option (List AuditEntry)
  unfolding lookup_window
  after_cache ix f none = (ix, none)
  after_cache ix f (some []) = lookup_window ix f
  after_cache ix f (some (e ∷ es)) = (ix, some (e ∷ es))

  unfoldable pub lookup : Index → LookupFilter → Index × Option (List AuditEntry)
  unfolding after_cache lookup_cached_match lookup_window
  lookup ix f =
      let limited = record f { limit = effective_limit f.limit } in
      if ltb 0 f.log_id
      then after_cache ix limited (lookup_cached_match g ix f.log_id)
      else lookup_window ix limited

first_entry : Option (List AuditEntry) → Option (Option AuditEntry)
first_entry none = none
first_entry (some []) = some none
first_entry (some (e ∷ es)) = some (some e)

-- EntryByID: an error, no entry, or the entry.
unfoldable pub entry_by_id : Gzip → List EntryRow → ℕ → Option (Option AuditEntry)
unfolding first_entry find_where scan_entries
entry_by_id g entries id =
    if id == 0 then some none else elim (find_where (has_entry_id id) entries) [
      | none ↦ some none
      | some row ↦ first_entry (scan_entries g (row ∷ []))
    ]
