-- ===== src/Audit/Lookup/Cached.antt =====
-- A lookup that found an entry by time or by request id answers the same from then on.
use newapi_usage.Prelude.{
  ℕ, ◌<◌, true, false, not, ◌&&◌, ◌||◌, Text, codes, text_eq, is_blank, trim_space, List, [], ◌∷◌,
  ◌++◌, map, Option, none, some, ltb, lt→ltb, ◌==◌, ==_refl, ℤ, pos, ltb_ℤ, find_where,
  exists_where, ◌≡◌, refl, ap, subst, sym, ◌∙◌, inl, inr, Bool-cases, arith,
}
use mathlib.Core.Logic.{◌≢◌}
use newapi_usage.Audit.Entries.{
  EntryRow, MatchRow, AuditEntry, Gzip, decode_body, scan_entries, with_body,
}
use newapi_usage.Audit.Lookup.Filter.{
  LookupFilter, lookup_center, lookup_by_token_window, lookup_latest_by_token, lookup_by_request_id,
}
use newapi_usage.Audit.Lookup.Answer.{
  Index, has_log_id, has_entry_id, joined_row, cached_note, cached_entry, cached_items,
  lookup_cached_match, remember_match, remember_lookup, token_time, by_request_id, token_latest,
  token_time_note, effective_window, latest_note, effective_limit, matched, mark, answer_with,
  lookup_latest, lookup_request, lookup_window, after_cache, lookup,
}

-- The row that remembers an entry.
abbrev pub match_of : ℕ → ℕ → AuditEntry → MatchRow
match_of now log_id e = record {
  log_id = log_id;
  audit_entry_id = e.row.id;
  matched_by = e.matched_by;
  matched_note = e.matched_note;
  matched_at = now;
}

-- The rows before a match have another log id.
joined_row-append :
    (log_id : ℕ) (entries : List EntryRow) (ms : List MatchRow) (m : MatchRow) (e : EntryRow)
    → exists_where (has_log_id log_id) ms ≡ false
    → m.log_id ≡ log_id
    → find_where (has_entry_id m.audit_entry_id) entries ≡ some e
    → joined_row log_id entries (ms ++ m ∷ []) ≡ some (m, e)
unfolding joined_row exists_where
joined_row-append log_id entries [] m e h same found = rw (found, same, ==_refl log_id)
joined_row-append log_id entries (x ∷ ms) m e h same found =
    elim (Bool-cases (x.log_id == log_id)) [
      | inl other ↦ absurd (ground (arith, h, other))
      | inr other ↦ rw other (joined_row-append log_id entries ms m e (rw other at h) same found)
    ]

abbrev head_or : AuditEntry → Option (List AuditEntry) → AuditEntry
head_or d none = d
head_or d (some []) = d
head_or d (some (e ∷ es)) = e

heads : (a b : AuditEntry) (xs ys : List AuditEntry) → some (a ∷ xs) ≡ some (b ∷ ys) → a ≡ b
heads a b xs ys h = ap (head_or a) h

module _ (g : Gzip) where
  abbrev decoded : EntryRow → Option Text
  decoded row = decode_body g row.body row.body_gzip row.body_encoding

  -- What a query reads of a row is its decoded body.
  with_body-decoded :
      (row : EntryRow) (o : Option Text) (rest : Option (List AuditEntry)) (e : AuditEntry)
      (es : List AuditEntry)
      → with_body row o rest ≡ some (e ∷ es)
      → (e.row ≡ row) × (o ≡ some e.body)
  unfolding with_body
  with_body-decoded row none rest e es h = cc
  with_body-decoded row (some b) none e es h = cc
  with_body-decoded row (some b) (some items) e es h =
      let same =
        heads (record { row = row; body = b; matched_by = []; matched_note = [] }) e items es h in
      (ap (λ (x : AuditEntry). x.row) (sym same), ap (λ (x : AuditEntry). some x.body) same)

  scan_entries-decoded :
      (rows : List EntryRow) (e : AuditEntry) (es : List AuditEntry)
      → scan_entries g rows ≡ some (e ∷ es)
      → decoded e.row ≡ some e.body
  unfolding scan_entries
  scan_entries-decoded [] e es h = cc
  scan_entries-decoded (row ∷ rows) e es h =
      let r = with_body-decoded row (decoded row) (scan_entries g rows) e es h in rw r.0 r.1

-- What a lookup that found entries leaves behind, where none is remembered yet.
pub Remembered : Gzip → ℕ → ℕ → Index → Index × Option (List AuditEntry) → Type 0
Remembered g now log_id ix r =
    (e : AuditEntry) (es : List AuditEntry)
    → r.1 ≡ some (e ∷ es)
    → e.matched_by ≢ token_latest
    → (r.0.matches ≡ ix.matches ++ match_of now log_id e ∷ []) × (decoded g e.row ≡ some e.body)

module _ (g : Gzip) (now log_id : ℕ) (ix : Index) where
  remember_lookup-matches :
      (by : Text) (e : AuditEntry) (es : List AuditEntry)
      → 0 < log_id
      → exists_where (has_log_id log_id) ix.matches ≡ false
      → (text_eq by token_time || text_eq by by_request_id) ≡ true
      → e.matched_by ≡ by
      → (remember_lookup now log_id (e ∷ es) ix).matches ≡ ix.matches ++ match_of now log_id e ∷ []
  unfolding remember_lookup remember_match
  remember_lookup-matches by e es some_log fresh kind same =
      let log : (log_id == 0) ≡ false = ground arith in
      let skip : (not (text_eq by token_time) && not (text_eq by by_request_id)) ≡ false =
        ground (arith, kind) in
      rw (log, same, skip, fresh)

  answer_with-Remembered :
      (by note : Text) (o : Option (List AuditEntry)) (rest : Index × Option (List AuditEntry))
      → 0 < log_id
      → exists_where (has_log_id log_id) ix.matches ≡ false
      → (text_eq by token_time || text_eq by by_request_id) ≡ true
      → ((e : AuditEntry) (es : List AuditEntry)
          → o ≡ some (e ∷ es)
          → decoded g e.row ≡ some e.body)
      → Remembered g now log_id ix rest
      → Remembered g now log_id ix (answer_with now ix log_id by note o rest)
  unfolding answer_with Remembered
  answer_with-Remembered by note none rest some_log fresh kind reads later e es h latest = cc
  answer_with-Remembered by note (some []) rest some_log fresh kind reads later e es h latest =
      later e es h latest
  answer_with-Remembered by note (some (x ∷ xs)) rest some_log fresh kind reads later e es h
        latest =
      let first = matched by note x in
      let same = heads first e (map (matched by note) xs) es h in
      let kept =
        remember_lookup-matches by first (map (matched by note) xs) some_log fresh kind refl in
      (
        subst
            (λ (y : AuditEntry).
              (remember_lookup now log_id (first ∷ map (matched by note) xs) ix).matches
              ≡ ix.matches ++ match_of now log_id y ∷ [])
            same kept,
        subst (λ (y : AuditEntry). decoded g y.row ≡ some y.body) same (reads x xs refl),
      )

mark-matched_by :
    (by note : Text) (o : Option (List AuditEntry)) (e : AuditEntry) (es : List AuditEntry)
    → mark by note o ≡ some (e ∷ es)
    → e.matched_by ≡ by
mark-matched_by by note none e es h = cc
mark-matched_by by note (some []) e es h = cc
mark-matched_by by note (some (x ∷ xs)) e es h =
    ap (λ (y : AuditEntry). y.matched_by)
      (sym (heads (matched by note x) e (map (matched by note) xs) es h))

module _ (g : Gzip) (window_seconds : ℤ) (now : ℕ) (ix : Index) (f : LookupFilter)
    (some_log : 0 < f.log_id) (fresh : exists_where (has_log_id f.log_id) ix.matches ≡ false) where
  lookup_latest-Remembered :
      Remembered g now f.log_id ix (ix, lookup_latest g window_seconds now ix f)
  unfolding lookup_latest Remembered
  lookup_latest-Remembered e es h latest = elim (Bool-cases (f.token_id == 0)) [
    | inl none_asked ↦ let empty = rw none_asked at h in absurd (ground (arith, empty))
    | inr asked ↦ absurd (
        latest (
          mark-matched_by token_latest latest_note
            (scan_entries g (lookup_latest_by_token ix.entries f)) e es (rw asked at h)))
  ]

  lookup_request-Remembered :
      Remembered g now f.log_id ix (lookup_request g window_seconds now ix f)
  unfolding lookup_request text_eq
  lookup_request-Remembered = elim (Bool-cases (is_blank (trim_space f.request_id))) [
    | inl blank ↦ rw blank lookup_latest-Remembered
    | inr given ↦
        let rows = lookup_by_request_id ix.entries f.request_id f.limit in
        rw given (
          answer_with-Remembered g now f.log_id ix by_request_id (codes "exact request_id match")
            (scan_entries g rows) (ix, lookup_latest g window_seconds now ix f) some_log fresh refl
            (scan_entries-decoded g rows) lookup_latest-Remembered)
  ]

  lookup_window-Remembered : Remembered g now f.log_id ix (lookup_window g window_seconds now ix f)
  unfolding lookup_window text_eq
  lookup_window-Remembered = elim (Bool-cases (ltb 0 f.token_id && ltb_ℤ (pos 0) f.created_at)) [
    | inr skipped ↦ rw skipped lookup_request-Remembered
    | inl timed ↦
        let window = effective_window window_seconds in
        let rows = lookup_by_token_window ix.entries f window in
        rw timed (
          answer_with-Remembered g now f.log_id ix token_time
            (token_time_note window (lookup_center f)) (scan_entries g rows)
            (lookup_request g window_seconds now ix f) some_log fresh refl
            (scan_entries-decoded g rows) lookup_request-Remembered)
  ]

joined_row-none :
    (log_id : ℕ) (entries : List EntryRow) (ms : List MatchRow)
    → exists_where (has_log_id log_id) ms ≡ false
    → joined_row log_id entries ms ≡ none
unfolding joined_row exists_where
joined_row-none log_id entries [] h = refl
joined_row-none log_id entries (m ∷ ms) h = elim (Bool-cases (m.log_id == log_id)) [
  | inl other ↦ absurd (ground (arith, h, other))
  | inr other ↦ rw other (joined_row-none log_id entries ms (rw other at h))
]

module _ (g : Gzip) (window_seconds : ℤ) (now : ℕ) (ix : Index) (f : LookupFilter) where
  lookup-Remembered :
      0 < f.log_id
      → exists_where (has_log_id f.log_id) ix.matches ≡ false
      → Remembered g now f.log_id ix (lookup g window_seconds now ix f)
  unfolding lookup lookup_cached_match after_cache cached_items
  lookup-Remembered some_log fresh =
      let log = lt→ltb 0 f.log_id some_log in
      rw (log, joined_row-none f.log_id ix.entries ix.matches fresh)
        (lookup_window-Remembered g window_seconds now ix
          (record f { limit = effective_limit f.limit }) some_log fresh)

  -- The entry as a later lookup finds it.
  abbrev pub again : AuditEntry → AuditEntry
  again e = record e { matched_note = cached_note e.matched_note }

  -- A lookup for a line of the usage log that is not yet matched, and whose first entry is not the
  -- newest of the token for want of a better one: as long as that entry and the matches stay, every
  -- lookup for the line, whatever else it asks for and whatever rows have come, answers that entry
  -- alone, with the note that it is cached, and changes nothing.
  pub lookup-again :
      (e : AuditEntry) (es : List AuditEntry)
      → 0 < f.log_id
      → exists_where (has_log_id f.log_id) ix.matches ≡ false
      → (lookup g window_seconds now ix f).1 ≡ some (e ∷ es)
      → e.matched_by ≢ token_latest
      → (later_window : ℤ) (later : ℕ) (later_ix : Index) (f' : LookupFilter) → f'.log_id ≡ f.log_id
      → later_ix.matches ≡ (lookup g window_seconds now ix f).0.matches
      → find_where (has_entry_id e.row.id) later_ix.entries ≡ some e.row
      → lookup g later_window later later_ix f' ≡ (later_ix, some (again e ∷ []))
  unfolding lookup lookup_cached_match after_cache cached_entry Remembered cached_items
  lookup-again e es some_log fresh found latest later_window later later_ix f' same kept
        there_still =
      let r = lookup-Remembered some_log fresh e es found latest in
      let log : ltb 0 f'.log_id ≡ true = rw same (lt→ltb 0 f.log_id some_log) in
      let row =
        joined_row-append f.log_id later_ix.entries ix.matches (match_of now f.log_id e) e.row fresh
          refl there_still in
      let matches = kept ∙ r.0 in
      let joined =
        ap (λ log. joined_row log later_ix.entries later_ix.matches) same
        ∙ ap (joined_row f.log_id later_ix.entries) matches
        ∙ row in
      let cached =
        ap (cached_items g) joined ∙ ap (cached_entry (match_of now f.log_id e) e.row) r.1 in
      rw (log, cached)
