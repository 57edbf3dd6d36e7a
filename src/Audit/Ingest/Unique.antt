-- ===== src/Audit/Ingest/Unique.antt =====
-- The entries that the lines of a log file become, and that no place is taken before its line is
-- scanned (ingestPath of internal/audit/index.go).
use newapi_usage.Prelude.{
  ℕ, suc, ◌≤◌, true, false, Text, text_eq, is_blank, List, [], ◌∷◌, ◌++◌, Option, none, some, ◌==◌,
  if◌then◌else◌, exists_where, All, All-append, ◌≡◌, refl, ap, subst, sym, ◌∙◌, inl, inr,
  Bool-cases, and_both, arith,
}
use mathlib.Core.List.{append-nil, append_assoc}
use newapi_usage.Audit.Entries.{EntryRow}
use newapi_usage.Audit.Ingest.Tables.{ParsedRecord, Rows}
use newapi_usage.Audit.Ingest.Insert.{
  Outside, Place, KeyColumns, at_place, alert_at_place, new_entry_row, resolve_record_token,
  insert_entry, insert_security_alert, insert_record, security_alert_record_type,
}
use newapi_usage.Audit.Ingest.Files.{LineFormat}
use newapi_usage.Audit.Ingest.Lines.{Saved}
use newapi_usage.Audit.Ingest.Resume.{pure_record, pure_line, pure_all}

module _ (o : Outside) (fmt : LineFormat) (now : ℕ) (source_id path : Text) where
  abbrev place_of : Saved → Place
  place_of s = record {
    source_id = source_id;
    source_path = path;
    source_line = suc s.line_no;
    byte_offset = s.offset;
  }

  -- The entries that a record becomes: one, unless it is a security alert.
  unfoldable pub record_entries : ParsedRecord → Saved → List EntryRow
  record_entries r s =
      if text_eq r.record_type security_alert_record_type
      then []
      else new_entry_row o now s.rows.next_entry_id (place_of s) r (resolve_record_token o r []).0
        ∷ []

  unfoldable pub parsed_entries : Option ParsedRecord → Saved → List EntryRow
  unfolding record_entries
  parsed_entries none s = []
  parsed_entries (some r) s = record_entries r s

  unfoldable pub line_entries : List ℕ → Saved → List EntryRow
  unfolding parsed_entries
  line_entries line s =
      if is_blank (fmt.trim line) then [] else parsed_entries (fmt.parse_line (fmt.trim line)) s

  -- The entries of some lines, one after another.
  unfoldable pub lines_entries : List (List ℕ) → Saved → List EntryRow
  unfolding line_entries
  lines_entries [] s = []
  lines_entries (line ∷ lines) s =
      line_entries line s ++ lines_entries lines (pure_line o fmt now source_id path line s)

  -- The entries of this file's generation stand on lines that are scanned.
  pub Scanned : ℕ → EntryRow → Type 0
  Scanned line_no e = text_eq e.source_id source_id ≡ true → e.source_line ≤ line_no

  Scanned-suc : (n : ℕ) (es : List EntryRow) → All (Scanned n) es → All (Scanned (suc n)) es
  unfolding Scanned
  Scanned-suc n [] h = tt
  Scanned-suc n (e ∷ es) h = (λ same. omega (arith, h.0 same), Scanned-suc n es h.1)

  exists_where-Scanned :
      (s : Saved) (es : List EntryRow)
      → All (Scanned s.line_no) es
      → exists_where (at_place (place_of s)) es ≡ false
  unfolding exists_where at_place Scanned
  exists_where-Scanned s [] h = refl
  exists_where-Scanned s (e ∷ es) h = elim (Bool-cases (at_place (place_of s) e)) [
    | inl taken ↦
        let r = and_both (text_eq e.source_id source_id) (e.source_line == suc s.line_no) taken in
        absurd (ground (arith, r.1, h.0 r.0))
    | inr free ↦ rw free (exists_where-Scanned s es h.1)
  ]

  insert_security_alert-entries :
      (p : Place) (r : ParsedRecord) (k : KeyColumns) (rows : Rows)
      → (insert_security_alert now p r k rows).0.entries ≡ rows.entries
  unfolding insert_security_alert
  insert_security_alert-entries p r k rows =
      elim (Bool-cases (exists_where (alert_at_place p) rows.alerts)) [
        | inl e ↦ rw e
        | inr e ↦ rw e
      ]

  insert_entry-entries :
      (p : Place) (r : ParsedRecord) (k : KeyColumns) (rows : Rows)
      → exists_where (at_place p) rows.entries ≡ false
      → (insert_entry o now p r k rows).0.entries
        ≡ rows.entries ++ new_entry_row o now rows.next_entry_id p r k ∷ []
  unfolding insert_entry
  insert_entry-entries p r k rows free = rw free

  new_entry_row-Scanned :
      (s : Saved) (r : ParsedRecord) (k : KeyColumns)
      → Scanned (suc s.line_no) (new_entry_row o now s.rows.next_entry_id (place_of s) r k)
  unfolding Scanned new_entry_row
  new_entry_row-Scanned s r k same = omega arith

  insert_record-entries :
      (s : Saved) (r : ParsedRecord)
      → exists_where (at_place (place_of s)) s.rows.entries ≡ false
      → (insert_record o now (place_of s) r [] s.rows).0.0.entries
        ≡ s.rows.entries ++ record_entries r s
  unfolding insert_record record_entries
  insert_record-entries s r free =
      let key = (resolve_record_token o r []).0 in
      elim (Bool-cases (text_eq r.record_type security_alert_record_type)) [
        | inl alert ↦ rw alert (
            insert_security_alert-entries (place_of s) r key s.rows
            ∙ sym (append-nil s.rows.entries))
        | inr entry ↦ rw entry (insert_entry-entries (place_of s) r key s.rows free)
      ]

  record_entries-Scanned :
      (s : Saved) (r : ParsedRecord) → All (Scanned (suc s.line_no)) (record_entries r s)
  unfolding record_entries
  record_entries-Scanned s r =
      elim (Bool-cases (text_eq r.record_type security_alert_record_type)) [
        | inl alert ↦ rw alert tt
        | inr entry ↦ rw entry (new_entry_row-Scanned s r (resolve_record_token o r []).0, tt)
      ]

  pure_record-entries :
      (line : List ℕ) (parsed : Option ParsedRecord) (s : Saved)
      → All (Scanned s.line_no) s.rows.entries
      → let t = pure_record o fmt now source_id path line parsed s in
        (t.rows.entries ≡ s.rows.entries ++ parsed_entries parsed s)
        × All (Scanned t.line_no) t.rows.entries
  unfolding pure_record parsed_entries
  pure_record-entries line none s h =
      (sym (append-nil s.rows.entries), Scanned-suc s.line_no s.rows.entries h)
  pure_record-entries line (some r) s h =
      let same = insert_record-entries s r (exists_where-Scanned s s.rows.entries h) in
      let old = Scanned-suc s.line_no s.rows.entries h in
      (
        same,
        subst (All (Scanned (suc s.line_no))) (sym same) (
            All-append (Scanned (suc s.line_no)) s.rows.entries (record_entries r s) old
              (record_entries-Scanned s r)),
      )

  pure_line-entries :
      (line : List ℕ) (s : Saved)
      → All (Scanned s.line_no) s.rows.entries
      → let t = pure_line o fmt now source_id path line s in
        (t.rows.entries ≡ s.rows.entries ++ line_entries line s)
        × All (Scanned t.line_no) t.rows.entries
  unfolding pure_line line_entries
  pure_line-entries line s h = elim (Bool-cases (is_blank (fmt.trim line))) [
    | inl e ↦ rw e (pure_record-entries line none s h)
    | inr e ↦ rw e (pure_record-entries line (fmt.parse_line (fmt.trim line)) s h)
  ]

  -- The entries of some lines are added, and stand on scanned lines.
  pub pure_all-entries :
      (lines : List (List ℕ)) (s : Saved)
      → All (Scanned s.line_no) s.rows.entries
      → let t = pure_all o fmt now source_id path lines s in
        (t.rows.entries ≡ s.rows.entries ++ lines_entries lines s)
        × All (Scanned t.line_no) t.rows.entries
  unfolding pure_all lines_entries
  pure_all-entries [] s h = (sym (append-nil s.rows.entries), h)
  pure_all-entries (line ∷ lines) s h =
      let t = pure_line o fmt now source_id path line s in
      let first = pure_line-entries line s h in
      let rest = pure_all-entries lines t first.1 in
      (
        rest.0
            ∙ ap (λ es. es ++ lines_entries lines t) first.0
            ∙ append_assoc s.rows.entries (line_entries line s) (lines_entries lines t),
        rest.1,
      )
