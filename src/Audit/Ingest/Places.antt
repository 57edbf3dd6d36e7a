-- ===== src/Audit/Ingest/Places.antt =====
-- Where the entries that a scan of a log file adds come from: the line, the offset and the record of
-- each (ingestPath and insertEntry of internal/audit/index.go).
use newapi_usage.Prelude.{
  ℕ, ◌+◌, ◌≡◌, refl, ap, subst, sym, ◌∙◌, inl, inr, false, Text, text_eq, is_blank, List, [], ◌∷◌,
  ◌++◌, length, take, Option, none, some, pos, All, All-append, Bool-cases, arith,
}
use newapi_usage.Audit.Entries.{EntryRow}
use newapi_usage.Audit.Ingest.Tables.{ParsedRecord}
use newapi_usage.Audit.Ingest.Insert.{Outside, new_entry_row, security_alert_record_type}
use newapi_usage.Audit.Ingest.Files.{LineFormat, Progress, ingest_lines}
use newapi_usage.Audit.Ingest.Lines.{complete_lines, bytes_of, Saved, saved}
use newapi_usage.Audit.Ingest.Keys.{Consistent, Distinct, KeyIn}
use newapi_usage.Audit.Ingest.Resume.{pure_line, pure_line-offset, ingest_lines-pure}
use newapi_usage.Audit.Ingest.Unique.{
  Scanned, record_entries, parsed_entries, line_entries, lines_entries, pure_all-entries,
}

module _ {A : Type 0} where
  All-weaken : (P Q : A → Type 0) (xs : List A) → ((x : A) → P x → Q x) → All P xs → All Q xs
  All-weaken P Q [] f h = tt
  All-weaken P Q (x ∷ xs) f h = (f x h.0, All-weaken P Q xs f h.1)

module _ (o : Outside) (fmt : LineFormat) (now : ℕ) (source_id path : Text) where
  -- The columns that an entry takes from the record of its line.
  abbrev pub OfRecord : ParsedRecord → EntryRow → Type 0
  OfRecord r e =
      (e.created_at ≡ pos r.created_at)
      × (e.method ≡ r.method)
      × (e.path ≡ r.path)
      × (e.model ≡ r.model)
      × (e.user_agent ≡ r.user_agent)
      × (e.request_id ≡ r.request_id)

  -- The entry of one of the lines: it has the line's number and the offset of the line's first byte,
  -- which count the lines and the bytes before it.
  pub record TakenFrom (lines : List (List ℕ)) (s : Saved) (e : EntryRow) : Type 0 where
    pub before : List (List ℕ)
    pub line : List ℕ
    pub after : List (List ℕ)
    pub split : lines ≡ before ++ line ∷ after
    pub parsed : ParsedRecord
    pub text : is_blank (fmt.trim line) ≡ false
    pub parses : fmt.parse_line (fmt.trim line) ≡ some parsed
    pub no_alert : text_eq parsed.record_type security_alert_record_type ≡ false
    pub generation : e.source_id ≡ source_id
    pub file : e.source_path ≡ path
    pub at_line : e.source_line ≡ s.line_no + length before + 1
    pub at_byte : e.byte_offset ≡ s.offset + bytes_of before
    pub ingested : e.ingested_at ≡ now
    pub columns : OfRecord parsed e

  record_entries-Taken :
      (line : List ℕ) (lines : List (List ℕ)) (s : Saved) (r : ParsedRecord)
      → is_blank (fmt.trim line) ≡ false
      → fmt.parse_line (fmt.trim line) ≡ some r
      → All (TakenFrom (line ∷ lines) s) (record_entries o fmt now source_id path r s)
  unfolding record_entries new_entry_row bytes_of
  record_entries-Taken line lines s r given e =
      elim (Bool-cases (text_eq r.record_type security_alert_record_type)) [
        | inl alert ↦ rw alert tt
        | inr entry ↦ rw entry (
          record {
            before = [];
            line = line;
            after = lines;
            split = refl;
            parsed = r;
            text = given;
            parses = e;
            no_alert = entry;
            generation = refl;
            file = refl;
            at_line = omega arith;
            at_byte = omega arith;
            ingested = refl;
            columns = (refl, refl, refl, refl, refl, refl);
          },
          tt,
        )
      ]

  parsed_entries-Taken :
      (line : List ℕ) (lines : List (List ℕ)) (s : Saved) (parsed : Option ParsedRecord)
      → is_blank (fmt.trim line) ≡ false
      → fmt.parse_line (fmt.trim line) ≡ parsed
      → All (TakenFrom (line ∷ lines) s) (parsed_entries o fmt now source_id path parsed s)
  unfolding parsed_entries
  parsed_entries-Taken line lines s none given e = tt
  parsed_entries-Taken line lines s (some r) given e = record_entries-Taken line lines s r given e

  line_entries-Taken :
      (line : List ℕ) (lines : List (List ℕ)) (s : Saved)
      → All (TakenFrom (line ∷ lines) s) (line_entries o fmt now source_id path line s)
  unfolding line_entries
  line_entries-Taken line lines s = elim (Bool-cases (is_blank (fmt.trim line))) [
    | inl blank ↦ rw blank tt
    | inr given ↦ rw given (parsed_entries-Taken line lines s _ given refl)
  ]

  TakenFrom-later :
      (line : List ℕ) (lines : List (List ℕ)) (s : Saved) (e : EntryRow)
      → TakenFrom lines (pure_line o fmt now source_id path line s) e
      → TakenFrom (line ∷ lines) s e
  unfolding bytes_of
  TakenFrom-later line lines s e t =
      let step = pure_line-offset o fmt now source_id path line s in
      record {
        before = line ∷ t.before;
        line = t.line;
        after = t.after;
        split = ap (◌∷◌ line) t.split;
        parsed = t.parsed;
        text = t.text;
        parses = t.parses;
        no_alert = t.no_alert;
        generation = t.generation;
        file = t.file;
        at_line = omega (arith, t.at_line, step.1);
        at_byte = omega (arith, t.at_byte, step.0);
        ingested = t.ingested;
        columns = t.columns;
      }

  lines_entries-Taken :
      (lines : List (List ℕ)) (s : Saved)
      → All (TakenFrom lines s) (lines_entries o fmt now source_id path lines s)
  unfolding lines_entries
  lines_entries-Taken [] s = tt
  lines_entries-Taken (line ∷ lines) s =
      let t = pure_line o fmt now source_id path line s in
      All-append (TakenFrom (line ∷ lines) s) (line_entries o fmt now source_id path line s)
        (lines_entries o fmt now source_id path lines t) (line_entries-Taken line lines s)
        (All-weaken (TakenFrom lines t) (TakenFrom (line ∷ lines) s)
          (lines_entries o fmt now source_id path lines t) (TakenFrom-later line lines s)
          (lines_entries-Taken lines t))

  -- Where no two keys of the first n complete lines share a hash, the cache holds for these keys what
  -- the resolver says, and all entries of this generation of the file stand on lines that are scanned
  -- already: a scan of at most n lines appends, in their order, the entries of these lines, one for each
  -- line that has a record other than a security alert; each has the number of its line, the offset at
  -- which the line begins, and the time, method, path, model, user agent and request id of the line's
  -- record; and the entries of the generation stand on scanned lines again.
  pub ingest_lines-entries :
      (n : ℕ) (content : List ℕ) (p : Progress)
      → let lines = take n (complete_lines content) in
        Distinct o (KeyIn fmt lines)
        → Consistent o (KeyIn fmt lines) p.cache
        → All (Scanned o fmt now source_id path p.line_no) p.rows.entries
        → let t = ingest_lines o fmt now source_id path n content p in
          let added = lines_entries o fmt now source_id path lines (saved p) in
          (t.rows.entries ≡ p.rows.entries ++ added)
          × All (TakenFrom lines (saved p)) added
          × All (Scanned o fmt now source_id path t.line_no) t.rows.entries
  ingest_lines-entries n content p distinct h scanned =
      let lines = take n (complete_lines content) in
      let same =
        ingest_lines-pure o fmt now source_id path (KeyIn fmt lines) n content p distinct
          (λ line i r e b. (line, r, i, e, refl, b)) h in
      let all = pure_all-entries o fmt now source_id path lines (saved p) scanned in
      (
        ap (λ (s : Saved). s.rows.entries) same ∙ all.0,
        lines_entries-Taken lines (saved p),
        subst (λ (s : Saved). All (Scanned o fmt now source_id path s.line_no) s.rows.entries)
            (sym same) all.1,
      )
