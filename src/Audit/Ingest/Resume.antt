-- ===== src/Audit/Ingest/Resume.antt =====
-- A scan that stops at its limit of lines goes on where it stopped.
use newapi_usage.Prelude.{
  ℕ, zero, suc, ◌+◌, Bool, Text, text_eq, is_blank, List, [], ◌∷◌, ◌++◌, length, take, drop, Option,
  none, some, if◌then◌else◌, ◌≡◌, refl, ap, subst, sym, ◌∙◌, inl, inr, Bool-cases, arith, In, here,
  there, false,
}
use newapi_usage.Audit.Ingest.Tables.{ParsedRecord, Rows}
use newapi_usage.Audit.Ingest.Insert.{
  Outside, Cache, Place, insert_entry, insert_security_alert, insert_record,
  security_alert_record_type,
}
use newapi_usage.Audit.Ingest.Files.{
  LineFormat, Progress, read_string, ingest_record, ingest_line, ingest_lines,
}
use newapi_usage.Audit.Ingest.Lines.{
  complete_lines, bytes_of, read_string-Splits, Splits, ingest_all, Saved, saved,
  ingest_lines-ingest_all,
}
use newapi_usage.Audit.Ingest.Keys.{
  Consistent, Consistent-nil, Distinct, KeyIn, resolve_record_token-Consistent,
}

module _ {ℓ} {A : Type ℓ} where
  take-plus : (n m : ℕ) (xs : List A) → take (n + m) xs ≡ take n xs ++ take m (drop n xs)
  take-plus zero m xs = let e : 0 + m ≡ m = omega arith in rw e
  take-plus (suc n) zero [] = let e : suc n + 0 ≡ suc n = omega arith in rw e
  take-plus (suc n) (suc m) [] = let e : suc n + suc m ≡ suc (n + suc m) = omega arith in rw e
  take-plus (suc n) m (x ∷ xs) =
      let e : suc n + m ≡ suc (n + m) = omega arith in rw e (ap (◌∷◌ x) (take-plus n m xs))

  drop-plus : (n m : ℕ) (xs : List A) → drop (n + m) xs ≡ drop m (drop n xs)
  drop-plus zero m xs = let e : 0 + m ≡ m = omega arith in rw e
  drop-plus (suc n) zero [] = let e : suc n + 0 ≡ suc n = omega arith in rw e
  drop-plus (suc n) (suc m) [] = let e : suc n + suc m ≡ suc (n + suc m) = omega arith in rw e
  drop-plus (suc n) m (x ∷ xs) =
      let e : suc n + m ≡ suc (n + m) = omega arith in rw e (drop-plus n m xs)

-- After the bytes of the first lines come the other lines.
pub complete_lines-drop :
    (n : ℕ) (content : List ℕ)
    → complete_lines (drop (bytes_of (take n (complete_lines content))) content)
      ≡ drop n (complete_lines content)
unfolding bytes_of Splits
complete_lines-drop zero content = refl
complete_lines-drop (suc n) content =
    let splits = read_string-Splits content in
    let r = read_string content in
    elim (Bool-cases r.ended) [
      | inr open_end ↦ rw (splits.2 open_end) (splits.2 open_end)
      | inl ended ↦
          let first = splits.1 ended in
          rw
            (
              first.0,
              drop-plus (length r.line) (bytes_of (take n (complete_lines r.rest))) content,
              first.1,
            )
            (complete_lines-drop n r.rest)
    ]

abbrev with_rows : ℕ → ℕ → Rows × Bool → Saved
with_rows offset line_no x = record { offset = offset; line_no = line_no; rows = x.0 }

module _ (o : Outside) (now : ℕ) (Key : Text → Type 0) where
  insert_record-uncached :
      (place : Place) (r : ParsedRecord) (cache : Cache) (rows : Rows)
      → Distinct o Key
      → (is_blank r.api_key ≡ false → Key r.api_key)
      → Consistent o Key cache
      → ((insert_record o now place r cache rows).0 ≡ (insert_record o now place r [] rows).0)
        × Consistent o Key (insert_record o now place r cache rows).1
  unfolding insert_record
  insert_record-uncached place r cache rows distinct met h =
      let key = resolve_record_token-Consistent o Key r cache distinct met h in
      elim (Bool-cases (text_eq r.record_type security_alert_record_type)) [
        | inl e ↦ rw e (ap (λ k. insert_security_alert now place r k rows) key.0, key.1)
        | inr e ↦ rw e (ap (λ k. insert_entry o now place r k rows) key.0, key.1)
      ]

module _ (o : Outside) (fmt : LineFormat) (now : ℕ) (source_id path : Text) where
  -- A line without the cache: a blank or invalid line moves on, a record is inserted.
  unfoldable pub pure_record : List ℕ → Option ParsedRecord → Saved → Saved
  unfolding insert_record
  pure_record line none s = record s { offset = s.offset + length line; line_no = suc s.line_no }
  pure_record line (some r) s = record s {
    offset = s.offset + length line;
    line_no = suc s.line_no;
    rows =
        (insert_record o now
          (record {
            source_id = source_id;
            source_path = path;
            source_line = suc s.line_no;
            byte_offset = s.offset;
          })
          r [] s.rows).0.0;
  }

  unfoldable pub pure_line : List ℕ → Saved → Saved
  pure_line line s =
      if is_blank (fmt.trim line)
      then pure_record line none s
      else pure_record line (fmt.parse_line (fmt.trim line)) s

  unfoldable pub pure_all : List (List ℕ) → Saved → Saved
  pure_all [] s = s
  pure_all (line ∷ lines) s = pure_all lines (pure_line line s)

  pub pure_all-append :
      (xs ys : List (List ℕ)) (s : Saved) → pure_all (xs ++ ys) s ≡ pure_all ys (pure_all xs s)
  unfolding pure_all
  pure_all-append [] ys s = refl
  pure_all-append (x ∷ xs) ys s = pure_all-append xs ys (pure_line x s)

  pure_record-offset :
      (line : List ℕ) (parsed : Option ParsedRecord) (s : Saved)
      → ((pure_record line parsed s).offset ≡ s.offset + length line)
        × ((pure_record line parsed s).line_no ≡ suc s.line_no)
  unfolding pure_record
  pure_record-offset line none s = (refl, refl)
  pure_record-offset line (some r) s = (refl, refl)

  pub pure_line-offset :
      (line : List ℕ) (s : Saved)
      → ((pure_line line s).offset ≡ s.offset + length line)
        × ((pure_line line s).line_no ≡ suc s.line_no)
  unfolding pure_line
  pure_line-offset line s = elim (Bool-cases (is_blank (fmt.trim line))) [
    | inl e ↦ rw e (pure_record-offset line none s)
    | inr e ↦ rw e (pure_record-offset line (fmt.parse_line (fmt.trim line)) s)
  ]

  pub pure_all-offset :
      (lines : List (List ℕ)) (s : Saved)
      → ((pure_all lines s).offset ≡ s.offset + bytes_of lines)
        × ((pure_all lines s).line_no ≡ s.line_no + length lines)
  unfolding pure_all bytes_of
  pure_all-offset [] s = (omega arith, omega arith)
  pure_all-offset (line ∷ lines) s =
      let step = pure_line-offset line s in
      let rest = pure_all-offset lines (pure_line line s) in
      (omega (arith, step.0, rest.0), omega (arith, step.1, rest.1))

module _ (o : Outside) (fmt : LineFormat) (now : ℕ) (source_id path : Text)
    (Key : Text → Type 0) where
  ingest_record-pure :
      (line : List ℕ) (parsed : Option ParsedRecord) (p : Progress)
      → Distinct o Key
      → ((r : ParsedRecord) → parsed ≡ some r → is_blank r.api_key ≡ false → Key r.api_key)
      → Consistent o Key p.cache
      → (saved (ingest_record o fmt now source_id path line parsed p)
          ≡ pure_record o fmt now source_id path line parsed (saved p))
        × Consistent o Key (ingest_record o fmt now source_id path line parsed p).cache
  unfolding ingest_record pure_record
  ingest_record-pure line none p distinct met h = (refl, h)
  ingest_record-pure line (some r) p distinct met h =
      let place : Place = record {
        source_id = source_id;
        source_path = path;
        source_line = suc p.line_no;
        byte_offset = p.offset;
      } in
      let same = insert_record-uncached o now Key place r p.cache p.rows distinct (met r refl) h in
      (ap (with_rows (p.offset + length line) (suc p.line_no)) same.0, same.1)

  -- The keys of a line's record.
  abbrev Met : List ℕ → Type 0
  Met line =
      (r : ParsedRecord)
      → fmt.parse_line (fmt.trim line) ≡ some r
      → is_blank r.api_key ≡ false
      → Key r.api_key

  ingest_line-pure :
      (line : List ℕ) (p : Progress)
      → Distinct o Key
      → Met line
      → Consistent o Key p.cache
      → (saved (ingest_line o fmt now source_id path line p)
          ≡ pure_line o fmt now source_id path line (saved p))
        × Consistent o Key (ingest_line o fmt now source_id path line p).cache
  unfolding ingest_line pure_line pure_record
  ingest_line-pure line p distinct met h = elim (Bool-cases (is_blank (fmt.trim line))) [
    | inl e ↦ rw e (refl, h)
    | inr e ↦ rw e (ingest_record-pure line (fmt.parse_line (fmt.trim line)) p distinct met h)
  ]

  pub ingest_all-pure :
      (lines : List (List ℕ)) (p : Progress)
      → Distinct o Key
      → ((line : List ℕ) → In line lines → Met line)
      → Consistent o Key p.cache
      → saved (ingest_all o fmt now source_id path lines p)
        ≡ pure_all o fmt now source_id path lines (saved p)
  unfolding ingest_all pure_all
  ingest_all-pure [] p distinct met h = refl
  ingest_all-pure (line ∷ lines) p distinct met h =
      let step = ingest_line-pure line p distinct (met line here) h in
      ingest_all-pure lines (ingest_line o fmt now source_id path line p) distinct
        (λ l i. met l (there i)) step.1
      ∙ ap (pure_all o fmt now source_id path lines) step.0

  -- What a scan of at most n lines saves is the insertion, one after another and without a cache, of
  -- the first n lines that have ended.
  pub ingest_lines-pure :
      (n : ℕ) (content : List ℕ) (p : Progress)
      → Distinct o Key
      → ((line : List ℕ) → In line (take n (complete_lines content)) → Met line)
      → Consistent o Key p.cache
      → saved (ingest_lines o fmt now source_id path n content p)
        ≡ pure_all o fmt now source_id path (take n (complete_lines content)) (saved p)
  ingest_lines-pure n content p distinct met h =
      ingest_lines-ingest_all o fmt now source_id path n content p
      ∙ ingest_all-pure (take n (complete_lines content)) p distinct met h

module _ {A : Type 0} where
  In-append-left : {x : A} (xs ys : List A) → In x xs → In x (xs ++ ys)
  In-append-left [] ys m = elim m [ ]
  In-append-left (x ∷ xs) ys here = here
  In-append-left (x ∷ xs) ys (there m) = there (In-append-left xs ys m)

  In-append-right : {x : A} (xs ys : List A) → In x ys → In x (xs ++ ys)
  In-append-right [] ys m = m
  In-append-right (x ∷ xs) ys m = there (In-append-right xs ys m)

module _ (o : Outside) (fmt : LineFormat) (now : ℕ) (source_id path : Text) where
  -- Where no two keys of the first n + m complete lines share a hash, and the cache that the first scan
  -- begins with holds for these keys what the resolver says: a scan of at most n lines, and one of at
  -- most m lines at the same time of ingestion, with the same answers of the resolver, that goes on at
  -- the saved offset and line with an empty cache, save what one scan of n + m lines saves.
  pub ingest_lines-resume :
      (n m : ℕ) (content : List ℕ) (p q : Progress)
      → let Key = KeyIn fmt (take (n + m) (complete_lines (drop p.offset content))) in
        Distinct o Key
        → Consistent o Key p.cache
        → saved q ≡ saved (ingest_lines o fmt now source_id path n (drop p.offset content) p)
        → q.cache ≡ []
        → saved (ingest_lines o fmt now source_id path m (drop q.offset content) q)
          ≡ saved (ingest_lines o fmt now source_id path (n + m) (drop p.offset content) p)
  ingest_lines-resume n m content p q distinct h stopped empty =
      let lines = complete_lines (drop p.offset content) in
      let Key = KeyIn fmt (take (n + m) lines) in
      let split = take-plus n m lines in
      let met : (line : List ℕ)
          → In line (take (n + m) lines)
          → Met o fmt now source_id path Key line =
        λ line i r e b. (line, r, i, e, refl, b) in
      let met_first : (line : List ℕ)
          → In line (take n lines)
          → Met o fmt now source_id path Key line =
        λ line i.
          met line (
            subst (In line) (sym split)
              (In-append-left (take n lines) (take m (drop n lines)) i)) in
      let all = pure_all o fmt now source_id path in
      let first =
        ingest_lines-pure o fmt now source_id path Key n (drop p.offset content) p distinct
          met_first h in
      let both =
        ingest_lines-pure o fmt now source_id path Key (n + m) (drop p.offset content) p distinct
          met h in
      let begin = stopped ∙ first in
      let at =
        ap (λ (s : Saved). s.offset) begin
        ∙ (pure_all-offset o fmt now source_id path (take n lines) (saved p)).0 in
      let rest =
        ap (λ k. drop k content) at ∙ drop-plus p.offset (bytes_of (take n lines)) content in
      let left = ap complete_lines rest ∙ complete_lines-drop n (drop p.offset content) in
      let met_second : (line : List ℕ)
          → In line (take m (complete_lines (drop q.offset content)))
          → Met o fmt now source_id path Key line =
        λ line i. met line (
          subst (In line) (sym split) (
            In-append-right (take n lines) (take m (drop n lines))
              (subst (λ ls. In line (take m ls)) left i))) in
      let fresh : Consistent o Key q.cache =
        subst (Consistent o Key) (sym empty) (Consistent-nil o Key) in
      let second =
        ingest_lines-pure o fmt now source_id path Key m (drop q.offset content) q distinct
          met_second fresh in
      second
      ∙ ap (λ ls. all (take m ls) (saved q)) left
      ∙ ap (all (take m (drop n lines))) begin
      ∙ sym (
          pure_all-append o fmt now source_id path (take n lines) (take m (drop n lines)) (saved p))
      ∙ ap (λ ls. all ls (saved p)) (sym split)
      ∙ sym both
