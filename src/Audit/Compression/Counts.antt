-- ===== src/Audit/Compression/Counts.antt =====
-- How many bodies are still to compress: a statement takes its row from them.
use newapi_usage.Prelude.{
  ℕ, ◌<◌, ◌≤◌, true, false, is_blank, List, [], ◌∷◌, bool_int, update_where, count_where, sum_by,
  In, here, there, ◌≡◌, inl, inr, Bool-cases, arith,
}
use newapi_usage.Audit.Entries.{EntryRow, Gzip}
use newapi_usage.Audit.Compression.{is_legacy, has_body, compressed, compress_rows}
use newapi_usage.Audit.Compression.Reads.{compressed-blank}

module _ (g : Gzip) where
  -- The rows up to the cursor have no body as text.
  unfoldable pub Done : ℕ → EntryRow → Type 0
  Done cursor e = e.id ≤ cursor → is_blank e.body ≡ true

  pub blank-Done : (cursor : ℕ) (e : EntryRow) → is_blank e.body ≡ true → Done cursor e
  unfolding Done
  blank-Done cursor e blank _ = blank

  pub compressed-legacy :
      (cursor : ℕ) (item e : EntryRow) → is_legacy cursor (compressed g item e) ≡ false
  unfolding is_legacy
  compressed-legacy cursor item e = ground (arith, compressed-blank g item e)

  -- An update takes the rows that it compresses from those to do.
  pub update_where-legacy :
      (cursor : ℕ) (item : EntryRow) (entries : List EntryRow)
      → count_where (is_legacy cursor) (update_where (has_body item.id) (compressed g item) entries)
        ≤ count_where (is_legacy cursor) entries
  unfolding update_where count_where sum_by
  update_where-legacy cursor item [] = omega arith
  update_where-legacy cursor item (e ∷ entries) = elim (Bool-cases (has_body item.id e)) [
    | inr skipped ↦ rw skipped (omega (arith, update_where-legacy cursor item entries))
    | inl due ↦
        rw (due, compressed-legacy cursor item e)
          (omega (arith, update_where-legacy cursor item entries))
  ]

  pub legacy-has_body :
      (cursor : ℕ) (e : EntryRow) → is_legacy cursor e ≡ true → has_body e.id e ≡ true
  unfolding is_legacy has_body
  legacy-has_body cursor e h = ground (arith, h)

  pub update_where-legacy_item :
      (cursor : ℕ) (item : EntryRow) (entries : List EntryRow)
      → In item entries
      → is_legacy cursor item ≡ true
      → count_where (is_legacy cursor) (update_where (has_body item.id) (compressed g item) entries)
        < count_where (is_legacy cursor) entries
  unfolding update_where count_where sum_by
  update_where-legacy_item cursor item [] m h = elim m [ ]
  update_where-legacy_item cursor item (_ ∷ entries) here h =
      rw (legacy-has_body cursor item h, compressed-legacy cursor item item, h)
        (omega (arith, update_where-legacy cursor item entries))
  update_where-legacy_item cursor item (e ∷ entries) (there m) h =
      let rest = update_where-legacy_item cursor item entries m h in
      elim (Bool-cases (has_body item.id e)) [
        | inr skipped ↦ rw skipped (omega (arith, rest))
        | inl due ↦ rw (due, compressed-legacy cursor item e) (omega (arith, rest))
      ]

  pub compress_rows-legacy :
      (cursor : ℕ) (batch entries : List EntryRow)
      → count_where (is_legacy cursor) (compress_rows g batch entries)
        ≤ count_where (is_legacy cursor) entries
  unfolding compress_rows
  compress_rows-legacy cursor [] entries = omega arith
  compress_rows-legacy cursor (item ∷ batch) entries = omega (
    arith,
    update_where-legacy cursor item entries,
    compress_rows-legacy cursor batch (update_where (has_body item.id) (compressed g item) entries),
  )

  pub legacy-raise :
      (c c' : ℕ) (e : EntryRow) → c ≤ c' → bool_int (is_legacy c' e) ≤ bool_int (is_legacy c e)
  unfolding is_legacy
  legacy-raise c c' e le = ground (arith, le)

  pub count_where-raise :
      (c c' : ℕ) (entries : List EntryRow)
      → c ≤ c'
      → count_where (is_legacy c') entries ≤ count_where (is_legacy c) entries
  unfolding count_where sum_by
  count_where-raise c c' [] le = omega arith
  count_where-raise c c' (e ∷ entries) le =
      omega (arith, legacy-raise c c' e le, count_where-raise c c' entries le)
