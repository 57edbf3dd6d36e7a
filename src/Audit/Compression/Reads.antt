-- ===== src/Audit/Compression/Reads.antt =====
-- Compression changes nothing that is read: every row keeps its id and decodes to the same body.
use newapi_usage.Prelude.{
  ℕ, true, false, not, ◌&&◌, ◌||◌, Text, text_eq, text_eq_refl, is_blank, List, [], ◌∷◌, map,
  Option, some, ◌==◌, update_where, All, In, here, there, In-All, ◌≡◌, refl, ap, subst, sym, ◌∙◌,
  ◌≢◌, inl, inr, Bool-cases, and_both, Distinct, arith,
}
use mathlib.Core.List.{head-eq_of_cons-eq, tail-eq_of_cons-eq}
use newapi_usage.Audit.Entries.{EntryRow, Gzip, encode_body, decode_body, body_encoding_gzip}
use newapi_usage.Audit.Compression.{row_id, has_body, compressed, compress_rows}

-- What compress/gzip promises: what is compressed is not empty and decompresses to what it was.
unfoldable pub Faithful : Gzip → Type 0
Faithful g =
    (body : Text)
    → (is_blank (g.compress body) ≡ false) × (g.decompress (g.compress body) ≡ some body)

module _ (g : Gzip) where
  -- The id of a row and its body.
  abbrev pub reading : EntryRow → ℕ × Option Text
  reading e = (e.id, decode_body g e.body e.body_gzip e.body_encoding)

  compressed-reading :
      (e : EntryRow) → Faithful g → is_blank e.body ≡ false → reading (compressed g e e) ≡ reading e
  unfolding Faithful compressed decode_body encode_body
  compressed-reading e faithful text =
      let gzipped = text_eq e.body_encoding body_encoding_gzip in
      let plain = is_blank e.body_gzip in
      let known : text_eq body_encoding_gzip body_encoding_gzip ≡ true =
        text_eq_refl body_encoding_gzip in
      elim (Bool-cases (gzipped && not plain)) [
        | inl done ↦
            let stored : (not gzipped || plain) ≡ false = ground (arith, done) in rw (done, stored)
        | inr due ↦
            let raw : (not gzipped || plain) ≡ true = ground (arith, due) in
            rw (due, raw, text, (faithful e.body).0, (faithful e.body).1)
      ]

  -- A row that is compressed has no body left.
  pub compressed-blank : (item e : EntryRow) → is_blank (compressed g item e).body ≡ true
  unfolding compressed
  compressed-blank item e =
      elim (Bool-cases
        (text_eq item.body_encoding body_encoding_gzip && not (is_blank item.body_gzip))) [
          | inl done ↦ rw done
          | inr due ↦ rw due
        ]

  compressed-has_body :
      (item : EntryRow) (id : ℕ) (e : EntryRow) → has_body id (compressed g item e) ≡ true → ⊥
  unfolding has_body
  compressed-has_body item id e again = ground (arith, again, compressed-blank item e)

  -- The item is the row as it is, if the row is still to be compressed.
  Current : EntryRow → EntryRow → Type 0
  Current item e = has_body item.id e ≡ true → e ≡ item

  due-reading :
      (item e : EntryRow)
      → Faithful g
      → Current item e
      → has_body item.id e ≡ true
      → reading (compressed g item e) ≡ reading e
  unfolding Current has_body
  due-reading item e faithful h due =
      let text = and_both (e.id == item.id) (not (is_blank e.body)) due in
      let shown : is_blank e.body ≡ false = ground (arith, text.1) in
      subst (λ (i : EntryRow). reading (compressed g i e) ≡ reading e) (h due)
        (compressed-reading e faithful shown)

  update_where-reading :
      (item : EntryRow) (entries : List EntryRow)
      → Faithful g
      → All (Current item) entries
      → map reading (update_where (has_body item.id) (compressed g item) entries)
        ≡ map reading entries
  unfolding update_where
  update_where-reading item [] faithful h = refl
  update_where-reading item (e ∷ entries) faithful h =
      let rest = update_where-reading item entries faithful h.1 in
      elim (Bool-cases (has_body item.id e)) [
        | inr skipped ↦ rw skipped (ap (◌∷◌ (reading e)) rest)
        | inl due ↦ rw (due, due-reading item e faithful h.0 due) (ap (◌∷◌ (reading e)) rest)
      ]

  -- An update leaves the other items of a batch as current as they were.
  update_where-Current :
      (item other : EntryRow) (entries : List EntryRow)
      → All (Current other) entries
      → All (Current other) (update_where (has_body item.id) (compressed g item) entries)
  unfolding update_where Current
  update_where-Current item other [] h = tt
  update_where-Current item other (e ∷ entries) h = elim (Bool-cases (has_body item.id e)) [
    | inr skipped ↦ rw skipped (h.0, update_where-Current item other entries h.1)
    | inl due ↦ rw due (
      (λ again. absurd (compressed-has_body item other.id e again)),
      update_where-Current item other entries h.1,
    )
  ]

  update_where-All-Current :
      (item : EntryRow) (batch entries : List EntryRow)
      → All (λ i. All (Current i) entries) batch
      → All
          (λ i. All (Current i) (update_where (has_body item.id) (compressed g item) entries))
          batch
  update_where-All-Current item [] entries h = tt
  update_where-All-Current item (i ∷ batch) entries h =
      (update_where-Current item i entries h.0, update_where-All-Current item batch entries h.1)

  compress_rows-Current :
      (batch entries : List EntryRow)
      → Faithful g
      → All (λ i. All (Current i) entries) batch
      → map reading (compress_rows g batch entries) ≡ map reading entries
  unfolding compress_rows
  compress_rows-Current [] entries faithful h = refl
  compress_rows-Current (item ∷ batch) entries faithful h =
      compress_rows-Current batch (update_where (has_body item.id) (compressed g item) entries)
        faithful (update_where-All-Current item batch entries h.1)
      ∙ update_where-reading item entries faithful h.0

  others-Current :
      (item : EntryRow) (entries : List EntryRow)
      → All (λ e. item.id ≢ e.id) entries
      → All (Current item) entries
  unfolding Current has_body
  others-Current item [] h = tt
  others-Current item (e ∷ entries) h =
      (λ due. absurd (ground (arith, h.0, due)), others-Current item entries h.1)

  In-Current :
      (item : EntryRow) (entries : List EntryRow)
      → Distinct row_id entries
      → In item entries
      → All (Current item) entries
  unfolding Current has_body
  In-Current item [] d m = elim m [ ]
  In-Current item (_ ∷ entries) d here = (λ due. refl, others-Current item entries d.0)
  In-Current item (e ∷ entries) d (there m) =
      let differ = In-All (λ x. e.id ≢ x.id) m d.0 in
      (λ due. absurd (ground (arith, differ, due)), In-Current item entries d.1 m)

  batch-Current :
      (batch entries : List EntryRow)
      → Distinct row_id entries
      → ((i : EntryRow) → In i batch → In i entries)
      → All (λ i. All (Current i) entries) batch
  batch-Current [] entries d h = tt
  batch-Current (i ∷ batch) entries d h =
      (In-Current i entries d (h i here), batch-Current batch entries d (λ j m. h j (there m)))

  -- The statements of a batch of rows change no reading.
  pub compress_rows-reading :
      (batch entries : List EntryRow)
      → Faithful g
      → Distinct row_id entries
      → ((i : EntryRow) → In i batch → In i entries)
      → map reading (compress_rows g batch entries) ≡ map reading entries
  compress_rows-reading batch entries faithful d h =
      compress_rows-Current batch entries faithful (batch-Current batch entries d h)

  -- Rows that read the same have the same ids.
  All-reading :
      (n : ℕ) (xs ys : List EntryRow)
      → map reading xs ≡ map reading ys
      → All (λ e. n ≢ e.id) ys
      → All (λ e. n ≢ e.id) xs
  All-reading n [] ys same h = tt
  All-reading n (x ∷ xs) [] same h = cc
  All-reading n (x ∷ xs) (y ∷ ys) same h =
      let ids : x.id ≡ y.id = ap (λ r. r.0) (head-eq_of_cons-eq same) in
      (subst (λ k. n ≢ k) (sym ids) h.0, All-reading n xs ys (tail-eq_of_cons-eq same) h.1)

  pub Distinct-reading :
      (xs ys : List EntryRow)
      → map reading xs ≡ map reading ys
      → Distinct row_id ys
      → Distinct row_id xs
  Distinct-reading [] ys same d = tt
  Distinct-reading (x ∷ xs) [] same d = cc
  Distinct-reading (x ∷ xs) (y ∷ ys) same d =
      let ids : x.id ≡ y.id = ap (λ r. r.0) (head-eq_of_cons-eq same) in
      let rest = tail-eq_of_cons-eq same in
      (
        All-reading x.id xs ys rest
            (subst (λ k. All (λ (e : EntryRow). k ≢ e.id) ys) (sym ids) d.0),
        Distinct-reading xs ys rest d.1,
      )
