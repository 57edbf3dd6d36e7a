-- ===== src/Audit/Compression/Ends.antt =====
-- The compression comes to an end, and then no row has a body as text.
use newapi_usage.Prelude.{
  ℕ, zero, suc, ◌<◌, true, is_blank, List, [], ◌∷◌, Option, map, update_where, last_column,
  count_where, All, In, here, Distinct, ◌≡◌, refl, ap, ◌∙◌, inl, inr, arith,
}
use newapi_usage.Audit.Entries.{EntryRow, Gzip}
use newapi_usage.Audit.Compression.{
  Maintenance, Compression, completed, row_id, is_legacy, next_legacy_body_batch, has_body,
  compressed, compress_rows, compress_loop, legacy_compression_state, compress_legacy_bodies,
}
use newapi_usage.Audit.Compression.Reads.{
  Faithful, reading, compress_rows-reading, Distinct-reading,
}
use newapi_usage.Audit.Compression.Counts.{
  Done, update_where-legacy_item, compress_rows-legacy, count_where-raise,
}
use newapi_usage.Audit.Compression.Left.{compress_rows-Left}
use newapi_usage.Audit.Compression.Batch.{
  All-In, List-cases, next_legacy_body_batch-In, last_row, batch-Done, last_row-above, All-blank,
}

module _ (g : Gzip) (now : ℕ) where
  -- The compression completed, with every reading as it was and no body left as text.
  pub Finished : List EntryRow → Compression → Type 0
  Finished entries outcome =
      (after : List EntryRow) × (m : Maintenance) × (outcome ≡ completed after m)
      × (map (reading g) after ≡ map (reading g) entries)
      × All (λ (e : EntryRow). is_blank e.body ≡ true) after
      × (m.completed_at ≡ now)

  Finished-reading :
      (xs ys : List EntryRow) (o : Compression)
      → map (reading g) xs ≡ map (reading g) ys
      → Finished xs o
      → Finished ys o
  unfolding Finished
  Finished-reading xs ys o same h = (h.0, h.1, h.2, h.3 ∙ same, h.4, h.5)

  compress_loop-nil :
      (fuel : ℕ) (entries : List EntryRow) (cursor : ℕ)
      → next_legacy_body_batch entries cursor ≡ []
      → compress_loop g now (suc fuel) entries cursor
        ≡ completed entries (record { cursor = cursor; completed_at = now })
  unfolding compress_loop
  compress_loop-nil fuel entries cursor e = rw (e, compress_loop)

  compress_loop-cons :
      (fuel : ℕ) (entries : List EntryRow) (cursor : ℕ) (item : EntryRow) (batch : List EntryRow)
      → next_legacy_body_batch entries cursor ≡ item ∷ batch
      → compress_loop g now (suc fuel) entries cursor
        ≡ compress_loop g now fuel
            (compress_rows g (next_legacy_body_batch entries cursor) entries)
            (last_row g entries cursor)
  unfolding compress_loop last_column
  compress_loop-cons fuel entries cursor item batch e = rw (e, compress_loop)

  Finished-completed :
      (entries : List EntryRow) (cursor : ℕ)
      → next_legacy_body_batch entries cursor ≡ []
      → All (Done g cursor) entries
      → Finished entries (completed entries (record { cursor = cursor; completed_at = now }))
  unfolding Finished
  Finished-completed entries cursor e done = (
    entries,
    record { cursor = cursor; completed_at = now },
    refl,
    refl,
    All-blank g entries cursor entries (λ x m. m) e done,
    refl,
  )

  -- Every batch with rows leaves less to do.
  batch-legacy :
      (entries : List EntryRow) (cursor : ℕ) (item : EntryRow) (batch : List EntryRow)
      → Distinct row_id entries
      → next_legacy_body_batch entries cursor ≡ item ∷ batch
      → count_where
          (is_legacy (last_row g entries cursor))
          (compress_rows g (next_legacy_body_batch entries cursor) entries)
        < count_where (is_legacy cursor) entries
  unfolding compress_rows
  batch-legacy entries cursor item batch d e =
      let first = next_legacy_body_batch-In g entries cursor item (rw e here) in
      let once = update_where (has_body item.id) (compressed g item) entries in
      let after = compress_rows g batch once in
      let raised =
        count_where-raise g cursor (last_row g entries cursor) after
          (last_row-above g entries cursor d) in
      let kept = compress_rows-legacy g cursor batch once in
      let fewer = update_where-legacy_item g cursor item entries first.0 first.1 in
      let same : compress_rows g (next_legacy_body_batch entries cursor) entries ≡ after =
        ap (λ b. compress_rows g b entries) e in
      omega
        (arith, raised, kept, fewer, ap (count_where (is_legacy (last_row g entries cursor))) same)

  compress_loop-Finished :
      (fuel : ℕ) (entries : List EntryRow) (cursor : ℕ)
      → Faithful g
      → Distinct row_id entries
      → All (Done g cursor) entries
      → count_where (is_legacy cursor) entries < fuel
      → Finished entries (compress_loop g now fuel entries cursor)
  compress_loop-Finished zero entries cursor faithful d done h = absurd (omega (arith, h))
  compress_loop-Finished (suc fuel) entries cursor faithful d done h =
      elim (List-cases (next_legacy_body_batch entries cursor)) [
        | inl e ↦
            rw (compress_loop-nil fuel entries cursor e) (Finished-completed entries cursor e done)
        | inr b ↦
            let batch = next_legacy_body_batch entries cursor in
            let after = compress_rows g batch entries in
            let same =
              compress_rows-reading g batch entries faithful d
                (λ i m. (next_legacy_body_batch-In g entries cursor i m).0) in
            let left = batch-Done g entries cursor after d done (
              compress_rows-Left g (λ e. In e entries) batch entries
                (All-In g entries entries (λ e m. m))) in
            let less : count_where (is_legacy (last_row g entries cursor)) after < fuel =
              omega (arith, h, batch-legacy entries cursor b.0 b.1 d b.2) in
            let rest =
              compress_loop-Finished fuel after (last_row g entries cursor) faithful
                (Distinct-reading g after entries same d) left less in
            rw (compress_loop-cons fuel entries cursor b.0 b.1 b.2) (
              Finished-reading after entries
                (compress_loop g now fuel after (last_row g entries cursor)) same rest)
      ]

  -- Where what is compressed decompresses to what it was, ids are unique, the rows up to the saved
  -- cursor have no body as text, and the work is not marked as completed: with more fuel than there
  -- are bodies to compress the loop ends, every row reads as before, no row has a body as text, and
  -- the work is marked as completed now.
  pub compress_legacy_bodies-Finished :
      (fuel : ℕ) (entries : List EntryRow) (state : Option Maintenance)
      → Faithful g
      → Distinct row_id entries
      → (legacy_compression_state state).completed_at ≡ 0
      → All (Done g (legacy_compression_state state).cursor) entries
      → count_where (is_legacy (legacy_compression_state state).cursor) entries < fuel
      → Finished entries (compress_legacy_bodies g now fuel entries state)
  unfolding compress_legacy_bodies
  compress_legacy_bodies-Finished fuel entries state faithful d open_work done h = rw open_work (
      compress_loop-Finished fuel entries (legacy_compression_state state).cursor faithful d done h)
