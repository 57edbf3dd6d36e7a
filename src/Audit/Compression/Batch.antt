-- ===== src/Audit/Compression/Batch.antt =====
-- After a batch the rows up to its last have no body as text.
use newapi_usage.Prelude.{
  ℕ, zero, suc, ◌<◌, ◌≤◌, true, false, not, ◌&&◌, is_blank, List, [], ◌∷◌, take, ltb, select_where,
  select_where-In, In-select_where, sort_by, sort_by-In, In-sort_by, take-In, by_column,
  last_column, last_column-above, take-Ascending, sort_by-Ascending, sort_by-All,
  select_where-Distinct, All, In, here, there, In-All, Distinct, ◌≡◌, refl, ◌⊎◌, inl, inr,
  Bool-cases, arith,
}
use newapi_usage.Audit.Entries.{EntryRow, Gzip}
use newapi_usage.Audit.Compression.{
  row_id, is_legacy, legacy_batch_size, next_legacy_body_batch, has_body,
}
use newapi_usage.Audit.Compression.Counts.{Done, blank-Done}
use newapi_usage.Audit.Compression.Left.{Left, AllSpared}

module _ (g : Gzip) where
  pub All-In :
      (entries all : List EntryRow)
      → ((e : EntryRow) → In e entries → In e all)
      → All (Left g (λ e. In e all)) entries
  unfolding Left
  All-In [] all h = tt
  All-In (e ∷ entries) all h = (inr (h e here), All-In entries all (λ x m. h x (there m)))

pub legacy-above : (cursor : ℕ) (e : EntryRow) → is_legacy cursor e ≡ true → cursor < e.id
unfolding is_legacy
legacy-above cursor e h = ground (arith, h)

pub select_where-above :
    (cursor : ℕ) (es : List EntryRow)
    → All (λ (e : EntryRow). cursor < e.id) (select_where (is_legacy cursor) es)
unfolding select_where
select_where-above cursor [] = tt
select_where-above cursor (e ∷ es) = elim (Bool-cases (is_legacy cursor e)) [
  | inr other ↦ rw other (select_where-above cursor es)
  | inl legacy ↦ rw legacy (legacy-above cursor e legacy, select_where-above cursor es)
]

pub take-not_nil :
    (n : ℕ) (entries : List EntryRow) (e : EntryRow)
    → 0 < n
    → In e entries
    → take n entries ≡ []
    → ⊥
take-not_nil zero entries e h m same = omega (arith, h)
take-not_nil (suc n) [] e h m same = elim m [ ]
take-not_nil (suc n) (x ∷ entries) e h m same = cc

pub List-cases :
    (entries : List EntryRow)
    → (entries ≡ []) ⊎ ((e : EntryRow) × (es : List EntryRow) × (entries ≡ e ∷ es))
List-cases [] = inl refl
List-cases (e ∷ es) = inr (e, es, refl)

module _ (g : Gzip) (entries : List EntryRow) (cursor : ℕ) where
  abbrev pub legacy_rows : List EntryRow
  legacy_rows = sort_by (by_column row_id) (select_where (is_legacy cursor) entries)

  pub next_legacy_body_batch-In :
      (e : EntryRow)
      → In e (next_legacy_body_batch entries cursor)
      → In e entries × (is_legacy cursor e ≡ true)
  unfolding next_legacy_body_batch
  next_legacy_body_batch-In e m = select_where-In (is_legacy cursor) entries (
      sort_by-In (by_column row_id) (select_where (is_legacy cursor) entries)
        (take-In legacy_batch_size legacy_rows m))

  -- A row with a body is after the cursor, so that it waits.
  pub Done-legacy :
      (e : EntryRow) → In e entries → Done g cursor e → is_blank e.body ≡ false → In e legacy_rows
  unfolding is_legacy Done
  Done-legacy e m h text =
      let after : (ltb cursor e.id && not (is_blank e.body)) ≡ true = ground (arith, h, text) in
      In-sort_by (by_column row_id) (select_where (is_legacy cursor) entries)
        (In-select_where (is_legacy cursor) m after)

  pub legacy_rows-above : All (λ (e : EntryRow). cursor < e.id) legacy_rows
  legacy_rows-above =
      sort_by-All (λ (e : EntryRow). cursor < e.id) (by_column row_id)
        (select_where (is_legacy cursor) entries) (select_where-above cursor entries)

  abbrev pub last_row : ℕ
  last_row = last_column row_id cursor (next_legacy_body_batch entries cursor)

  pub Spared-Done :
      (e : EntryRow)
      → Distinct row_id entries
      → AllSpared g (λ x. In x entries) (next_legacy_body_batch entries cursor) e
      → Done g cursor e
      → Done g last_row e
  unfolding Done next_legacy_body_batch has_body
  Spared-Done e d spared h before = elim (Bool-cases (is_blank e.body)) [
    | inl blank ↦ blank
    | inr text ↦
        let waits = Done-legacy e spared.0 h text in
        let ascending =
          sort_by-Ascending row_id (select_where (is_legacy cursor) entries)
            (select_where-Distinct row_id (is_legacy cursor) entries d) in
        elim (take-Ascending row_id cursor legacy_batch_size legacy_rows e legacy_rows-above
          ascending waits) [
            | inl m ↦
                let free = In-All (λ (i : EntryRow). has_body i.id e ≡ false) m spared.1 in
                absurd (ground (arith, free, text))
            | inr after ↦ absurd (omega (arith, after, before))
          ]
  ]

  pub Left-Done :
      (e : EntryRow)
      → Distinct row_id entries
      → All (Done g cursor) entries
      → Left g (AllSpared g (λ x. In x entries) (next_legacy_body_batch entries cursor)) e
      → Done g last_row e
  unfolding Left
  Left-Done e d before (inl blank) = blank-Done g last_row e blank
  Left-Done e d before (inr spared) =
      Spared-Done e d spared (In-All (Done g cursor) spared.0 before)

  -- What one batch does to the rows up to its last.
  pub batch-Done :
      (es : List EntryRow)
      → Distinct row_id entries
      → All (Done g cursor) entries
      → All (Left g (AllSpared g (λ x. In x entries) (next_legacy_body_batch entries cursor))) es
      → All (Done g last_row) es
  batch-Done [] d before h = tt
  batch-Done (e ∷ es) d before h = (Left-Done e d before h.0, batch-Done es d before h.1)

  pub last_row-above : Distinct row_id entries → cursor ≤ last_row
  unfolding next_legacy_body_batch
  last_row-above d =
      last_column-above row_id cursor legacy_batch_size legacy_rows legacy_rows-above (
        sort_by-Ascending row_id (select_where (is_legacy cursor) entries)
          (select_where-Distinct row_id (is_legacy cursor) entries d))

  pub All-blank :
      (es : List EntryRow)
      → ((e : EntryRow) → In e es → In e entries)
      → next_legacy_body_batch entries cursor ≡ []
      → All (Done g cursor) es
      → All (λ (e : EntryRow). is_blank e.body ≡ true) es
  unfolding next_legacy_body_batch
  All-blank [] old none_left h = tt
  All-blank (e ∷ es) old none_left h = (
    elim (Bool-cases (is_blank e.body)) [
      | inl blank ↦ blank
      | inr text ↦ absurd (
          take-not_nil legacy_batch_size legacy_rows e (omega arith)
            (Done-legacy e (old e here) h.0 text) none_left)
    ],
    All-blank es (λ x m. old x (there m)) none_left h.1,
  )
