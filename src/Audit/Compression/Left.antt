-- ===== src/Audit/Compression/Left.antt =====
-- A row that has a body as text after a batch was in none of its statements.
use newapi_usage.Prelude.{
  true, false, is_blank, List, [], ◌∷◌, update_where, All, ◌≡◌, ◌⊎◌, inl, inr, Bool-cases,
}
use newapi_usage.Audit.Entries.{EntryRow, Gzip}
use newapi_usage.Audit.Compression.{has_body, compressed, compress_rows}
use newapi_usage.Audit.Compression.Reads.{compressed-blank}

module _ (g : Gzip) where
  -- A row that has a body left has a property.
  unfoldable pub Left : (EntryRow → Type 0) → EntryRow → Type 0
  Left Q e = (is_blank e.body ≡ true) ⊎ Q e

  pub Left-compressed : (Q : EntryRow → Type 0) (item e : EntryRow) → Left Q (compressed g item e)
  unfolding Left
  Left-compressed Q item e = inl (compressed-blank g item e)

  abbrev pub Spared : (EntryRow → Type 0) → EntryRow → EntryRow → Type 0
  Spared Q item e = Q e × (has_body item.id e ≡ false)

  pub Left-Spared :
      (Q : EntryRow → Type 0) (item e : EntryRow)
      → has_body item.id e ≡ false
      → Left Q e
      → Left (Spared Q item) e
  unfolding Left
  Left-Spared Q item e skipped (inl blank) = inl blank
  Left-Spared Q item e skipped (inr q) = inr (q, skipped)

  pub update_where-Left :
      (Q : EntryRow → Type 0) (item : EntryRow) (entries : List EntryRow)
      → All (Left Q) entries
      → All (Left (Spared Q item)) (update_where (has_body item.id) (compressed g item) entries)
  unfolding update_where
  update_where-Left Q item [] h = tt
  update_where-Left Q item (e ∷ entries) h = elim (Bool-cases (has_body item.id e)) [
    | inl due ↦
        rw due (Left-compressed (Spared Q item) item e, update_where-Left Q item entries h.1)
    | inr skipped ↦
        let first = Left-Spared Q item e skipped h.0 in
        rw skipped (first, update_where-Left Q item entries h.1)
  ]

  abbrev pub AllSpared : (EntryRow → Type 0) → List EntryRow → EntryRow → Type 0
  AllSpared Q batch e = Q e × All (λ (i : EntryRow). has_body i.id e ≡ false) batch

  pub Left-map :
      (P Q : EntryRow → Type 0) (entries : List EntryRow)
      → ((e : EntryRow) → P e → Q e)
      → All (Left P) entries
      → All (Left Q) entries
  unfolding Left
  Left-map P Q [] f h = tt
  Left-map P Q (e ∷ entries) f h =
      (elim h.0 [ inl blank ↦ inl blank | inr p ↦ inr (f e p) ], Left-map P Q entries f h.1)

  pub compress_rows-Left :
      (Q : EntryRow → Type 0) (batch entries : List EntryRow)
      → All (Left Q) entries
      → All (Left (AllSpared Q batch)) (compress_rows g batch entries)
  unfolding compress_rows
  compress_rows-Left Q [] entries h = Left-map Q (AllSpared Q []) entries (λ e q. (q, tt)) h
  compress_rows-Left Q (item ∷ batch) entries h =
      let rest = update_where (has_body item.id) (compressed g item) entries in
      Left-map (AllSpared (Spared Q item) batch) (AllSpared Q (item ∷ batch))
        (compress_rows g batch rest) (λ e s. (s.0.0, (s.0.1, s.1)))
        (compress_rows-Left (Spared Q item) batch rest (update_where-Left Q item entries h))
