-- ===== src/Audit/Compression.antt =====
-- compressLegacyBodies of internal/audit/index.go: bodies that older versions stored as text are
-- compressed in batches, along a cursor that is saved with every batch. Pauses between batches and
-- the cancellation of the context are not modelled.
pub mod Reads
pub mod Counts
pub mod Left
pub mod Batch
pub mod Ends
pub mod Tests
use newapi_usage.Prelude.{
  ℕ, zero, suc, Bool, true, false, not, ◌&&◌, Text, text_eq, is_blank, List, [], ◌∷◌, Option, none,
  some, take, ltb, leb, ◌==◌, if◌then◌else◌, update_where, select_where, sort_by, by_column,
  last_column,
}
use newapi_usage.Audit.Entries.{EntryRow, Gzip, encode_body, body_encoding_gzip}

-- The row of audit_maintenance with the name legacyBodyCompressionName.
pub record Maintenance : Type 0 where
  pub cursor : ℕ
  pub completed_at : ℕ

abbrev pub legacy_batch_size : ℕ
legacy_batch_size = 50

-- legacyCompressionState: a missing row is inserted as zero.
unfoldable pub legacy_compression_state : Option Maintenance → Maintenance
legacy_compression_state none = record { cursor = 0; completed_at = 0 }
legacy_compression_state (some m) = m

abbrev pub row_id : EntryRow → ℕ
row_id e = e.id

-- id > ? AND body <> ''
unfoldable pub is_legacy : ℕ → EntryRow → Bool
is_legacy cursor e = ltb cursor e.id && not (is_blank e.body)

unfoldable pub next_legacy_body_batch : List EntryRow → ℕ → List EntryRow
unfolding is_legacy
next_legacy_body_batch entries cursor =
    take legacy_batch_size (sort_by (by_column row_id) (select_where (is_legacy cursor) entries))

-- id = ? AND body <> ''
unfoldable pub has_body : ℕ → EntryRow → Bool
has_body id e = e.id == id && not (is_blank e.body)

-- The columns that a statement of the batch writes for an item.
unfoldable pub compressed : Gzip → EntryRow → EntryRow → EntryRow
unfolding encode_body text_eq
compressed g item e =
    let stored = encode_body g item.body in
    if text_eq item.body_encoding body_encoding_gzip && not (is_blank item.body_gzip)
    then record e { body = [] }
    else record e { body = []; body_gzip = stored.0; body_encoding = stored.1 }

-- The statements of compressLegacyBodyBatch.
unfoldable pub compress_rows : Gzip → List EntryRow → List EntryRow → List EntryRow
unfolding has_body compressed update_where
compress_rows g [] entries = entries
compress_rows g (item ∷ batch) entries =
    compress_rows g batch (update_where (has_body item.id) (compressed g item) entries)

pub data Compression : Type 0 where
  completed : List EntryRow → Maintenance → Compression
  out_of_fuel : Compression

-- The loop of compressLegacyBodies; the cursor is the id of the last row of the batch.
unfoldable pub compress_loop : Gzip → ℕ → ℕ → List EntryRow → ℕ → Compression
unfolding compress_rows next_legacy_body_batch last_column
compress_loop g now zero entries cursor = out_of_fuel
compress_loop g now (suc fuel) entries cursor = elim (next_legacy_body_batch entries cursor) [
  | [] ↦ completed entries (record { cursor = cursor; completed_at = now })
  | item ∷ batch ↦
      compress_loop g now fuel (compress_rows g (item ∷ batch) entries)
        (last_column row_id item.id batch)
]

unfoldable pub compress_legacy_bodies :
    Gzip → ℕ → ℕ → List EntryRow → Option Maintenance → Compression
unfolding compress_loop legacy_compression_state
compress_legacy_bodies g now fuel entries state =
    let m = legacy_compression_state state in
    if ltb 0 m.completed_at then completed entries m else compress_loop g now fuel entries m.cursor
