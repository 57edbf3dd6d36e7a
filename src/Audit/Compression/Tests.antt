-- ===== src/Audit/Compression/Tests.antt =====
-- The compression of two rows, one of which is compressed already but still has its text.
use newapi_usage.Prelude.{
  ℕ, Text, codes, List, [], ◌∷◌, Option, none, some, All, Distinct, refl, arith, count_where,
}
use newapi_usage.Audit.Entries.{EntryRow, Gzip, body_encoding_gzip}
use newapi_usage.Audit.Compression.{
  compress_legacy_bodies, row_id, legacy_compression_state, is_legacy,
}
use newapi_usage.Audit.Compression.Reads.{Faithful}
use newapi_usage.Audit.Compression.Counts.{Done}
use newapi_usage.Audit.Compression.Ends.{Finished, compress_legacy_bodies-Finished}
use newapi_usage.Audit.Lookup.Tests.{row}

-- A stand-in for gzip that writes one byte before the text.
abbrev decompress : List ℕ → Option Text
decompress [] = none
decompress (c ∷ s) = some s

abbrev marked : Gzip
marked = record { compress = λ body. 31 ∷ body; decompress = decompress }

marked-Faithful : Faithful marked
unfolding Faithful
marked-Faithful body = (refl, refl)

abbrev old_rows : List EntryRow
old_rows =
    row 1 400
    ∷ record (row 2 495) { body_gzip = 31 ∷ codes "hi"; body_encoding = body_encoding_gzip }
    ∷ []

ids_differ : Distinct row_id old_rows
ids_differ = ((λ same. omega (arith, same), tt), (tt, tt))

nothing-Done : All (Done marked 0) old_rows
unfolding Done
nothing-Done = ((λ le. absurd (omega (arith, le))), ((λ le. absurd (omega (arith, le))), tt))

compress_legacy_bodies-Finished_example :
    Finished marked 9 old_rows (compress_legacy_bodies marked 9 3 old_rows none)
unfolding legacy_compression_state count_where is_legacy
compress_legacy_bodies-Finished_example =
    compress_legacy_bodies-Finished marked 9 3 old_rows none marked-Faithful ids_differ refl
      nothing-Done (omega arith)
