-- ===== src/Audit/Entries.antt =====
-- The tables audit_entries and log_audit_matches of internal/audit/index.go with all their columns,
-- and the storage of bodies in internal/audit/body.go. The compression itself is a parameter.
use newapi_usage.Prelude.{
  ℕ, Bool, not, ◌||◌, Text, text_eq, codes, is_blank, List, [], ◌∷◌, Option, none, some, ℤ,
  if◌then◌else◌,
}

-- The package compress/gzip: a failure to read is `none`.
pub record Gzip : Type 0 where
  pub compress : Text → List ℕ
  pub decompress : List ℕ → Option Text

-- A row of audit_entries; a body_gzip that is NULL is an empty list.
pub record EntryRow : Type 0 where
  pub id : ℕ
  pub source_id : Text
  pub source_path : Text
  pub source_line : ℕ
  pub byte_offset : ℕ
  pub created_at : ℤ
  pub ingested_at : ℕ
  pub method : Text
  pub path : Text
  pub model : Text
  pub token_id : ℕ
  pub key_tail : Text
  pub key_hash : Text
  pub user_agent : Text
  pub client_name : Text
  pub client_version : Text
  pub client_variant : Text
  pub request_id : Text
  pub has_timestamp : Bool
  pub body : Text
  pub body_gzip : List ℕ
  pub body_encoding : Text

-- A row of log_audit_matches.
pub record MatchRow : Type 0 where
  pub log_id : ℕ
  pub audit_entry_id : ℕ
  pub matched_by : Text
  pub matched_note : Text
  pub matched_at : ℕ

-- The struct Entry, as the lookups fill it: the columns, the decoded body, and how it was matched.
pub record AuditEntry : Type 0 where
  pub row : EntryRow
  pub body : Text
  pub matched_by : Text
  pub matched_note : Text

abbrev pub body_encoding_gzip : Text
body_encoding_gzip = codes "gzip"

-- The two columns that encodeBody makes.
unfoldable pub encode_body : Gzip → Text → List ℕ × Text
encode_body g body = if is_blank body then ([], []) else (g.compress body, body_encoding_gzip)

unfoldable pub decode_body : Gzip → Text → List ℕ → Text → Option Text
unfolding text_eq
decode_body g raw encoded encoding =
    if not (text_eq encoding body_encoding_gzip) || is_blank encoded
    then some raw
    else g.decompress encoded

unfoldable pub with_body :
    EntryRow → Option Text → Option (List AuditEntry) → Option (List AuditEntry)
with_body row none rest = none
with_body row (some body) none = none
with_body row (some body) (some items) =
    some (record { row = row; body = body; matched_by = []; matched_note = [] } ∷ items)

-- scanEntries: a body that does not decode fails the whole scan.
unfoldable pub scan_entries : Gzip → List EntryRow → Option (List AuditEntry)
unfolding with_body decode_body
scan_entries g [] = some []
scan_entries g (row ∷ rows) =
    with_body row (decode_body g row.body row.body_gzip row.body_encoding) (scan_entries g rows)
