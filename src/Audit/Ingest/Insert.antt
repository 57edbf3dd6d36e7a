-- ===== src/Audit/Ingest/Insert.antt =====
-- resolveRecordToken, insertEntry and insertSecurityAlert of internal/audit/index.go and
-- internal/audit/security_alert.go. Keys are taken to be ASCII.
use newapi_usage.Prelude.{
  ℕ, suc, ◌-◌, Bool, true, false, ◌&&◌, Text, codes, text_eq, is_blank, trim_space, List, [], ◌∷◌,
  ◌++◌, length, drop, Option, none, some, leb, ◌==◌, if◌then◌else◌, pos, exists_where,
}
use newapi_usage.Audit.Entries.{EntryRow, Gzip, encode_body}
use newapi_usage.Audit.Cleanup.{CatalogRow}
use newapi_usage.Audit.Ingest.Tables.{ParsedRecord, ResolvedToken, AlertRow, Rows}

-- What a scan uses of other packages: crypto/sha256 with encoding/hex, compress/gzip, and the resolver
-- of keys that the program passes to Open, which may be nil and may fail.
pub record Outside : Type 0 where
  pub key_hash : Text → Text
  pub gzip : Gzip
  pub resolver : Option (Text → Option ResolvedToken)

-- resolveCache, from the hashes of keys to what they resolved to.
abbrev pub Cache : Type 0
Cache = List (Text × ResolvedToken)

unfoldable pub find_cached : Text → Cache → Option ResolvedToken
unfolding text_eq
find_cached hash [] = none
find_cached hash ((key, token) ∷ cache) =
    let rest = find_cached hash cache in if text_eq key hash then some token else rest

unfoldable pub tail : Text → ℕ → Text
unfolding trim_space
tail value n =
    let trimmed = trim_space value in
    if leb (length trimmed) n then trimmed else drop (length trimmed - n) trimmed

-- The columns token_id, key_tail and key_hash.
pub record KeyColumns : Type 0 where
  pub token_id : ℕ
  pub key_tail : Text
  pub key_hash : Text

abbrev pub resolved_columns : Text → Text → ResolvedToken → KeyColumns
resolved_columns own_tail hash token = record {
  token_id = token.token_id;
  key_tail = if is_blank token.key_tail then own_tail else token.key_tail;
  key_hash = hash;
}

abbrev pub unresolved_columns : Text → Text → KeyColumns
unresolved_columns own_tail hash = record { token_id = 0; key_tail = own_tail; key_hash = hash }

-- The call of the resolver, where the key is not cached.
unfoldable pub call_resolver :
    Option (Text → Option ResolvedToken) → Text → Text → Text → Cache → KeyColumns × Cache
call_resolver none key own_tail hash cache = (unresolved_columns own_tail hash, cache)
call_resolver (some resolver) key own_tail hash cache = elim (resolver key) [
  | none ↦ (unresolved_columns own_tail hash, cache)
  | some token ↦ (resolved_columns own_tail hash token, (hash, token) ∷ cache)
]

unfoldable pub resolve_key :
    Outside → Text → Text → Text → Cache → Option ResolvedToken → KeyColumns × Cache
unfolding call_resolver
resolve_key o key own_tail hash cache (some token) = (resolved_columns own_tail hash token, cache)
resolve_key o key own_tail hash cache none = call_resolver o.resolver key own_tail hash cache

unfoldable pub resolve_record_token : Outside → ParsedRecord → Cache → KeyColumns × Cache
unfolding resolve_key find_cached tail
resolve_record_token o r cache =
    if is_blank r.api_key
    then (unresolved_columns [] [], cache)
    else resolve_key o r.api_key (tail r.api_key 8) (o.key_hash r.api_key) cache
        (find_cached (o.key_hash r.api_key) cache)

-- Where a line stands: the generation of a file, its path, the line and its offset.
pub record Place : Type 0 where
  pub source_id : Text
  pub source_path : Text
  pub source_line : ℕ
  pub byte_offset : ℕ

-- UNIQUE(source_id, source_line) of the two tables.
unfoldable pub at_place : Place → EntryRow → Bool
unfolding text_eq
at_place p e = text_eq e.source_id p.source_id && e.source_line == p.source_line

unfoldable pub alert_at_place : Place → AlertRow → Bool
unfolding text_eq
alert_at_place p a = text_eq a.source_id p.source_id && a.source_line == p.source_line

unfoldable pub new_entry_row : Outside → ℕ → ℕ → Place → ParsedRecord → KeyColumns → EntryRow
unfolding encode_body
new_entry_row o now id p r k =
    let stored = encode_body o.gzip r.body in
    record {
      id = id;
      source_id = p.source_id;
      source_path = p.source_path;
      source_line = p.source_line;
      byte_offset = p.byte_offset;
      created_at = pos r.created_at;
      ingested_at = now;
      method = r.method;
      path = r.path;
      model = r.model;
      token_id = k.token_id;
      key_tail = k.key_tail;
      key_hash = k.key_hash;
      user_agent = r.user_agent;
      client_name = r.client_name;
      client_version = r.client_version;
      client_variant = r.client_variant;
      request_id = r.request_id;
      has_timestamp = r.has_timestamp;
      body = [];
      body_gzip = stored.0;
      body_encoding = stored.1;
    }

unfoldable pub add_to_catalog : ℕ → ℕ → List CatalogRow → List CatalogRow
unfolding exists_where
add_to_catalog id created_at catalog =
    if exists_where (λ (c : CatalogRow). c.audit_entry_id == id) catalog
    then catalog
    else catalog ++ record { audit_entry_id = id; created_at = created_at } ∷ []

-- The two INSERT OR IGNORE of insertEntry, and whether a row was inserted.
unfoldable pub insert_entry : Outside → ℕ → Place → ParsedRecord → KeyColumns → Rows → Rows × Bool
unfolding exists_where at_place new_entry_row add_to_catalog
insert_entry o now p r k rows = if exists_where (at_place p) rows.entries then (rows, false) else (
  record rows {
    entries = rows.entries ++ new_entry_row o now rows.next_entry_id p r k ∷ [];
    catalog = add_to_catalog rows.next_entry_id r.created_at rows.catalog;
    next_entry_id = suc rows.next_entry_id;
  },
  true,
)

unfoldable pub new_alert : ℕ → ℕ → Place → ParsedRecord → KeyColumns → AlertRow
new_alert now id p r k = record {
  id = id;
  source_id = p.source_id;
  source_path = p.source_path;
  source_line = p.source_line;
  byte_offset = p.byte_offset;
  request_id = r.request_id;
  request_at = r.created_at;
  ingested_at = now;
  method = r.method;
  path = r.path;
  model = r.model;
  token_id = k.token_id;
  key_tail = k.key_tail;
  key_hash = k.key_hash;
  response = r.security_alert;
}

unfoldable pub insert_security_alert : ℕ → Place → ParsedRecord → KeyColumns → Rows → Rows × Bool
unfolding exists_where alert_at_place new_alert
insert_security_alert now p r k rows =
    if exists_where (alert_at_place p) rows.alerts then (rows, false) else (
      record rows {
        alerts = rows.alerts ++ new_alert now rows.next_alert_id p r k ∷ [];
        next_alert_id = suc rows.next_alert_id;
      },
      true,
    )

abbrev pub security_alert_record_type : Text
security_alert_record_type = codes "security_alert"

-- A record goes to the table of its type, with the columns of its key.
unfoldable pub insert_record :
    Outside → ℕ → Place → ParsedRecord → Cache → Rows → (Rows × Bool) × Cache
insert_record o now p r cache rows =
    let key = resolve_record_token o r cache in
    if text_eq r.record_type security_alert_record_type
    then (insert_security_alert now p r key.0 rows, key.1)
    else (insert_entry o now p r key.0 rows, key.1)
