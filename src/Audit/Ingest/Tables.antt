-- ===== src/Audit/Ingest/Tables.antt =====
-- The tables audit_files, audit_entries, audit_security_alerts and audit_cleanup_entries as the scan
-- writes them, and what parseLine yields (internal/audit/types.go). The time of a record is a natural
-- number: times before 1970, which the int64 of the source could hold, are left out.
use newapi_usage.Prelude.{ℕ, Bool, Text, List, ℤ}
use newapi_usage.Audit.Entries.{EntryRow}
use newapi_usage.Audit.Cleanup.{CatalogRow}

pub record ParsedSecurityAlert : Type 0 where
  pub response_at : ℤ
  pub response_status : ℤ
  pub response_content_type : Text
  pub response_body : Text
  pub response_total_bytes : ℤ
  pub response_truncated : Bool
  pub alert_type : Text
  pub matched_text : Text

pub record ParsedRecord : Type 0 where
  pub record_type : Text
  pub created_at : ℕ
  pub method : Text
  pub path : Text
  pub model : Text
  pub request_id : Text
  pub has_timestamp : Bool
  pub api_key : Text
  pub user_agent : Text
  pub client_name : Text
  pub client_version : Text
  pub client_variant : Text
  pub body : Text
  pub security_alert : ParsedSecurityAlert

pub record ResolvedToken : Type 0 where
  pub token_id : ℕ
  pub name : Text
  pub key_tail : Text

-- A row of audit_security_alerts.
pub record AlertRow : Type 0 where
  pub id : ℕ
  pub source_id : Text
  pub source_path : Text
  pub source_line : ℕ
  pub byte_offset : ℕ
  pub request_id : Text
  pub request_at : ℕ
  pub ingested_at : ℕ
  pub method : Text
  pub path : Text
  pub model : Text
  pub token_id : ℕ
  pub key_tail : Text
  pub key_hash : Text
  pub response : ParsedSecurityAlert

-- A row of audit_files.
pub record FileRow : Type 0 where
  pub id : ℕ
  pub path : Text
  pub file_id : Text
  pub generation : ℕ
  pub size : ℕ
  pub offset : ℕ
  pub line_no : ℕ
  pub last_seen_at : ℕ
  pub updated_at : ℕ

-- The rows that lines become, and the next ids of the two AUTOINCREMENT columns.
pub record Rows : Type 0 where
  pub entries : List EntryRow
  pub catalog : List CatalogRow
  pub alerts : List AlertRow
  pub next_entry_id : ℕ
  pub next_alert_id : ℕ

pub record Tables : Type 0 where
  pub files : List FileRow
  pub next_file_id : ℕ
  pub rows : Rows
