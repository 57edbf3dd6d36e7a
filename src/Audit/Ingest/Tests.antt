-- ===== src/Audit/Ingest/Tests.antt =====
-- The theorems about the scan on a file of three lines, the last of which has not ended.
use newapi_usage.Prelude.{
  Text, ℕ, ◌+◌, true, false, codes, List, [], ◌∷◌, ◌++◌, take, drop, some, pos, All, ◌≡◌, refl,
}
use newapi_usage.Audit.Ingest.Tables.{ParsedRecord, ParsedSecurityAlert, Rows, Tables}
use newapi_usage.Audit.Ingest.Insert.{Outside, insert_entry}
use newapi_usage.Audit.Ingest.Files.{
  LineFormat, Progress, no_result, ingest_lines, ingest_path, file, Stat,
}
use newapi_usage.Audit.Ingest.Lines.{complete_lines, Saved, saved}
use newapi_usage.Audit.Ingest.Keys.{Consistent-nil}
use newapi_usage.Audit.Ingest.Resume.{ingest_lines-resume}
use newapi_usage.Audit.Ingest.Unique.{Scanned, lines_entries}
use newapi_usage.Audit.Ingest.Places.{TakenFrom, ingest_lines-entries}

abbrev no_alert : ParsedSecurityAlert
no_alert = record {
  response_at = pos 0;
  response_status = pos 0;
  response_content_type = [];
  response_body = [];
  response_total_bytes = pos 0;
  response_truncated = false;
  alert_type = [];
  matched_text = [];
}

-- A line is a record whose key and body are the line without its end.
abbrev without_end : List ℕ → List ℕ
without_end [] = []
without_end (c ∷ []) = []
without_end (c ∷ d ∷ s) = c ∷ without_end (d ∷ s)

abbrev parsed : List ℕ → ParsedRecord
parsed line = record {
  record_type = [];
  created_at = 5;
  method = codes "POST";
  path = codes "/v1";
  model = codes "gpt";
  request_id = [];
  has_timestamp = true;
  api_key = line;
  user_agent = [];
  client_name = [];
  client_version = [];
  client_variant = [];
  body = line;
  security_alert = no_alert;
}

abbrev format : LineFormat
format = record { trim = without_end; parse_line = λ line. some (parsed line) }

abbrev outside : Outside
outside = record {
  key_hash = λ key. key;
  gzip = record { compress = λ b. b; decompress = λ b. some b };
  resolver = some (λ key. some (record { token_id = 7; name = []; key_tail = [] }));
}

abbrev content : List ℕ
content = codes "ab\nab\n\nabc"

abbrev no_rows : Rows
no_rows = record { entries = []; catalog = []; alerts = []; next_entry_id = 1; next_alert_id = 1 }

abbrev start : Progress
start = record { offset = 0; line_no = 0; rows = no_rows; cache = []; result = no_result }

-- Three lines have ended, after seven bytes; two of them are entries.
scanned_lines :
    (ingest_lines outside format 100 (codes "1:1") (codes "a") 9 content start).line_no ≡ 3
unfolding ingest_lines
scanned_lines = refl

scanned_bytes :
    (ingest_lines outside format 100 (codes "1:1") (codes "a") 9 content start).offset ≡ 7
unfolding ingest_lines
scanned_bytes = refl

abbrev stopped : Saved
stopped = saved (ingest_lines outside format 100 (codes "1:1") (codes "a") 1 content start)

abbrev go_on : Progress
go_on = record {
  offset = stopped.offset;
  line_no = stopped.line_no;
  rows = stopped.rows;
  cache = [];
  result = no_result;
}

ingest_lines-resume_example :
    saved (
      ingest_lines outside format 100 (codes "1:1") (codes "a") 2 (drop go_on.offset content) go_on)
    ≡ saved (ingest_lines outside format 100 (codes "1:1") (codes "a") (1 + 2) content start)
ingest_lines-resume_example =
    ingest_lines-resume outside format 100 (codes "1:1") (codes "a") 1 2 content start go_on
      (λ a b _ _ same. same) (Consistent-nil outside _) refl refl

ingest_lines-entries_example :
    let t = ingest_lines outside format 100 (codes "1:1") (codes "a") 3 content start in
    let lines = take 3 (complete_lines content) in
    let added = lines_entries outside format 100 (codes "1:1") (codes "a") lines (saved start) in
    (t.rows.entries ≡ [] ++ added)
    × All (TakenFrom outside format 100 (codes "1:1") (codes "a") lines (saved start)) added
    × All (Scanned outside format 100 (codes "1:1") (codes "a") t.line_no) t.rows.entries
ingest_lines-entries_example =
    ingest_lines-entries outside format 100 (codes "1:1") (codes "a") 3 content start
      (λ a b _ _ same. same) (Consistent-nil outside _) tt

abbrev empty_tables : Tables
empty_tables = record { files = []; next_file_id = 1; rows = no_rows }

-- A file under another path that has the device and inode of an earlier one: its lines stand where
-- lines stood already, and none becomes an entry.
reused_identity :
    let first =
      ingest_path outside format 100
        (codes "a")
        (file (codes "1:5") 6 (codes "ab\ncd\n"))
        9
        empty_tables in
    let second =
      ingest_path outside format 200
        (codes "b")
        (file (codes "1:5") 6 (codes "ef\ngh\n"))
        9
        first.0 in
    (first.1.inserted_entries ≡ 2)
    × (second.1.processed_lines ≡ 2)
    × (second.1.inserted_entries ≡ 0)
    × (second.0.rows ≡ first.0.rows)
unfolding ingest_path insert_entry
reused_identity = (refl, refl, refl, refl)

abbrev two_files : List (Text × Stat)
two_files =
    (codes "a", file (codes "1:5") 6 (codes "ab\ncd\n"))
    ∷ (codes "b", file (codes "1:6") 6 (codes "ef\ngh\n"))
    ∷ []
