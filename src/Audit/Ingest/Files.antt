-- ===== src/Audit/Ingest/Files.antt =====
-- stateForPath, touchState, ingestPath and the loop of ScanOnce of internal/audit/index.go.
use newapi_usage.Prelude.{
  ℕ, zero, suc, ◌+◌, ◌-◌, Bool, true, false, not, Text, codes, text_eq, is_blank, decimal, List, [],
  ◌∷◌, ◌++◌, length, drop, Option, none, some, ltb, leb, ◌==◌, if◌then◌else◌, update_where,
  find_where,
}
use newapi_usage.Audit.Ingest.Tables.{ParsedRecord, FileRow, Rows, Tables}
use newapi_usage.Audit.Ingest.Insert.{Outside, Cache, Place, insert_record}

-- How a line is read: strings.TrimSpace, and parseLine in the configured time zone, which is `none`
-- for an error.
pub record LineFormat : Type 0 where
  pub trim : List ℕ → List ℕ
  pub parse_line : List ℕ → Option ParsedRecord

-- fileScanResult; `failed` is the error that ingestPath returns.
pub record FileScanResult : Type 0 where
  pub scanned_files : ℕ
  pub unchanged_files : ℕ
  pub processed_lines : ℕ
  pub inserted_entries : ℕ
  pub blank_lines : ℕ
  pub invalid_lines : ℕ
  pub unfinished_lines : ℕ
  pub bytes_read : ℕ
  pub failed : Bool

abbrev pub no_result : FileScanResult
no_result = record {
  scanned_files = 0;
  unchanged_files = 0;
  processed_lines = 0;
  inserted_entries = 0;
  blank_lines = 0;
  invalid_lines = 0;
  unfinished_lines = 0;
  bytes_read = 0;
  failed = false;
}

-- The variables of the loop of ingestPath.
pub record Progress : Type 0 where
  pub offset : ℕ
  pub line_no : ℕ
  pub rows : Rows
  pub cache : Cache
  pub result : FileScanResult

-- reader.ReadString('\n'): the line with its end, what follows, and whether the end was found.
pub record Read : Type 0 where
  pub line : List ℕ
  pub rest : List ℕ
  pub ended : Bool

unfoldable pub read_string : List ℕ → Read
read_string [] = record { line = []; rest = []; ended = false }
read_string (c ∷ s) =
    let next = read_string s in
    if c == 10
    then record { line = c ∷ []; rest = s; ended = true }
    else record next { line = c ∷ next.line }

module _ (o : Outside) (fmt : LineFormat) (now : ℕ) where
  -- The counters that every line that ends moves.
  abbrev pub advance : List ℕ → Progress → Progress
  advance line p = record p {
    offset = p.offset + length line;
    line_no = suc p.line_no;
    result = record p.result {
      processed_lines = suc p.result.processed_lines;
      bytes_read = p.result.bytes_read + length line;
    };
  }

  unfoldable pub ingest_record : Text → Text → List ℕ → Option ParsedRecord → Progress → Progress
  unfolding insert_record
  ingest_record source_id path line none p =
      let q = advance line p in
      record q { result = record q.result { invalid_lines = suc q.result.invalid_lines } }
  ingest_record source_id path line (some r) p =
      let q = advance line p in
      let place : Place = record {
        source_id = source_id;
        source_path = path;
        source_line = q.line_no;
        byte_offset = p.offset;
      } in
      let done = insert_record o now place r p.cache p.rows in
      record q {
        rows = done.0.0;
        cache = done.1;
        result = record q.result {
          inserted_entries =
              if done.0.1 then suc q.result.inserted_entries else q.result.inserted_entries;
        };
      }

  unfoldable pub ingest_line : Text → Text → List ℕ → Progress → Progress
  unfolding ingest_record
  ingest_line source_id path line p =
      let trimmed = fmt.trim line in
      if is_blank trimmed
      then (let q = advance line p in
          record q { result = record q.result { blank_lines = suc q.result.blank_lines } })
      else ingest_record source_id path line (fmt.parse_line trimmed) p

  abbrev unfinished : Progress → Progress
  unfinished p = record p {
    result = record p.result { unfinished_lines = suc p.result.unfinished_lines };
  }

  -- The loop, over the lines that it may still process. A line that ends was read without an error, so
  -- that the tests for io.EOF after it never hold.
  unfoldable pub ingest_lines : Text → Text → ℕ → List ℕ → Progress → Progress
  unfolding ingest_line read_string
  ingest_lines source_id path zero content p = p
  ingest_lines source_id path (suc n) content p =
      let next = read_string content in
      let after =
        ingest_lines source_id path n next.rest (ingest_line source_id path next.line p) in
      if is_blank next.line then p else if next.ended then after else unfinished p

-- os.Stat and what a read of the file yields; the content may have grown since its size was taken.
pub data Stat : Type 0 where
  stat_error : Stat
  directory : Stat
  file : Text → ℕ → List ℕ → Stat

abbrev pub has_path : Text → FileRow → Bool
has_path path f = text_eq f.path path

abbrev pub has_file_id : ℕ → FileRow → Bool
has_file_id id f = f.id == id

abbrev pub restarted : ℕ → Text → ℕ → ℕ → FileRow → FileRow
restarted now identity generation size f = record f {
  file_id = identity;
  generation = generation;
  size = size;
  offset = 0;
  line_no = 0;
}

-- The state of a file that is known: another file under the path, a file cut short, or the same.
unfoldable pub refreshed : Text → ℕ → ℕ → FileRow → FileRow
unfolding text_eq
refreshed identity size now f =
    if not (text_eq f.file_id identity)
    then restarted now identity 1 size f
    else if ltb size f.offset
    then restarted now f.file_id (suc f.generation) size f
    else f

abbrev pub seen_at : ℕ → FileRow → FileRow
seen_at now f = record f { last_seen_at = now; updated_at = now }

unfoldable pub known_state : ℕ → Text → Text → ℕ → Tables → Option FileRow → FileRow × Tables
unfolding refreshed update_where
known_state now path identity size t none =
    let fresh : FileRow = record {
      id = t.next_file_id;
      path = path;
      file_id = identity;
      generation = 1;
      size = size;
      offset = 0;
      line_no = 0;
      last_seen_at = now;
      updated_at = now;
    } in
    (fresh, record t { files = t.files ++ fresh ∷ []; next_file_id = suc t.next_file_id })
known_state now path identity size t (some f) =
    let state = refreshed identity size now f in
    (state, record t { files = update_where (has_file_id f.id) (λ _. seen_at now state) t.files })

unfoldable pub state_for_path : ℕ → Text → Text → ℕ → Tables → FileRow × Tables
unfolding known_state find_where text_eq
state_for_path now path identity size t =
    known_state now path identity size t (find_where (has_path path) t.files)

unfoldable pub touch_state : ℕ → FileRow → ℕ → Tables → Tables
unfolding update_where
touch_state now state size t = record t {
  files = update_where (has_file_id state.id) (λ f. record (seen_at now f) { size = size }) t.files;
}

-- fmt.Sprintf("%s:%d", state.FileID, state.Generation)
unfoldable pub source_id_of : FileRow → Text
unfolding decimal
source_id_of f = f.file_id ++ (codes ":" ++ decimal f.generation)

-- The UPDATE of audit_files that ends the transaction.
abbrev pub scanned_row : ℕ → ℕ → Progress → FileRow → FileRow
scanned_row now size p f = record (seen_at now f) {
  size = size;
  offset = p.offset;
  line_no = p.line_no;
}

abbrev pub start_of : FileRow → Rows → Progress
start_of f rows = record {
  offset = f.offset;
  line_no = f.line_no;
  rows = rows;
  cache = [];
  result = record no_result { scanned_files = 1 };
}

module _ (o : Outside) (fmt : LineFormat) (now : ℕ) where
  unfoldable pub ingest_state : Text → ℕ → List ℕ → ℕ → FileRow → Tables → Tables × FileScanResult
  unfolding ingest_lines touch_state source_id_of update_where
  ingest_state path size content max_lines state t =
      if leb size state.offset
      then (
        touch_state now state size t,
        record no_result { scanned_files = 1; unchanged_files = 1 },
      )
      else (let p =
            ingest_lines o fmt now (source_id_of state) path max_lines (drop state.offset content)
              (start_of state t.rows) in
          (
            record t {
              files = update_where (has_file_id state.id) (scanned_row now size p) t.files;
              rows = p.rows;
            },
            p.result,
          ))

  unfoldable pub ingest_path : Text → Stat → ℕ → Tables → Tables × FileScanResult
  unfolding ingest_state state_for_path
  ingest_path path stat_error max_lines t = (t, record no_result { failed = true })
  ingest_path path directory max_lines t = (t, no_result)
  ingest_path path (file identity size content) max_lines t =
      let found = state_for_path now path identity size t in
      ingest_state path size content max_lines found.0 found.1

  -- The loop of ScanOnce over the paths, with the lines that remain, and the results of the files.
  unfoldable pub scan_paths : List (Text × Stat) → ℕ → Tables → Tables × List FileScanResult
  unfolding ingest_path
  scan_paths [] remaining t = (t, [])
  scan_paths ((path, stat) ∷ paths) remaining t =
      let done = ingest_path path stat remaining t in
      let rest = scan_paths paths (remaining - done.1.processed_lines) done.0 in
      if remaining == 0 then (t, []) else (rest.0, done.1 ∷ rest.1)
