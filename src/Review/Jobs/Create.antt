-- ===== src/Review/Jobs/Create.antt =====
-- The creation of a job: CreateJob of internal/review/jobs.go, from its checks to the inserted row.
use newapi_usage.Prelude.{
  ℕ, suc, Bool, ◌&&◌, ◌||◌, Text, List, [], ◌∷◌, ◌++◌, Option, none, some, ℤ, pos, pos_part, leb_ℤ,
  ltb_ℤ, ltb, leb, ◌==◌, if◌then◌else◌, length, select_where, count_where,
}
use newapi_usage.Review.Types.{queued, RoleMode, Job}
use newapi_usage.Review.Database.{Database, AuditRow}
use newapi_usage.Audit.Types.{CleanupJob, is_active_cleanup}
use newapi_usage.Review.Jobs.Input.{
  normalize_token_ids, normalize_models, normalize_role_mode, contains_id, contains_text,
}

pub record JobInput : Type 0 where
  pub token_ids : List ℤ
  pub models : List Text
  pub start : ℤ
  pub end : ℤ
  pub role_mode : Text

-- What CreateJob takes from the stored settings.
pub record JobSettings : Type 0 where
  pub model : Text
  pub reasoning_effort : Text
  pub concurrency : ℤ
  pub config_hash : Text

pub data CreateError : Type 0 where
  cleanup_active not_configured no_keys too_many_keys no_models too_many_models bad_range :
      CreateError

pub data Created : Type 0 where
  created : Job → Created
  refused : CreateError → Created

abbrev pub active_cleanups : Database → ℕ
active_cleanups db = elim db.cleanup_jobs [
  | none ↦ 0
  | some cleanups ↦ count_where (λ (c : CleanupJob). is_active_cleanup c.status) cleanups
]

unfoldable pub matches : List ℕ → List Text → ℕ → ℕ → AuditRow → Bool
matches tokens models start end r =
    contains_id tokens r.token_id
    && leb start r.created_at
    && leb r.created_at end
    && contains_text models r.model

-- COALESCE(MAX(id), 0)
unfoldable pub max_id : List AuditRow → ℕ
max_id [] = 0
max_id (r ∷ rs) = let rest = max_id rs in if ltb rest r.id then r.id else rest

abbrev pub new_job :
    Database → ℕ → JobSettings → List ℕ → List Text → ℕ → ℕ → RoleMode → List AuditRow → Job
new_job db now settings tokens models start end mode rows = record {
  id = db.next_job_id;
  token_ids = tokens;
  models = models;
  start = start;
  end = end;
  role_mode = mode;
  review_model = settings.model;
  reasoning_effort = settings.reasoning_effort;
  concurrency = settings.concurrency;
  config_hash = settings.config_hash;
  status = queued;
  max_entry_id = max_id rows;
  total_entries = length rows;
  processed_entries = 0;
  review_units = 0;
  reviewed_units = 0;
  cache_hits = 0;
  flagged_entries = 0;
  error_entries = 0;
  estimated_chars = 0;
  prompt_tokens = 0;
  completion_tokens = 0;
  error_text = [];
  created_at = now;
  started_at = 0;
  completed_at = 0;
  updated_at = now;
}

-- The checks of CreateJob on the normalized input.
unfoldable pub check_input : List ℕ → List Text → JobInput → Option CreateError
check_input tokens models input =
    if length tokens == 0
    then some no_keys
    else if ltb 500 (length tokens)
    then some too_many_keys
    else if length models == 0
    then some no_models
    else if ltb 500 (length models)
    then some too_many_models
    else if leb_ℤ input.start (pos 0) || leb_ℤ input.end (pos 0) || ltb_ℤ input.end input.start
    then some bad_range
    else none

-- The query, on the audited requests that it sees, and the insertion of CreateJob.
unfoldable pub admit_job :
    List AuditRow → Database → ℕ → JobSettings → List ℕ → List Text → JobInput → Database × Created
unfolding normalize_role_mode matches max_id
admit_job audited db now settings tokens models input =
    let start = pos_part input.start in
    let end = pos_part input.end in
    let rows = select_where (matches tokens models start end) audited in
    let mode = normalize_role_mode input.role_mode in
    let j = new_job db now settings tokens models start end mode rows in
    (record db { jobs = db.jobs ++ j ∷ []; next_job_id = suc db.next_job_id }, created j)

-- CreateJob from the settings on.
unfoldable pub insert_job :
    List AuditRow → Database → ℕ → JobSettings → JobInput → Database × Created
unfolding normalize_token_ids normalize_models check_input admit_job
insert_job audited db now settings input =
    let tokens = normalize_token_ids input.token_ids in
    let models = normalize_models input.models in
    elim (check_input tokens models input) [
      | some e ↦ (db, refused e)
      | none ↦ admit_job audited db now settings tokens models input
    ]

-- CreateJob is not a transaction: it counts the active cleanups in the tables `checked`, reads the
-- settings, queries the audited requests in `queried` and inserts into `db`, and what other calls do
-- in between stands in the differences. `settings` is what loadSettings returns, `none` where nothing
-- is configured.
unfoldable pub create_job_between :
    Database → Database → Database → ℕ → Option JobSettings → JobInput → Database × Created
unfolding insert_job
create_job_between checked queried db now settings input =
    if ltb 0 (active_cleanups checked) then (db, refused cleanup_active) else elim settings [
      | none ↦ (db, refused not_configured)
      | some s ↦ insert_job queried.audit_entries db now s input
    ]

-- A call that no other one interleaves with.
unfoldable pub create_job : Database → ℕ → Option JobSettings → JobInput → Database × Created
unfolding create_job_between
create_job db = create_job_between db db db
