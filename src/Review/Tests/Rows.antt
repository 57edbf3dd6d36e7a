-- ===== src/Review/Tests/Rows.antt =====
-- Concrete rows and tables for the examples.
use newapi_usage.Prelude.{
  ℕ, List, [], ◌∷◌, none, pos, codes, false, Text, ◌++◌, ◌≡◌, take, length, replicate, length-take,
  length-append, arith, refl,
}
use newapi_usage.Audit.Types.{CleanupStatus, CleanupJob}
use newapi_usage.Review.Types.{Status, user, Job, Entry, EntryStatus, pass}
use newapi_usage.Review.Planner.{Runtime}
use newapi_usage.Review.Database.{Database}

abbrev pub job_row : ℕ → Status → Job
job_row id s = record {
  id = id;
  token_ids = 7 ∷ [];
  models = codes "gpt" ∷ [];
  start = 1;
  end = 9;
  role_mode = user;
  review_model = codes "judge";
  reasoning_effort = codes "low";
  concurrency = pos 5;
  config_hash = codes "cfg";
  status = s;
  max_entry_id = 2;
  total_entries = 2;
  processed_entries = 0;
  review_units = 0;
  reviewed_units = 0;
  cache_hits = 0;
  flagged_entries = 0;
  error_entries = 0;
  estimated_chars = 0;
  prompt_tokens = 0;
  completion_tokens = 0;
  error_text = [];
  created_at = 1;
  started_at = 0;
  completed_at = 0;
  updated_at = 1;
}

-- An entry of job 1 without new content.
abbrev pub entry_row : ℕ → ℕ → EntryStatus → Entry
entry_row id parent s = record {
  id = id;
  job_id = 1;
  audit_entry_id = id;
  token_id = 7;
  created_at = id;
  request_model = codes "gpt";
  parent_audit_entry_id = parent;
  delta_start_index = 0;
  delta_message_count = 0;
  content_hash = [];
  content_chars = 0;
  result_id = 0;
  delta_decision = pass;
  delta_risk_score = pos 0;
  effective_result_id = 0;
  effective_decision = pass;
  effective_risk_score = pos 0;
  inherited = false;
  cache_hit = false;
  prompt_tokens = 0;
  completion_tokens = 0;
  status = s;
  error_text = [];
  updated_at = 1;
}

abbrev pub tables : List Job → List Entry → Database
tables js es = record {
  jobs = js;
  entries = es;
  results = [];
  audit_entries = [];
  cleanup_jobs = none;
  next_job_id = 10;
  next_entry_id = 10;
  next_result_id = 1;
}

-- A stand-in for the hash of 64 characters.
abbrev pub digest : Text → Text
digest t = take 64 (t ++ replicate 64 48)

padded : (t pad : Text) → length pad ≡ 64 → length (take 64 (t ++ pad)) ≡ 64
padded t pad h = omega (arith, length-take 64 (t ++ pad), length-append t pad, h)

pub digest-length : (t : Text) → length (digest t) ≡ 64
digest-length t = padded t (replicate 64 48) refl

abbrev pub runtime : Runtime
runtime = record { to_lower = λ t. t; sha256_hex = digest; sha256_hex-length = digest-length }

abbrev pub cleanup_row : ℕ → CleanupStatus → CleanupJob
cleanup_row id s = record {
  id = id;
  start_at = 1;
  end_at = 5;
  status = s;
  estimated_entries = 0;
  estimated_alerts = 0;
  estimated_matches = 0;
  estimated_review_rows = 0;
  estimated_bytes = 0;
  deleted_entries = 0;
  deleted_alerts = 0;
  deleted_matches = 0;
  deleted_review_rows = 0;
  deleted_bytes = 0;
  cancel_requested = false;
  error_text = [];
  created_at = 1;
  started_at = 0;
  completed_at = 0;
  updated_at = 1;
}
