-- ===== src/Review/Types.antt =====
-- internal/review/types.go and the tables of internal/review/schema.go: the values and rows of the
-- review jobs. Times, ids and counters are natural numbers, as the program writes no negative ones;
-- what a request may give with any sign is an integer.
use newapi_usage.Prelude.{ℕ, ◌^◌, Bool, true, false, Text, List, [], ℤ, pos}

-- The status of a job, a closed set: the program writes no other.
pub data Status : Type 0 where
  queued claimed planning running paused completed canceled failed : Status

pub data RoleMode : Type 0 where
  user user_tool all : RoleMode

-- A decision is a string; `other` is any but the three.
pub data Verdict : Type 0 where
  pass review block : Verdict
  other : Text → Verdict

-- The status of a job's entry.
pub data EntryStatus : Type 0 where
  pending done error : EntryStatus

-- A finite float64 as the integer number of its smallest steps, 2 ^ -1074, which is exact.
abbrev pub Float : Type 0
Float = ℤ

unfoldable pub float_one : Float
float_one = pos (2 ^ 1074)

pub record Decision : Type 0 where
  pub decision : Verdict
  pub risk_score : ℤ
  pub categories : List Text
  pub reason : Text
  pub confidence : Float

-- `Decision{}`
abbrev pub zero_decision : Decision
zero_decision = record {
  decision = other [];
  risk_score = pos 0;
  categories = [];
  reason = [];
  confidence = pos 0;
}

-- A row of review_jobs.
pub record Job : Type 0 where
  pub id : ℕ
  pub token_ids : List ℕ
  pub models : List Text
  pub start : ℕ
  pub end : ℕ
  pub role_mode : RoleMode
  pub review_model : Text
  pub reasoning_effort : Text
  pub concurrency : ℤ
  pub config_hash : Text
  pub status : Status
  pub max_entry_id : ℕ
  pub total_entries : ℕ
  pub processed_entries : ℕ
  pub review_units : ℕ
  pub reviewed_units : ℕ
  pub cache_hits : ℕ
  pub flagged_entries : ℕ
  pub error_entries : ℕ
  pub estimated_chars : ℕ
  pub prompt_tokens : ℕ
  pub completion_tokens : ℕ
  pub error_text : Text
  pub created_at : ℕ
  pub started_at : ℕ
  pub completed_at : ℕ
  pub updated_at : ℕ

-- A row of review_job_entries.
pub record Entry : Type 0 where
  pub id : ℕ
  pub job_id : ℕ
  pub audit_entry_id : ℕ
  pub token_id : ℕ
  pub created_at : ℕ
  pub request_model : Text
  pub parent_audit_entry_id : ℕ
  pub delta_start_index : ℕ
  pub delta_message_count : ℕ
  pub content_hash : Text
  pub content_chars : ℕ
  pub result_id : ℕ
  pub delta_decision : Verdict
  pub delta_risk_score : ℤ
  pub effective_result_id : ℕ
  pub effective_decision : Verdict
  pub effective_risk_score : ℤ
  pub inherited : Bool
  pub cache_hit : Bool
  pub prompt_tokens : ℕ
  pub completion_tokens : ℕ
  pub status : EntryStatus
  pub error_text : Text
  pub updated_at : ℕ

-- A row of review_results.
pub record Result : Type 0 where
  pub id : ℕ
  pub content_hash : Text
  pub config_hash : Text
  pub decision : Decision
  pub prompt_tokens : ℕ
  pub completion_tokens : ℕ
  pub created_at : ℕ

abbrev pub is_queued : Status → Bool
is_queued queued = true
is_queued _ = false

abbrev pub is_running : Status → Bool
is_running running = true
is_running _ = false

abbrev pub is_pending : EntryStatus → Bool
is_pending pending = true
is_pending _ = false

-- status IN ('done', 'error')
abbrev pub is_settled : EntryStatus → Bool
is_settled pending = false
is_settled _ = true

abbrev pub is_error : EntryStatus → Bool
is_error error = true
is_error _ = false

-- decision <> '通过'
abbrev pub is_flagged : Verdict → Bool
is_flagged pass = false
is_flagged _ = true
