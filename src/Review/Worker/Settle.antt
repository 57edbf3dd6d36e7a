-- ===== src/Review/Worker/Settle.antt =====
-- The second half of processEntry in internal/review/worker.go: the decision that an entry inherits
-- and the transaction that settles it.
use newapi_usage.Prelude.{
  ℕ, ◌+◌, Bool, false, not, ◌&&◌, bool_int, Text, is_blank, none, some, ℤ, pos, ◌==◌, if◌then◌else◌,
  update_where, find_where,
}
use newapi_usage.Review.Types.{
  Verdict, pass, other, Decision, Job, Entry, done, error, is_pending, is_settled, is_flagged,
}
use newapi_usage.Review.Database.{Database}
use newapi_usage.Review.Decision.{Combined, combine_decision}
use newapi_usage.Review.Jobs.{has_id}
use newapi_usage.Review.Planner.{Runtime}
use newapi_usage.Review.Worker.Calls.{CallSettings, Outside}
use newapi_usage.Review.Worker.Selection.{WorkEntry}
use newapi_usage.Review.Worker.Content.{Outcome, failed_decision, review_entry}

abbrev is_empty_verdict : Verdict → Bool
is_empty_verdict (other t) = is_blank t
is_empty_verdict _ = false

-- The effective decision of the parent, its score and its result.
pub record Inheritance : Type 0 where
  pub decision : Verdict
  pub score : ℤ
  pub result_id : ℕ

abbrev pub nothing_inherited : Inheritance
nothing_inherited = record { decision = pass; score = pos 0; result_id = 0 }

unfoldable pub parent_effective : Database → ℕ → ℕ → Inheritance
parent_effective db job_id parent =
    if parent == 0
    then nothing_inherited
    else elim (find_where
        (λ (e : Entry). e.job_id == job_id && e.audit_entry_id == parent && is_settled e.status)
        db.entries) [
          | none ↦ nothing_inherited
          | some e ↦ if is_empty_verdict e.effective_decision then nothing_inherited else record {
            decision = e.effective_decision;
            score = e.effective_risk_score;
            result_id = e.effective_result_id;
          }
        ]

-- The columns that the UPDATE of review_job_entries writes.
pub record Settlement : Type 0 where
  pub outcome : Outcome
  pub delta : Decision
  pub effective : Combined
  pub effective_result_id : ℕ
  pub is_error : Bool

unfoldable pub settlement : Inheritance → Outcome → Settlement
unfolding combine_decision
settlement inherited o =
    let is_err = not (is_blank o.item_err) in
    let delta = if is_err then failed_decision else o.delta in
    let c = combine_decision inherited.decision inherited.score delta.decision delta.risk_score in
    record {
      outcome = o;
      delta = delta;
      effective = c;
      effective_result_id = if c.inherited then inherited.result_id else o.result_id;
      is_error = is_err;
    }

unfoldable pub settled_row : ℕ → Settlement → Entry → Entry
settled_row now t e = record e {
  result_id = t.outcome.result_id;
  delta_decision = t.delta.decision;
  delta_risk_score = t.delta.risk_score;
  effective_result_id = t.effective_result_id;
  effective_decision = t.effective.decision;
  effective_risk_score = t.effective.score;
  inherited = t.effective.inherited;
  cache_hit = t.outcome.cache_hit;
  prompt_tokens = t.outcome.usage.prompt;
  completion_tokens = t.outcome.usage.completion;
  status = if t.is_error then error else done;
  error_text = t.outcome.item_err;
  updated_at = now;
}

unfoldable pub counted_job : ℕ → Settlement → Job → Job
counted_job now t j = record j {
  processed_entries = j.processed_entries + 1;
  reviewed_units = j.reviewed_units + bool_int t.outcome.called;
  cache_hits = j.cache_hits + bool_int t.outcome.cache_hit;
  flagged_entries = j.flagged_entries + bool_int (is_flagged t.effective.decision);
  error_entries = j.error_entries + bool_int t.is_error;
  prompt_tokens = j.prompt_tokens + t.outcome.usage.prompt;
  completion_tokens = j.completion_tokens + t.outcome.usage.completion;
  updated_at = now;
}

abbrev pub is_target : ℕ → Entry → Bool
is_target id e = e.id == id && is_pending e.status

-- The transaction of processEntry. The second statement does not ask whether the first one
-- changed a row.
unfoldable pub settle : Database → ℕ → ℕ → ℕ → Settlement → Database
unfolding settled_row counted_job
settle db now job_id entry_id t = record db {
  entries = update_where (is_target entry_id) (settled_row now t) db.entries;
  jobs = update_where (has_id job_id) (counted_job now t) db.jobs;
}

module _ (rt : Runtime) (out : Outside) where
  unfoldable pub process_entry :
      Database → ℕ → Job → WorkEntry → CallSettings → Text → Database × CallSettings
  unfolding parent_effective review_entry settlement settle
  process_entry db now j entry s config =
      let inherited = parent_effective db j.id entry.parent_entry_id in
      let o = review_entry rt out db now j.role_mode entry s config in
      (settle o.database now j.id entry.id (settlement inherited o), o.settings)
