-- ===== src/Review/Worker/Content.antt =====
-- The review of an entry's new content in internal/review/worker.go: the first half of processEntry,
-- with cachedResult, storeResult and entryDeltaContent.
use newapi_usage.Prelude.{
  ℕ, suc, Bool, true, false, ◌&&◌, Text, codes, text_eq, is_blank, [], ◌∷◌, ◌++◌, Option, none,
  some, pos, if◌then◌else◌, find_where,
}
use newapi_usage.Review.Types.{RoleMode, pass, review, Decision, zero_decision, Result}
use newapi_usage.Review.Database.{Database}
use newapi_usage.Review.Planner.{Runtime, delta_content}
use newapi_usage.Review.Worker.Calls.{
  TokenUsage, CallSettings, Fetched, fetched, unreadable, Outside, Reviewed, decided, gave_up,
  call_review_with_retry,
}
use newapi_usage.Review.Worker.Selection.{WorkEntry}

unfoldable pub cached_result : Database → Text → Text → Option Result
cached_result db hash config =
    find_where (λ r. text_eq r.content_hash hash && text_eq r.config_hash config) db.results

-- INSERT OR IGNORE under UNIQUE(content_hash, config_hash), and the id of the row that is there.
unfoldable pub store_result : Database → ℕ → Text → Text → Decision → TokenUsage → Database × ℕ
unfolding cached_result
store_result db now hash config decision usage = elim (cached_result db hash config) [
  | some r ↦ (db, r.id)
  | none ↦
      let row : Result = record {
        id = db.next_result_id;
        content_hash = hash;
        config_hash = config;
        decision = decision;
        prompt_tokens = usage.prompt;
        completion_tokens = usage.completion;
        created_at = now;
      } in
      (
        record db { results = db.results ++ row ∷ []; next_result_id = suc db.next_result_id },
        db.next_result_id,
      )
]

-- The variables of processEntry after the review of the new content.
pub record Outcome : Type 0 where
  pub delta : Decision
  pub result_id : ℕ
  pub cache_hit : Bool
  pub called : Bool
  pub usage : TokenUsage
  pub item_err : Text
  pub database : Database
  pub settings : CallSettings

abbrev no_usage : TokenUsage
no_usage = record { prompt = 0; completion = 0 }

abbrev passed : Decision
passed = record zero_decision { decision = pass }

abbrev pub failed_decision : Decision
failed_decision = record {
  decision = review;
  risk_score = pos 50;
  categories = codes "其他风险" ∷ [];
  reason = codes "审查失败，需要人工确认";
  confidence = pos 0;
}

abbrev pub start_outcome : Database → CallSettings → Outcome
start_outcome db s = record {
  delta = passed;
  result_id = 0;
  cache_hit = false;
  called = false;
  usage = no_usage;
  item_err = [];
  database = db;
  settings = s;
}

unfoldable pub after_call : Database → ℕ → CallSettings → Text → Text → Reviewed → Outcome
unfolding store_result
after_call db now s hash config (gave_up e) = record (start_outcome db s) {
  delta = zero_decision;
  item_err = e.message;
}
after_call db now s hash config (decided a s') =
    let (db', id) = store_result db now hash config a.decision a.usage in
    record (start_outcome db' s') {
      delta = a.decision;
      result_id = id;
      called = true;
      usage = a.usage;
    }

module _ (rt : Runtime) (out : Outside) where
  -- The branch of processEntry for an entry that has new content and no cached result.
  unfoldable pub review_content :
      Database → ℕ → RoleMode → WorkEntry → CallSettings → Text → Fetched → Outcome
  unfolding call_review_with_retry after_call delta_content
  review_content db now mode entry s config (unreadable message) = record (start_outcome db s) {
    item_err = message;
  }
  review_content db now mode entry s config (fetched messages) =
      let content = (delta_content rt messages entry.delta_start mode).0 in
      if text_eq (Runtime.sha256_hex rt content) entry.content_hash
      then after_call db now s entry.content_hash config
          (call_review_with_retry out entry.id s content)
      else record (start_outcome db s) { item_err = codes "request content changed during review" }

  unfoldable pub review_entry : Database → ℕ → RoleMode → WorkEntry → CallSettings → Text → Outcome
  unfolding review_content cached_result
  review_entry db now mode entry s config =
      if is_blank entry.content_hash
      then start_outcome db s
      else elim (cached_result db entry.content_hash config) [
        | some r ↦ record (start_outcome db s) {
          delta = r.decision;
          result_id = r.id;
          cache_hit = true;
        }
        | none ↦ review_content db now mode entry s config (Outside.body out entry.audit_entry_id)
      ]
