-- ===== src/Review/Worker/Calls.antt =====
-- The calls of the review endpoint in internal/review/worker.go: callReviewWithRetry. What audited
-- bodies decode to and what the endpoint answers come from outside, as functions; the waits between
-- attempts, the cancellation of a context and the copy of the learnt response mode into
-- review_settings are not modelled.
use newapi_usage.Prelude.{
  ℕ, zero, suc, Bool, true, false, not, ◌&&◌, ◌||◌, Text, codes, text_eq, is_blank, List, [],
  Option, none, some, leb, ◌==◌, if◌then◌else◌,
}
use newapi_usage.Audit.Types.{Message}
use newapi_usage.Review.Types.{Decision}

pub record TokenUsage : Type 0 where
  pub prompt : ℕ
  pub completion : ℕ

-- The settings that a worker adapts to the endpoint while it runs.
pub record CallSettings : Type 0 where
  pub response_mode : Text
  pub reasoning_effort : Text

-- An error of a call; `status` is the HTTP status of a reviewHTTPError.
pub record CallError : Type 0 where
  pub message : Text
  pub status : Option ℕ

pub record Answer : Type 0 where
  pub decision : Decision
  pub usage : TokenUsage
  pub mode : Text
  pub effort : Text

pub data Attempt : Type 0 where
  answered : Answer → Attempt
  failed : CallError → Attempt

-- The body of an audit entry, decoded and normalized, or the error of reading it.
pub data Fetched : Type 0 where
  fetched : List Message → Fetched
  unreadable : Text → Fetched

-- callReview: the answer to an attempt, by the id of the entry it is made for and its number.
pub record Outside : Type 0 where
  pub body : ℕ → Fetched
  pub call_review : ℕ → CallSettings → Text → ℕ → Attempt

unfoldable pub retryable : CallError → Bool
retryable e = elim e.status [ none ↦ false | some code ↦ code == 429 || leb 500 code ]

abbrev auto_text : Text
auto_text = codes "auto"

-- What a successful call teaches about the endpoint.
unfoldable pub learn : CallSettings → Answer → CallSettings
learn s a = record {
  response_mode =
      if text_eq s.response_mode auto_text && not (is_blank a.mode)
      then a.mode
      else s.response_mode;
  reasoning_effort =
      if text_eq s.reasoning_effort auto_text && not (is_blank a.effort)
      then a.effort
      else s.reasoning_effort;
}

pub data Reviewed : Type 0 where
  decided : Answer → CallSettings → Reviewed
  gave_up : CallError → Reviewed

-- The loop of callReviewWithRetry: `left` attempts are left, and `attempt` is the next one.
unfoldable pub retry_loop : Outside → ℕ → CallSettings → Text → ℕ → ℕ → CallError → Reviewed
unfolding retryable learn
retry_loop out entry s content zero attempt last = gave_up last
retry_loop out entry s content (suc left) attempt last =
    elim (out.call_review entry s content attempt) [
      | answered a ↦ decided a (learn s a)
      | failed e ↦ elim (not (retryable e) && leb 1 attempt) [
        | true ↦ gave_up e
        | false ↦ retry_loop out entry s content left (suc attempt) e
      ]
    ]

abbrev no_error : CallError
no_error = record { message = []; status = none }

unfoldable pub call_review_with_retry : Outside → ℕ → CallSettings → Text → Reviewed
unfolding retry_loop
call_review_with_retry out entry s content = retry_loop out entry s content 3 0 no_error
