-- ===== src/Review/Worker/Retry.antt =====
-- callReviewWithRetry: how often the endpoint is asked, and when a call is given up.
use newapi_usage.Prelude.{ℕ, ◌≡◌, ◌⊎◌, ◌↔◌, true, false, Text, arith}
use newapi_usage.Review.Worker.Calls.{
  Outside, CallSettings, CallError, Answer, Attempt, answered, failed, retryable, learn, decided,
  gave_up, call_review_with_retry,
}

module _ (out : Outside) (entry : ℕ) (s : CallSettings) (content : Text) where
  abbrev pub ask : ℕ → Attempt
  ask = Outside.call_review out entry s content

  -- The attempt failed with a rate limit or a server error.
  abbrev pub Transient : ℕ → Type 0
  Transient n = (e : CallError) × (ask n ≡ failed e) × (retryable e ≡ true)

  abbrev pub Fails : ℕ → Type 0
  Fails n = (e : CallError) × (ask n ≡ failed e)

  -- The endpoint is asked at most three times, and a third time only after a rate limit or a server
  -- error: an answer counts exactly where it comes first, second after any error, or third
  -- after a second error of those kinds.
  pub call_review-decided :
      (a : Answer)
      → (call_review_with_retry out entry s content ≡ decided a (learn s a)) ↔ (
          (ask 0 ≡ answered a)
          ⊎ (Fails 0 × (ask 1 ≡ answered a))
          ⊎ (Fails 0 × Transient 1 × (ask 2 ≡ answered a)))
  unfolding call_review_with_retry
  call_review-decided a = (λ h. ground arith, λ h. ground arith)

  -- A call that is given up reports the error of the last attempt: the second, if that error is of
  -- another kind, or the third.
  pub call_review-gave_up :
      (e : CallError)
      → call_review_with_retry out entry s content ≡ gave_up e
      → Fails 0
        × (((ask 1 ≡ failed e) × (retryable e ≡ false)) ⊎ (Transient 1 × (ask 2 ≡ failed e)))
  unfolding call_review_with_retry
  call_review-gave_up e h = ground arith
