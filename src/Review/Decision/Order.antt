-- ===== src/Review/Decision/Order.antt =====
-- combineDecision as the maximum of an order on decisions.
use newapi_usage.Prelude.{◌<◌, true, ◌≡◌, ◌⊎◌, ◌↔◌, arith, ℤ, ◌≤ℤ◌}
use newapi_usage.Review.Types.{Verdict, pass}
use newapi_usage.Review.Decision.{decision_rank, combine_decision}

-- (a, s) is at most as severe as (b, t): by rank, then by score.
abbrev pub AtMost : Verdict → ℤ → Verdict → ℤ → Type 0
AtMost a s b t =
    (decision_rank a < decision_rank b) ⊎ ((decision_rank a ≡ decision_rank b) × (s ≤ℤ t))

-- The effective decision of an entry is at least as severe as its parent's and as that of its own
-- new content, and it is one of the two, with that one's score.
pub combine_decision-max :
    (p : Verdict) (ps : ℤ) (d : Verdict) (ds : ℤ)
    → let c = combine_decision p ps d ds in
      AtMost p ps c.decision c.score
      × AtMost d ds c.decision c.score
      × (((c.decision ≡ p) × (c.score ≡ ps)) ⊎ ((c.decision ≡ d) × (c.score ≡ ds)))
unfolding combine_decision
combine_decision-max p ps d ds = ground arith

-- An entry is marked inherited exactly when its parent is strictly more severe than its own new
-- content and was not passed.
pub combine_decision-inherited :
    (p : Verdict) (ps : ℤ) (d : Verdict) (ds : ℤ)
    → ((combine_decision p ps d ds).inherited ≡ true) ↔ ((AtMost p ps d ds → ⊥) × (p ≡ pass → ⊥))
unfolding combine_decision
combine_decision-inherited p ps d ds = ground arith
