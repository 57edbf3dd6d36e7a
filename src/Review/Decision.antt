-- ===== src/Review/Decision.antt =====
-- The decisions of the review model: normalizeDecision of internal/review/client.go, and
-- decisionRank and combineDecision of internal/review/worker.go.
pub mod Laws
pub mod Order
use newapi_usage.Prelude.{
  ℕ, Bool, true, false, Text, text_eq, trim_space, codes, List, [], ◌∷◌, Option, none, some, ℤ, pos,
  ltb, ltb_ℤ, ◌==◌, ◌&&◌, ◌||◌, if◌then◌else◌, length, take,
}
use newapi_usage.Review.Types.{Verdict, pass, review, block, other, Decision, float_one}

abbrev other_risk : Text
other_risk = codes "其他风险"

unfoldable pub risk_categories : List Text
risk_categories =
    codes "提示词注入"
    ∷ codes "越狱绕过"
    ∷ codes "凭据窃取"
    ∷ codes "敏感信息泄露"
    ∷ codes "恶意软件"
    ∷ codes "网络攻击"
    ∷ codes "欺诈"
    ∷ codes "隐私侵犯"
    ∷ codes "违法活动"
    ∷ codes "滥用骚扰"
    ∷ other_risk
    ∷ []

-- A Go `map[string]bool` used as a set, by its keys.
unfoldable pub contains : List Text → Text → Bool
contains [] x = false
contains (y ∷ ys) x = if text_eq y x then true else contains ys x

-- The test of the `switch`.
abbrev is_known : Verdict → Bool
is_known (other t) = false
is_known _ = true

pub clamp_score : ℤ → ℤ
clamp_score s =
    let low = if ltb_ℤ s (pos 0) then pos 0 else s in if ltb_ℤ (pos 100) low then pos 100 else low

pub clamp_confidence : ℤ → ℤ
clamp_confidence c =
    let low = if ltb_ℤ c (pos 0) then pos 0 else c in if ltb_ℤ float_one low then float_one else low

pub known_category : Text → Text
unfolding contains risk_categories
known_category c =
    let trimmed = trim_space c in if contains risk_categories trimmed then trimmed else other_risk

-- The loop over the categories, `seen` being those kept so far, newest first.
pub keep_categories : List Text → List Text → List Text
keep_categories seen [] = []
keep_categories seen (c ∷ cs) =
    let category = known_category c in
    elim (contains seen category) [
      | true ↦ keep_categories seen cs
      | false ↦ category ∷ keep_categories (category ∷ seen) cs
    ]

pub categories_for : Verdict → List Text → List Text
unfolding keep_categories
categories_for pass cs = []
categories_for _ cs = keep_categories [] cs

pub limit_reason : Text → Text
limit_reason r =
    let trimmed = trim_space r in if ltb 500 (length trimmed) then take 500 trimmed else trimmed

-- `none` is the error of an invalid decision.
unfoldable pub normalize_decision : Decision → Option Decision
unfolding clamp_score clamp_confidence categories_for limit_reason
normalize_decision d =
    if is_known d.decision
    then some (record {
      decision = d.decision;
      risk_score = clamp_score d.risk_score;
      categories = categories_for d.decision d.categories;
      reason = limit_reason d.reason;
      confidence = clamp_confidence d.confidence;
    })
    else none

unfoldable pub decision_rank : Verdict → ℕ
decision_rank block = 2
decision_rank review = 1
decision_rank _ = 0

abbrev is_pass : Verdict → Bool
is_pass pass = true
is_pass _ = false

-- The parent is the stricter of the two.
pub outranks : Verdict → ℤ → Verdict → ℤ → Bool
unfolding decision_rank
outranks parent parent_score delta delta_score =
    ltb (decision_rank delta) (decision_rank parent)
    || (decision_rank parent == decision_rank delta && ltb_ℤ delta_score parent_score)

pub record Combined : Type 0 where
  pub decision : Verdict
  pub score : ℤ
  pub inherited : Bool

unfoldable pub combine_decision : Verdict → ℤ → Verdict → ℤ → Combined
unfolding outranks
combine_decision parent parent_score delta delta_score =
    if outranks parent parent_score delta delta_score
    then record {
      decision = parent;
      score = parent_score;
      inherited = if is_pass parent then false else true;
    }
    else record { decision = delta; score = delta_score; inherited = false }
