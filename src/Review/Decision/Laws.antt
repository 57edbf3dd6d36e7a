-- ===== src/Review/Decision/Laws.antt =====
-- What normalizeDecision promises of every decision that it lets through.
use newapi_usage.Prelude.{
  ℕ, ◌^◌, ◌≤◌, Bool, true, false, ◌≡◌, refl, ◌≢◌, ◌⊎◌, inl, inr, arith, ℤ, pos, ◌≤ℤ◌, Text, List,
  [], ◌∷◌, none, some, text_eq, text_eq_comm, trim_space, length, length-take, take, ltb,
  if◌then◌else◌, All, Bool-cases,
}
use newapi_usage.Review.Types.{Verdict, pass, review, block, other, Decision, float_one}
use newapi_usage.Review.Decision.{
  is_known, risk_categories, contains, clamp_score, clamp_confidence, known_category,
  keep_categories, categories_for, limit_reason, normalize_decision,
}

-- No category stands twice.
abbrev pub Distinct : List Text → Type 0
Distinct [] = Unit {0}
Distinct (c ∷ cs) = (contains cs c ≡ false) × Distinct cs

abbrev Allowed : Text → Type 0
Allowed c = contains risk_categories c ≡ true

known_category-Allowed : (c : Text) → Allowed (known_category c)
unfolding known_category contains risk_categories text_eq
known_category-Allowed c = elim (Bool-cases (contains risk_categories (trim_space c))) [
  | inl e ↦ rw (e, known_category) e
  | inr e ↦ rw (e, known_category) refl
]

keep_categories-Allowed : (seen cs : List Text) → All Allowed (keep_categories seen cs)
unfolding keep_categories
keep_categories-Allowed seen [] = tt
keep_categories-Allowed seen (c ∷ cs) = elim (Bool-cases (contains seen (known_category c))) [
  | inl e ↦ rw (e, keep_categories) (keep_categories-Allowed seen cs)
  | inr e ↦
      rw (e, keep_categories)
        (known_category-Allowed c, keep_categories-Allowed (known_category c ∷ seen) cs)
]

abbrev Fresh : List Text → Text → Type 0
Fresh seen c = contains seen c ≡ false

Fresh-tail : (y : Text) (seen xs : List Text) → All (Fresh (y ∷ seen)) xs → All (Fresh seen) xs
unfolding contains
Fresh-tail y seen [] h = tt
Fresh-tail y seen (x ∷ xs) h = (ground arith, Fresh-tail y seen xs h.1)

Fresh-head : (y : Text) (seen xs : List Text) → All (Fresh (y ∷ seen)) xs → Fresh xs y
unfolding contains
Fresh-head y seen [] h = refl
Fresh-head y seen (x ∷ xs) h = ground (arith, text_eq_comm x y, Fresh-head y seen xs h.1)

keep_categories-Fresh : (seen cs : List Text) → All (Fresh seen) (keep_categories seen cs)
unfolding keep_categories
keep_categories-Fresh seen [] = tt
keep_categories-Fresh seen (c ∷ cs) = elim (Bool-cases (contains seen (known_category c))) [
  | inl e ↦ rw (e, keep_categories) (keep_categories-Fresh seen cs)
  | inr e ↦
      rw (e, keep_categories)
        (
          e,
          Fresh-tail (known_category c) seen _ (keep_categories-Fresh (known_category c ∷ seen) cs),
        )
]

keep_categories-Distinct : (seen cs : List Text) → Distinct (keep_categories seen cs)
unfolding keep_categories
keep_categories-Distinct seen [] = tt
keep_categories-Distinct seen (c ∷ cs) = elim (Bool-cases (contains seen (known_category c))) [
  | inl e ↦ rw (e, keep_categories) (keep_categories-Distinct seen cs)
  | inr e ↦
      rw (e, keep_categories)
        (
          Fresh-head (known_category c) seen _ (keep_categories-Fresh (known_category c ∷ seen) cs),
          keep_categories-Distinct (known_category c ∷ seen) cs,
        )
]

clamp_score_bounds : (s : ℤ) → (pos 0 ≤ℤ clamp_score s) × (clamp_score s ≤ℤ pos 100)
unfolding clamp_score
clamp_score_bounds s = ground arith

clamp_confidence_bounds :
    (c : ℤ) (top : ℕ)
    → float_one ≡ pos top
    → (pos 0 ≤ℤ clamp_confidence c) × (clamp_confidence c ≤ℤ float_one)
unfolding clamp_confidence
clamp_confidence_bounds c top h = rw h (ground arith)

limited-le :
    (n : ℕ) (t : Text) (b : Bool) → ltb n (length t) ≡ b → length (if b then take n t else t) ≤ n
limited-le n t true h = omega (arith, length-take n t)
limited-le n t false h = ground arith

limit_reason-le : (r : Text) → length (limit_reason r) ≤ 500
unfolding limit_reason
limit_reason-le r = limited-le 500 (trim_space r) _ refl

-- What a decision satisfies after the normalization.
pub record IsNormal (d : Decision) : Type 0 where
  pub known : (t : Text) → d.decision ≢ other t
  pub score_low : pos 0 ≤ℤ d.risk_score
  pub score_high : d.risk_score ≤ℤ pos 100
  pub confidence_low : pos 0 ≤ℤ d.confidence
  pub confidence_high : d.confidence ≤ℤ float_one
  pub allowed : All (λ c. contains risk_categories c ≡ true) d.categories
  pub distinct : Distinct d.categories
  pub pass_clean : d.decision ≡ pass → d.categories ≡ []
  pub reason_short : length d.reason ≤ 500

categories_for-lem :
    (v : Verdict) (cs : List Text)
    → All Allowed (categories_for v cs)
      × Distinct (categories_for v cs)
      × (v ≡ pass → categories_for v cs ≡ [])
unfolding categories_for
categories_for-lem pass cs = (tt, tt, λ e. refl)
categories_for-lem review cs =
    (keep_categories-Allowed [] cs, keep_categories-Distinct [] cs, λ e. cc)
categories_for-lem block cs =
    (keep_categories-Allowed [] cs, keep_categories-Distinct [] cs, λ e. cc)
categories_for-lem (other t) cs =
    (keep_categories-Allowed [] cs, keep_categories-Distinct [] cs, λ e. cc)

float_one-pos : float_one ≡ pos (2 ^ 1074)
unfolding float_one
float_one-pos = refl

IsNormal-form :
    (v : Verdict) (s c : ℤ) (cs : List Text) (r : Text)
    → ((t : Text) → v ≢ other t)
    → IsNormal (record {
      decision = v;
      risk_score = clamp_score s;
      categories = categories_for v cs;
      reason = limit_reason r;
      confidence = clamp_confidence c;
    })
IsNormal-form v s c cs r known =
    let score = clamp_score_bounds s in
    let conf = clamp_confidence_bounds c _ float_one-pos in
    let cats = categories_for-lem v cs in
    record {
      known = known;
      score_low = score.0;
      score_high = score.1;
      confidence_low = conf.0;
      confidence_high = conf.1;
      allowed = cats.0;
      distinct = cats.1;
      pass_clean = cats.2;
      reason_short = limit_reason-le r;
    }

Verdict-cases : (v : Verdict) → ((t : Text) → v ≢ other t) ⊎ ((t : Text) × (v ≡ other t))
Verdict-cases (other t) = inr (t, refl)
Verdict-cases pass = inl (λ t e. cc)
Verdict-cases review = inl (λ t e. cc)
Verdict-cases block = inl (λ t e. cc)

known_is_known : (v : Verdict) → ((t : Text) → v ≢ other t) → is_known v ≡ true
known_is_known (other t) h = absurd (h t refl)
known_is_known pass h = refl
known_is_known review h = refl
known_is_known block h = refl

-- A normalized decision is one of the three, with a score of 0 to 100, a confidence of 0 to 1,
-- distinct categories from the fixed list (none if it passes) and a reason of at most 500
-- characters; and only a decision that is none of the three is refused.
pub normalize_decision-IsNormal :
    (d : Decision)
    → ((e : Decision) × (normalize_decision d ≡ some e) × IsNormal e × (e.decision ≡ d.decision))
      ⊎ ((normalize_decision d ≡ none) × ((t : Text) × (d.decision ≡ other t)))
unfolding normalize_decision
normalize_decision-IsNormal d = elim (Verdict-cases d.decision) [
  | inr (t, e) ↦ inr (rw e refl, (t, e))
  | inl known ↦ inl (
    _,
    ground (arith, known_is_known d.decision known),
    IsNormal-form d.decision d.risk_score d.confidence d.categories d.reason known,
    refl,
  )
]
