-- ===== src/Review/Jobs/Input.antt =====
-- How internal/review/jobs.go and settings.go normalize what a request gives.
use newapi_usage.Prelude.{
  ℕ, suc, Bool, true, false, Text, codes, text_eq, trim_space, is_blank, List, [], ◌∷◌, ℤ, pos, ltb,
  leb, ltb_ℤ, leb_ℤ, ◌==◌, if◌then◌else◌, sort_by,
}
use newapi_usage.Review.Types.{RoleMode, user, user_tool, all}

unfoldable pub contains_id : List ℕ → ℕ → Bool
contains_id [] x = false
contains_id (y ∷ ys) x = if y == x then true else contains_id ys x

unfoldable pub contains_text : List Text → Text → Bool
contains_text [] x = false
contains_text (y ∷ ys) x = if text_eq y x then true else contains_text ys x

-- The loop of normalizeTokenIDs; `seen` is the set of the ids that it has kept.
unfoldable pub keep_ids : List ℕ → List ℤ → List ℕ
unfolding contains_id
keep_ids seen [] = []
keep_ids seen (pos (suc n) ∷ rest) = elim (contains_id seen (suc n)) [
  | true ↦ keep_ids seen rest
  | false ↦ suc n ∷ keep_ids (suc n ∷ seen) rest
]
keep_ids seen (_ ∷ rest) = keep_ids seen rest

unfoldable pub normalize_token_ids : List ℤ → List ℕ
unfolding keep_ids
normalize_token_ids values = sort_by leb (keep_ids [] values)

-- The order of sort.Strings: that of the bytes, which is that of the code points.
unfoldable pub text_leb : Text → Text → Bool
text_leb [] t = true
text_leb (c ∷ s) [] = false
text_leb (c ∷ s) (d ∷ t) = if ltb c d then true else if c == d then text_leb s t else false

unfoldable pub keep_models : List Text → List Text → List Text
unfolding contains_text
keep_models seen [] = []
keep_models seen (v ∷ rest) =
    let value = trim_space v in
    elim (if is_blank value then true else contains_text seen value) [
      | true ↦ keep_models seen rest
      | false ↦ value ∷ keep_models (value ∷ seen) rest
    ]

unfoldable pub normalize_models : List Text → List Text
unfolding keep_models text_leb
normalize_models values = sort_by text_leb (keep_models [] values)

unfoldable pub normalize_role_mode : Text → RoleMode
normalize_role_mode value =
    if text_eq value (codes "user_tool")
    then user_tool
    else if text_eq value (codes "all")
    then all
    else user

-- normalizeConcurrency of internal/review/settings.go
unfoldable pub normalize_concurrency : ℤ → ℤ
normalize_concurrency value =
    if leb_ℤ value (pos 0) then pos 5 else if ltb_ℤ (pos 20) value then pos 20 else value
