-- ===== src/Server/SelfKey/Known.antt =====
-- Whom a presented key identifies.
use newapi_usage.Prelude.{
  ◌<◌, true, false, Text, codes, text_eq, text_eq→≡, is_blank, has_prefix, to_lower, trim_space,
  List, [], ◌∷◌, length, drop, Option, none, some, ltb, ltb→lt, find_where, find_where-In,
  exists_where, In, here, there, All, All-append, ◌≡◌, refl, ◌⊎◌, inl, inr, Bool-cases,
  Option-cases, arith,
}
use newapi_usage.Server.SelfKey.{
  TokenRow, TokenIdentity, identity_of, add_candidate, without_bearer, with_short,
  token_key_candidates, has_key, row_identity, try_candidates, resolve_token_by_key,
  resolve_self_key,
}

-- A candidate that is no token's key.
abbrev pub Unknown : List TokenRow → Text → Type 0
Unknown tokens candidate = exists_where (has_key candidate) tokens ≡ false

abbrev pub NotBlank : Text → Type 0
NotBlank key = is_blank key ≡ false

add_candidate-All :
    (value : Text) (cs : List Text) → All NotBlank cs → All NotBlank (add_candidate value cs)
unfolding add_candidate
add_candidate-All value cs h = elim (Bool-cases (is_blank (trim_space value))) [
  | inl e ↦ rw e h
  | inr e ↦ elim (Bool-cases (exists_where (text_eq (trim_space value)) cs)) [
    | inl f ↦ rw (e, f) h
    | inr f ↦ rw (e, f) (All-append NotBlank cs (trim_space value ∷ []) h (e, tt))
  ]
]

with_short-All : (key : Text) (cs : List Text) → All NotBlank cs → All NotBlank (with_short key cs)
unfolding with_short
with_short-All key cs h = elim (Bool-cases (has_prefix (to_lower key) (codes "sk-"))) [
  | inl e ↦ rw e (add_candidate-All (drop 3 key) cs h)
  | inr e ↦ rw e h
]

token_key_candidates-All : (key : Text) → All NotBlank (token_key_candidates key)
unfolding token_key_candidates
token_key_candidates-All key =
    let bare = without_bearer (trim_space key) in
    with_short-All bare (add_candidate bare []) (add_candidate-All bare [] tt)

find_where-none :
    (tokens : List TokenRow) (candidate : Text)
    → find_where (has_key candidate) tokens ≡ none
    → Unknown tokens candidate
unfolding find_where exists_where
find_where-none [] candidate h = refl
find_where-none (row ∷ tokens) candidate h = ground (arith, find_where-none tokens candidate)

-- The row that a key identifies, and the candidate that found it.
pub Found : List TokenRow → List Text → Option TokenIdentity → Type 0
Found tokens cs answer =
    (row : TokenRow) × In row tokens × In row.key cs × (answer ≡ some (identity_of row))

has_key→≡ : (candidate : Text) (row : TokenRow) → has_key candidate row ≡ true → row.key ≡ candidate
unfolding has_key
has_key→≡ candidate row h = text_eq→≡ row.key candidate h

try_candidates-Found :
    (tokens : List TokenRow) (cs : List Text)
    → Found tokens cs (try_candidates tokens cs)
      ⊎ ((try_candidates tokens cs ≡ none) × All (Unknown tokens) cs)
unfolding try_candidates row_identity Found
try_candidates-Found tokens [] = inr (refl, tt)
try_candidates-Found tokens (k ∷ cs) = elim (Option-cases (find_where (has_key k) tokens)) [
  | inl e ↦ elim (try_candidates-Found tokens cs) [
    | inl f ↦ inl (f.0, f.1, there f.2, rw (e, f.3))
    | inr f ↦ inr (rw (e, f.0), (find_where-none tokens k e, f.1))
  ]
  | inr e ↦
      let row = find_where-In (has_key k) tokens {x = e.0} e.1 in
      inl (e.0, row.0, rw (has_key→≡ k e.0 row.1) here, rw e.1)
]

-- A presented key identifies a token whose key is one of the candidates made of it, none of which is
-- blank; or it identifies none, because it is blank, longer than 512 characters, or no candidate is
-- the key of a token.
pub resolve_self_key-Found :
    (tokens : List TokenRow) (key : Text)
    → let cs = token_key_candidates (trim_space key) in
      (Found tokens cs (resolve_self_key tokens key) × All NotBlank cs)
      ⊎ ((resolve_self_key tokens key ≡ none)
          × ((is_blank (trim_space key) ≡ true)
              ⊎ ((512 < length (trim_space key)) ⊎ All (Unknown tokens) cs)))
unfolding resolve_self_key resolve_token_by_key
resolve_self_key-Found tokens key =
    let trimmed = trim_space key in
    elim (Bool-cases (is_blank trimmed)) [
      | inl e ↦ inr (rw e, inl e)
      | inr e ↦ elim (Bool-cases (ltb 512 (length trimmed))) [
        | inl f ↦ inr (rw (e, f), inr (inl (ltb→lt 512 (length trimmed) f)))
        | inr f ↦
            rw (e, f)
              (elim (try_candidates-Found tokens (token_key_candidates trimmed)) [
                | inl g ↦ inl (g, token_key_candidates-All trimmed)
                | inr g ↦ inr (g.0, inr (inr g.1))
              ])
      ]
    ]
