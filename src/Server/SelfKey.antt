-- ===== src/Server/SelfKey.antt =====
-- The keys that the self-service API takes: requireSelfKey and resolveSelfKey of
-- internal/server/self.go, over ResolveTokenByKey and tokenKeyCandidates of internal/store/store.go.
-- Keys and headers are taken to be ASCII, and the database compares keys exactly.
pub mod Known
use newapi_usage.Prelude.{
  ℕ, ◌-◌, Bool, true, false, ◌&&◌, ◌||◌, Text, codes, text_eq, text_eq→≡, is_blank, has_prefix,
  to_lower, equal_fold, trim_space, List, [], ◌∷◌, ◌++◌, length, take, drop, Option, none, some,
  ltb, leb, if◌then◌else◌, find_where, find_where-In, exists_where, exists_where-In, In, here,
  there, All, ◌≡◌, refl, ◌⊎◌, inl, inr, Bool-cases, Option-cases, arith,
}
use newapi_usage.Server.Auth.{
  Request, Response, write_error, write_json, method_not_allowed, key_found,
}

-- A row of the table tokens.
pub record TokenRow : Type 0 where
  pub id : ℕ
  pub name : Option Text
  pub key : Text

pub record TokenIdentity : Type 0 where
  pub token_id : ℕ
  pub name : Text
  pub key_tail : Text

-- COALESCE(name, '')
abbrev name_of : Option Text → Text
name_of none = []
name_of (some name) = name

-- substr(key, -8)
abbrev pub key_tail_of : Text → Text
key_tail_of key = drop (length key - 8) key

unfoldable pub identity_of : TokenRow → TokenIdentity
identity_of row = record {
  token_id = row.id;
  name = name_of row.name;
  key_tail = key_tail_of row.key;
}

-- The closure `add` of tokenKeyCandidates.
unfoldable pub add_candidate : Text → List Text → List Text
unfolding trim_space text_eq exists_where
add_candidate value candidates =
    let trimmed = trim_space value in
    if is_blank trimmed
    then candidates
    else if exists_where (text_eq trimmed) candidates
    then candidates
    else candidates ++ trimmed ∷ []

unfoldable pub without_bearer : Text → Text
unfolding trim_space to_lower has_prefix
without_bearer key =
    if has_prefix (to_lower key) (codes "bearer ") then trim_space (drop 7 key) else key

unfoldable pub with_short : Text → List Text → List Text
unfolding add_candidate to_lower has_prefix
with_short key candidates =
    if has_prefix (to_lower key) (codes "sk-")
    then add_candidate (drop 3 key) candidates
    else candidates

unfoldable pub token_key_candidates : Text → List Text
unfolding without_bearer with_short
token_key_candidates key =
    let bare = without_bearer (trim_space key) in with_short bare (add_candidate bare [])

unfoldable pub has_key : Text → TokenRow → Bool
unfolding text_eq
has_key candidate row = text_eq row.key candidate

unfoldable pub row_identity : Option TokenRow → Option TokenIdentity → Option TokenIdentity
unfolding identity_of
row_identity none rest = rest
row_identity (some row) rest = some (identity_of row)

-- The loop over the candidates; `none` is sql.ErrNoRows.
unfoldable pub try_candidates : List TokenRow → List Text → Option TokenIdentity
unfolding row_identity find_where has_key
try_candidates tokens [] = none
try_candidates tokens (candidate ∷ rest) =
    row_identity (find_where (has_key candidate) tokens) (try_candidates tokens rest)

unfoldable pub resolve_token_by_key : List TokenRow → Text → Option TokenIdentity
unfolding try_candidates token_key_candidates
resolve_token_by_key tokens key = try_candidates tokens (token_key_candidates key)

unfoldable pub resolve_self_key : List TokenRow → Text → Option TokenIdentity
unfolding resolve_token_by_key trim_space
resolve_self_key tokens key =
    let trimmed = trim_space key in
    if is_blank trimmed || ltb 512 (length trimmed)
    then none
    else resolve_token_by_key tokens trimmed

-- The headers Authorization and X-API-Key.
unfoldable pub presented_key : Text → Text → Text
unfolding trim_space equal_fold
presented_key authorization x_api_key =
    let key = trim_space authorization in
    if leb 7 (length key) && equal_fold (take 7 key) (codes "Bearer ")
    then trim_space (drop 7 key)
    else trim_space x_api_key

unfoldable pub require_self_key : List TokenRow → Text → Text → Option TokenIdentity
unfolding resolve_self_key presented_key
require_self_key tokens authorization x_api_key =
    resolve_self_key tokens (presented_key authorization x_api_key)

unfoldable pub login_answer : Option TokenIdentity → Response
login_answer none = write_error 401 (codes "invalid api key")
login_answer (some identity) = write_json 200 (key_found identity.name identity.key_tail)

unfoldable pub resolve_body : List TokenRow → Option Text → Response
unfolding login_answer resolve_self_key
resolve_body tokens none = write_error 400 (codes "invalid request body")
resolve_body tokens (some key) = login_answer (resolve_self_key tokens key)

unfoldable pub handle_self_login : (Text → Option Text) → List TokenRow → Request → Response
unfolding resolve_body text_eq
handle_self_login decode_key tokens r =
    if text_eq r.method (codes "POST")
    then resolve_body tokens (decode_key r.body)
    else method_not_allowed
