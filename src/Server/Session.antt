-- ===== src/Server/Session.antt =====
-- signSession and validSession of internal/server/auth.go: a session is the time at which it expires,
-- a dot, and a signature of that time under the administrator's password. A value that the password
-- did not sign is as good as none.
pub mod RoundTrip
use newapi_usage.Prelude.{
  ℕ, Bool, true, false, Text, text_eq, List, [], ◌∷◌, ◌++◌, Option, none, some, split, ℤ, leb_ℤ,
  format_int, parse_int, if◌then◌else◌,
}

-- The packages crypto and encoding/base64; bytes are natural numbers.
pub record Crypto : Type 0 where
  pub hmac_sha256 : Text → Text → List ℕ
  pub raw_url_base64 : List ℕ → Text
  pub sha256 : Text → List ℕ

abbrev pub dot : ℕ
dot = 46

module _ (c : Crypto) (admin_password : Text) where
  abbrev pub signature : Text → Text
  signature expires_text = c.raw_url_base64 (c.hmac_sha256 admin_password expires_text)

  unfoldable pub sign_session : ℤ → Text
  sign_session expires_at =
      let expires_text = format_int expires_at in expires_text ++ dot ∷ signature expires_text

  unfoldable pub check_expiry : ℤ → Text → Option ℤ → Bool
  unfolding sign_session
  check_expiry now value none = false
  check_expiry now value (some expires_at) =
      if leb_ℤ expires_at now then false else text_eq value (sign_session expires_at)

  unfoldable pub check_parts : ℤ → Text → List Text → Bool
  unfolding check_expiry
  check_parts now value (p ∷ q ∷ []) = check_expiry now value (parse_int p)
  check_parts now value _ = false

  unfoldable pub valid_session : ℤ → Text → Bool
  unfolding check_parts
  valid_session now value = check_parts now value (split dot value)
