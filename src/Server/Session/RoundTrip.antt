-- ===== src/Server/Session/RoundTrip.antt =====
-- What validSession accepts: a session that signSession made, and that has not expired.
use newapi_usage.Prelude.{
  ℕ, true, false, Text, text_eq_refl, text_eq→≡, List, [], ◌∷◌, ◌++◌, Option, none, some, split,
  split-two, ℤ, leb_ℤ, ltb_ℤ, is_int64, contains_char, format_int, parse_int,
  format_int-contains_char, parse_int-format_int, parse_int-is_int64, ◌≡◌, refl, ◌↔◌, inl, inr,
  Bool-cases, arith,
}
use newapi_usage.Server.Session.{
  Crypto, dot, signature, sign_session, check_expiry, check_parts, valid_session,
}

module _ (c : Crypto) (admin_password : Text) (now : ℤ) where
  -- What makes a value a session at this time.
  pub IsLive : Text → ℤ → Type 0
  IsLive value t =
      (is_int64 t ≡ true) × (ltb_ℤ now t ≡ true) × (value ≡ sign_session c admin_password t)

  pub valid_session-sign_session :
      (t : ℤ)
      → ((bs : List ℕ) → contains_char dot (c.raw_url_base64 bs) ≡ false)
      → is_int64 t ≡ true
      → valid_session c admin_password now (sign_session c admin_password t) ≡ ltb_ℤ now t
  unfolding valid_session check_parts check_expiry sign_session
  valid_session-sign_session t no_dot h =
      rw
        (
          split-two dot (format_int t) (signature c admin_password (format_int t))
              (format_int-contains_char t) (no_dot (c.hmac_sha256 admin_password (format_int t))),
          parse_int-format_int t h,
          text_eq_refl (format_int t ++ dot ∷ signature c admin_password (format_int t)),
        )
        (ground arith)

  check_expiry-IsLive :
      (value : Text) (o : Option ℤ)
      → ((t : ℤ) → o ≡ some t → is_int64 t ≡ true)
      → check_expiry c admin_password now value o ≡ true
      → (t : ℤ) × IsLive value t
  unfolding check_expiry IsLive
  check_expiry-IsLive value none inside h = cc
  check_expiry-IsLive value (some t) inside h = elim (Bool-cases (leb_ℤ t now)) [
    | inl e ↦ absurd (ground arith)
    | inr e ↦ (
      t,
      (inside t refl, ground arith, text_eq→≡ value (sign_session c admin_password t) (rw e at h)),
    )
  ]

  check_parts-IsLive :
      (value : Text) (parts : List Text)
      → check_parts c admin_password now value parts ≡ true
      → (t : ℤ) × IsLive value t
  unfolding check_parts
  check_parts-IsLive value [] h = cc
  check_parts-IsLive value (p ∷ []) h = cc
  check_parts-IsLive value (p ∷ q ∷ []) h =
      check_expiry-IsLive value (parse_int p) (λ t e. parse_int-is_int64 p t e) h
  check_parts-IsLive value (p ∷ q ∷ r ∷ parts) h = cc

  -- Where base64 yields no dot, validSession accepts a value exactly when it is what signSession makes,
  -- under the same password, of some int64 time that is later than now.
  pub valid_session-IsLive :
      (value : Text)
      → ((bs : List ℕ) → contains_char dot (c.raw_url_base64 bs) ≡ false)
      → (valid_session c admin_password now value ≡ true) ↔ ((t : ℤ) × IsLive value t)
  unfolding valid_session IsLive
  valid_session-IsLive value no_dot = (
    check_parts-IsLive value (split dot value),
    λ live. rw (live.1.2, valid_session-sign_session live.0 no_dot live.1.0) live.1.1,
  )
