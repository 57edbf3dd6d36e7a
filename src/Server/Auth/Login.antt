-- ===== src/Server/Auth/Login.antt =====
-- From a login to the requests that carry its cookie.
use newapi_usage.Prelude.{
  ℕ, ◌+◌, ◌^◌, ◌<◌, false, Text, codes, text_eq_refl, List, Option, none, some, Option-cases, ℤ,
  pos, contains_char, ltb, is_int64, if◌then◌else◌, ◌≡◌, ◌∙◌, ◌⊎◌, inl, inr, Bool-cases, arith,
}
use newapi_usage.Server.Session.{Crypto, dot, sign_session, valid_session}
use newapi_usage.Server.Session.RoundTrip.{IsLive, valid_session-sign_session, valid_session-IsLive}
use newapi_usage.Server.Auth.{
  Request, Response, Cookie, auth_ttl, authentication_required, is_public_path, handle_auth_login,
  handler, authenticated, routes, auth_middleware, check_password, logged_in, cookie_is_valid,
}

-- What the browser keeps of a response, where the cookie is not a deletion.
abbrev pub cookie_value : Option Cookie → Option Text
cookie_value none = none
cookie_value (some k) = if k.is_deleted then none else some k.value

module _ (c : Crypto) (decode_password : Text → Option Text) (admin_password : Text) where
  -- The session that a login at a time makes.
  abbrev pub session_from : ℕ → Text
  session_from at = sign_session c admin_password (pos (at + auth_ttl))

  handle_auth_login-cookie :
      (at : ℕ) (r : Request) (password : Text)
      → r.method ≡ codes "POST"
      → decode_password r.body ≡ some password
      → c.sha256 password ≡ c.sha256 admin_password
      → handle_auth_login c decode_password admin_password at r
        ≡ logged_in c decode_password admin_password at r
  unfolding handle_auth_login check_password
  handle_auth_login-cookie at r password post body same =
      rw (post, body, same, text_eq_refl (c.sha256 admin_password))

  valid_session-session_from :
      (at now : ℕ)
      → ((bs : List ℕ) → contains_char dot (c.raw_url_base64 bs) ≡ false)
      → at + auth_ttl < 2 ^ 63
      → valid_session c admin_password (pos now) (session_from at) ≡ ltb now (at + auth_ttl)
  unfolding is_int64
  valid_session-session_from at now no_dot bound =
      rw
        (valid_session-sign_session c admin_password (pos now) (pos (at + auth_ttl)) no_dot
          (ground arith))
        (ground arith)

  -- Where base64 yields no dot and the time fits in int64: a POST with a password of the digest of the
  -- administrator's sets a cookie, and a request that carries it to a path that is not public is
  -- served until seven days after the login, and answered with 401 from then on.
  pub login-serves :
      (rest : Request → Response) (at now : ℕ) (login r : Request) (password : Text)
      → ((bs : List ℕ) → contains_char dot (c.raw_url_base64 bs) ≡ false)
      → at + auth_ttl < 2 ^ 63
      → login.method ≡ codes "POST"
      → decode_password login.body ≡ some password
      → c.sha256 password ≡ c.sha256 admin_password
      → r.session
        ≡ cookie_value (handle_auth_login c decode_password admin_password at login).cookie
      → is_public_path r.path ≡ false
      → handler c decode_password admin_password rest now r ≡ (
          if ltb now (at + auth_ttl)
          then routes c decode_password admin_password rest now r
          else authentication_required)
  unfolding handler auth_middleware authenticated cookie_is_valid logged_in
  login-serves rest at now login r password no_dot bound post body same carries guarded =
      let cookie : cookie_value (handle_auth_login c decode_password admin_password at login).cookie
          ≡ some (session_from at) =
        rw (handle_auth_login-cookie at login password post body same) in
      let session = carries ∙ cookie in
      rw (guarded, session, valid_session-session_from at now no_dot bound)

  -- A request to a path that is not public is answered with 401, or it carries a session that is live
  -- at this time and is served; base64 is to yield no dot.
  pub handler-guarded :
      (rest : Request → Response) (now : ℕ) (r : Request)
      → ((bs : List ℕ) → contains_char dot (c.raw_url_base64 bs) ≡ false)
      → is_public_path r.path ≡ false
      → (handler c decode_password admin_password rest now r ≡ authentication_required)
        ⊎ ((value : Text) × (t : ℤ) × (r.session ≡ some value)
            × IsLive c admin_password (pos now) value t
            × (handler c decode_password admin_password rest now r
                ≡ routes c decode_password admin_password rest now r))
  unfolding handler auth_middleware authenticated cookie_is_valid
  handler-guarded rest now r no_dot guarded = elim (Option-cases r.session) [
    | inl e ↦ inl (rw (guarded, e))
    | inr e ↦ elim (Bool-cases (valid_session c admin_password (pos now) e.0)) [
      | inr stale ↦ inl (rw (guarded, e.1, stale))
      | inl valid ↦
          let live = (valid_session-IsLive c admin_password (pos now) e.0 no_dot).0 valid in
          inr (e.0, live.0, e.1, live.1, rw (guarded, e.1, valid))
    ]
  ]
