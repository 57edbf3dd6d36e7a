-- ===== src/Server/Auth.antt =====
-- internal/server/auth.go: the handlers of /api/auth/ and the middleware that guards the API, with
-- writeError of internal/server/server.go and the order in which Handler composes them. `rest` stands
-- for the handlers of the other paths, `decode_password` for encoding/json on the body of a login.
pub mod Login
use newapi_usage.Prelude.{
  ℕ, ◌+◌, Bool, true, false, not, ◌||◌, Text, codes, text_eq, has_prefix, equal_fold, Option, none,
  some, pos, if◌then◌else◌,
}
use newapi_usage.Server.Session.{Crypto, sign_session, valid_session}

-- What the handlers read of a request; `session` is the cookie named authCookieName.
pub record Request : Type 0 where
  pub method : Text
  pub path : Text
  pub session : Option Text
  pub body : Text
  pub tls : Bool
  pub forwarded_proto : Text

-- The cookie that a response sets; its name is authCookieName, its path /, it is HttpOnly and Lax.
pub record Cookie : Type 0 where
  pub value : Text
  pub expires : ℕ
  pub is_deleted : Bool
  pub secure : Bool

pub data Content : Type 0 where
  error_message : Text → ℕ → Content
  authenticated_is : Bool → Content
  ok_body : Content
  key_found : Text → Text → Content
  page : Text → Content

pub record Response : Type 0 where
  pub status : ℕ
  pub content : Content
  pub cookie : Option Cookie

abbrev pub write_json : ℕ → Content → Response
write_json status content = record { status = status; content = content; cookie = none }

abbrev pub write_error : ℕ → Text → Response
write_error status message = write_json status (error_message message status)

abbrev pub method_not_allowed : Response
method_not_allowed = write_error 405 (codes "method not allowed")

abbrev pub authentication_required : Response
authentication_required = write_error 401 (codes "authentication required")

-- 7 * 24 * time.Hour, in seconds.
abbrev pub auth_ttl : ℕ
auth_ttl = 604800

unfoldable pub request_is_secure : Request → Bool
unfolding equal_fold
request_is_secure r = if r.tls then true else equal_fold r.forwarded_proto (codes "https")

unfoldable pub is_public_path : Text → Bool
unfolding text_eq has_prefix
is_public_path path =
    if (text_eq path (codes "/api/health")
      || text_eq path (codes "/api/auth/status")
      || text_eq path (codes "/api/auth/login")
      || text_eq path (codes "/api/auth/logout"))
    then true
    else if has_prefix path (codes "/api/self/")
    then true
    else not (has_prefix path (codes "/api/"))

module _ (c : Crypto) (decode_password : Text → Option Text) (admin_password : Text) where
  unfoldable pub cookie_is_valid : ℕ → Option Text → Bool
  cookie_is_valid now none = false
  cookie_is_valid now (some value) = valid_session c admin_password (pos now) value

  unfoldable pub authenticated : ℕ → Request → Bool
  unfolding cookie_is_valid
  authenticated now r = cookie_is_valid now r.session

  unfoldable pub handle_auth_status : ℕ → Request → Response
  unfolding authenticated text_eq
  handle_auth_status now r =
      if not (text_eq r.method (codes "GET"))
      then method_not_allowed
      else write_json 200 (authenticated_is (authenticated now r))

  unfoldable pub logged_in : ℕ → Request → Response
  unfolding request_is_secure
  logged_in now r = record {
    status = 200;
    content = ok_body;
    cookie = some (record {
      value = sign_session c admin_password (pos (now + auth_ttl));
      expires = now + auth_ttl;
      is_deleted = false;
      secure = request_is_secure r;
    });
  }

  unfoldable pub check_password : ℕ → Request → Option Text → Response
  unfolding logged_in text_eq
  check_password now r none = write_error 400 (codes "invalid request body")
  check_password now r (some password) =
      if text_eq (c.sha256 password) (c.sha256 admin_password)
      then logged_in now r
      else write_error 401 (codes "invalid password")

  unfoldable pub handle_auth_login : ℕ → Request → Response
  unfolding check_password text_eq
  handle_auth_login now r =
      if not (text_eq r.method (codes "POST"))
      then method_not_allowed
      else check_password now r (decode_password r.body)

  unfoldable pub handle_auth_logout : Request → Response
  unfolding request_is_secure text_eq
  handle_auth_logout r =
      if not (text_eq r.method (codes "POST")) then method_not_allowed else record {
        status = 200;
        content = ok_body;
        cookie = some (record {
          value = codes "";
          expires = 0;
          is_deleted = true;
          secure = request_is_secure r;
        });
      }

  -- The routes of /api/auth/ before all others.
  unfoldable pub routes : (Request → Response) → ℕ → Request → Response
  unfolding handle_auth_status handle_auth_login handle_auth_logout text_eq
  routes rest now r =
      if text_eq r.path (codes "/api/auth/status")
      then handle_auth_status now r
      else if text_eq r.path (codes "/api/auth/login")
      then handle_auth_login now r
      else if text_eq r.path (codes "/api/auth/logout")
      then handle_auth_logout r
      else rest r

  unfoldable pub auth_middleware : (Request → Response) → ℕ → Request → Response
  unfolding authenticated is_public_path
  auth_middleware next now r =
      if is_public_path r.path || authenticated now r then next r else authentication_required

  unfoldable pub handler : (Request → Response) → ℕ → Request → Response
  unfolding auth_middleware routes
  handler rest now r = auth_middleware (routes rest now) now r
