-- ===== src/Server/Tests.antt =====
-- The theorems about the server at concrete requests. The signature is a toy one without dots: it
-- writes each byte as a letter.
use newapi_usage.Prelude.{
  ℕ, ◌%◌, ◌+◌, ◌<◌, true, false, Text, codes, text_eq, trim_space, is_blank, List, [], ◌∷◌, ◌++◌,
  length, Option, none, some, ℤ, pos, contains_char, All, ◌≡◌, refl, ◌↔◌, ◌⊎◌, arith, split,
  decimal, format_int, is_space, parse_int,
}
use newapi_usage.Server.Session.{Crypto, dot, sign_session, valid_session}
use newapi_usage.Server.Session.RoundTrip.{IsLive, valid_session-IsLive}
use newapi_usage.Server.Auth.{
  Request, Response, write_json, page, routes, handler, handle_auth_login, authentication_required,
  is_public_path,
}
use newapi_usage.Server.Auth.Login.{login-serves, handler-guarded, session_from}
use newapi_usage.Server.SelfKey.{TokenRow, token_key_candidates, resolve_self_key}
use newapi_usage.Server.SelfKey.Known.{Found, Unknown, NotBlank, resolve_self_key-Found}

abbrev letters : List ℕ → Text
letters [] = []
letters (b ∷ bs) = (97 + b % 26) ∷ letters bs

abbrev toy : Crypto
toy = record {
  hmac_sha256 = λ key message. key ++ message;
  raw_url_base64 = letters;
  sha256 = λ message. message;
}

toy_no_dot : (bs : List ℕ) → contains_char dot (toy.raw_url_base64 bs) ≡ false
unfolding contains_char
toy_no_dot [] = refl
toy_no_dot (b ∷ bs) = ground (arith, toy_no_dot bs)

abbrev secret : Text
secret = codes "secret"

abbrev session_100 : Text
session_100 = sign_session toy secret (pos 100)

-- A session until 100 is accepted at 99 and refused at 100; so is one with another time.
valid_before : valid_session toy secret (pos 99) session_100 ≡ true
unfolding valid_session split format_int decimal parse_int text_eq
valid_before = refl

invalid_after : valid_session toy secret (pos 100) session_100 ≡ false
unfolding valid_session split format_int decimal parse_int
invalid_after = refl

invalid_forged : valid_session toy secret (pos 99) (codes "101.aaaaaa") ≡ false
unfolding valid_session split parse_int text_eq format_int decimal
invalid_forged = refl

abbrev request : Text → Option Text → Request
request path session = record {
  method = codes "POST";
  path = path;
  session = session;
  body = codes "secret";
  tls = false;
  forwarded_proto = codes "HTTPS";
}

abbrev serve_page : Request → Response
serve_page r = write_json 200 (page r.path)

valid_session-IsLive_example :
    (valid_session toy secret (pos 99) session_100 ≡ true)
    ↔ ((t : ℤ) × IsLive toy secret (pos 99) session_100 t)
valid_session-IsLive_example = valid_session-IsLive toy secret (pos 99) session_100 toy_no_dot

login-serves_example :
    handler toy some secret serve_page 20
      (request (codes "/api/logs") (some (session_from toy some secret 10)))
    ≡ serve_page (request (codes "/api/logs") (some (session_from toy some secret 10)))
unfolding handle_auth_login is_public_path routes
login-serves_example =
    login-serves toy some secret serve_page 10 20 (request (codes "/api/auth/login") none)
      (request (codes "/api/logs") (some (session_from toy some secret 10))) (codes "secret")
      toy_no_dot (omega arith) refl refl refl refl refl

handler-guarded_example :
    let r = request (codes "/api/logs") (some session_100) in
    (handler toy some secret serve_page 50 r ≡ authentication_required)
    ⊎ ((value : Text) × (t : ℤ) × (r.session ≡ some value)
        × IsLive toy secret (pos 50) value t
        × (handler toy some secret serve_page 50 r ≡ routes toy some secret serve_page 50 r))
unfolding is_public_path
handler-guarded_example =
    handler-guarded toy some secret serve_page 50 (request (codes "/api/logs") (some session_100))
      toy_no_dot refl

abbrev tokens : List TokenRow
tokens = record { id = 3; name = some (codes "ci"); key = codes "abc" } ∷ []

-- The prefixes are taken off.
resolve_bearer :
    resolve_self_key tokens (codes " Bearer sk-abc ")
    ≡ some (record { token_id = 3; name = codes "ci"; key_tail = codes "abc" })
unfolding resolve_self_key is_space
resolve_bearer = refl

resolve_self_key-Found_example :
    let cs = token_key_candidates (trim_space (codes "sk-abc")) in
    (Found tokens cs (resolve_self_key tokens (codes "sk-abc")) × All NotBlank cs)
    ⊎ ((resolve_self_key tokens (codes "sk-abc") ≡ none)
        × ((is_blank (trim_space (codes "sk-abc")) ≡ true)
            ⊎ ((512 < length (trim_space (codes "sk-abc"))) ⊎ All (Unknown tokens) cs)))
resolve_self_key-Found_example = resolve_self_key-Found tokens (codes "sk-abc")
