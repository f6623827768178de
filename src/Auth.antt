-- ===== src/Auth.antt =====
-- pkg/middleware/auth.go, with the token library's `Parse` as a parameter, and the internal-token
-- check of services/metadata/internal/middleware/internal.go.
pub mod Token
pub mod Identity
pub mod Tests
use flowix.Common.{ℕ, String, Bool, ◌||◌, not, none, some, ◌==◌, if◌then◌else◌}
use flowix.Common.Text.{has_prefix, trim_prefix}
use flowix.Http.{Request, Headers, Step, next, header, set_header, del, http_error}
use Token.{Jwt, Parsed, rejected, accepted}

-- The request that carries a verified user id, in its context and in X-User-Id.
abbrev pub with_user : String → Request → Request
with_user sub r = set_header "X-User-Id" sub (record r { user = sub })

-- The request without the X-User-Id that the client sent.
abbrev pub anonymous : Request → Request
anonymous r = record r { headers = del "X-User-Id" r.headers }

abbrev pub no_bearer : Request → Bool
no_bearer r =
    header r "Authorization" == "" || not (has_prefix (header r "Authorization") "Bearer ")

abbrev pub bearer : Request → String
bearer r = trim_prefix (header r "Authorization") "Bearer "

module _ (jwt : Jwt) (now : ℕ) (secret : String) where
  check_access : Headers → Request → Parsed → Step
  check_access w r rejected = http_error w "{\"error\":\"invalid token\"}" 401
  check_access w r (accepted none) = http_error w "{\"error\":\"invalid token\"}" 401
  check_access w r (accepted (some c)) =
      if c.text "sub" == ""
      then http_error w "{\"error\":\"invalid token\"}" 401
      else if not (c.text "type" == "access")
      then http_error w "{\"error\":\"invalid token type\"}" 401
      else next w (with_user (c.text "sub") r)

  -- `AuthMiddleware`
  unfoldable pub auth_middleware : Headers → Request → Step
  unfolding check_access http_error has_prefix trim_prefix
  auth_middleware w r =
      if no_bearer r
      then http_error w "{\"error\":\"missing token\"}" 401
      else check_access w r (jwt.parse now secret (bearer r))

  check_optional : Headers → Request → Parsed → Step
  check_optional w r rejected = next w r
  check_optional w r (accepted none) = next w r
  check_optional w r (accepted (some c)) =
      if not (c.text "type" == "access")
      then next w r
      else if not (c.text "sub" == "")
      then next w (with_user (c.text "sub") r)
      else next w r

  -- `OptionalAuth`; the token is read before X-User-Id is removed, from another header.
  unfoldable pub optional_auth : Headers → Request → Step
  unfolding check_optional has_prefix trim_prefix
  optional_auth w r =
      if no_bearer r
      then next w (anonymous r)
      else check_optional w (anonymous r) (jwt.parse now secret (bearer r))

-- `InternalAuth`. The comparison in constant time has the value of `==`.
unfoldable pub internal_auth : String → Headers → Request → Step
unfolding http_error
internal_auth secret w r =
    if secret == ""
    then next w r
    else if not (header r "X-Internal-Token" == secret)
    then http_error w "{\"error\":\"unauthorized internal\"}" 401
    else next w r
