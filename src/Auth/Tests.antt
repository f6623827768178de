-- ===== src/Auth/Tests.antt =====
-- A token library with two tokens, and the checks of identity run on them.
use flowix.Common.{◌≡◌, refl, sym, differ, String, ◌<>◌, ◌&&◌, none, some, ◌==◌, ltb, if◌then◌else◌}
use flowix.Common.Text.Prefix.{has_prefix-append, ne-nil_of_has_prefix}
use flowix.Http.{Request, no_headers, next, set}
use flowix.Auth.{auth_middleware, with_user}
use flowix.Auth.Token.{Claims, Jwt, accepted, rejected}
use flowix.Auth.Identity.{HasAccessToken, auth_middleware_of_token, auth_middleware_sound}

abbrev pub ann_access : Claims
ann_access = record {
  text = λ k. if k == "sub" then "ann" else if k == "type" then "access" else "";
  exp = 2000;
  iat = 1100;
}

-- The one access token is "tok", signed with "key".
abbrev pub access_jwt : Jwt
access_jwt = record {
  parse = λ now secret t.
      if t == "tok" && ltb now 2000 && secret == "key"
      then accepted (some ann_access)
      else rejected;
  sign = λ secret c. none;
}

-- A request with that token, and with a user id that the client made up.
abbrev pub ann_request : Request
ann_request = record {
  method = "GET";
  path = "/api/v1/videos";
  headers = set "Authorization" "Bearer tok" (set "X-User-Id" "eve" no_headers);
  query = λ _. "";
  param = λ _. "";
  remote_addr = "192.0.2.1:5000";
  user = "";
}

abbrev pub bare_request : Request
bare_request = record ann_request { headers = set "X-User-Id" "eve" no_headers }

pub ann_token : HasAccessToken access_jwt 1500 "key" ann_request "ann"
ann_token = record {
  token = "tok";
  claims = ann_access;
  sent = refl;
  valid = refl;
  is_access = refl;
  subject = refl;
  named = differ "ann" "" refl;
}

ann_passes :
    auth_middleware access_jwt 1500 "key" no_headers ann_request
    ≡ next no_headers (with_user "ann" ann_request)
unfolding auth_middleware
ann_passes = refl

auth_middleware_of_token_example :
    auth_middleware access_jwt 1500 "key" no_headers ann_request
    ≡ next no_headers (with_user "ann" ann_request)
auth_middleware_of_token_example =
    auth_middleware_of_token access_jwt 1500 "key" no_headers ann_request "ann" ann_token

auth_middleware_sound_example :
    (sub : String) × HasAccessToken access_jwt 1500 "key" ann_request sub
    × (with_user "ann" ann_request ≡ with_user sub ann_request)
auth_middleware_sound_example =
    auth_middleware_sound access_jwt 1500 "key" no_headers no_headers ann_request
      (with_user "ann" ann_request) ann_passes

no_bare_token : (sub : String) → ¬ HasAccessToken access_jwt 1500 "key" bare_request sub
no_bare_token sub h =
    ne-nil_of_has_prefix ("Bearer " <> h.token) "Bearer " (differ "Bearer " "" refl)
      (has_prefix-append "Bearer " h.token) (sym h.sent)
