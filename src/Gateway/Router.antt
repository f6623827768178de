-- ===== src/Gateway/Router.antt =====
-- services/gateway/cmd/server/main.go: the gateway's routes, each with its middleware and its
-- upstream. The router (chi) is not modelled: it chooses one of the routes for a request. The
-- routes of health, metrics and documents, which no upstream answers, are left out.
pub mod Identity
mod Tests
use flowix.Common.{
  ℕ, ◌/◌, String, ◌<>◌, Bool, true, false, ◌&&◌, not, Option, none, some, List, [], ◌∷◌, ◌==◌,
  if◌then◌else◌,
}
use flowix.Common.Text.{split, trim_space}
use flowix.Http.{Request, Headers, Step, reply, next, header, set_header}
use flowix.Auth.{auth_middleware, optional_auth}
use flowix.Auth.Token.{Jwt}
use flowix.Gateway.MetaCache.{MetaCache}
use flowix.Gateway.HlsToken.{Fetched, TokenReply, hls_token_handler}
use flowix.Gateway.HlsAuth.{second, Verdict, refused, passed, stamped, hls_auth}
use flowix.Gateway.ClientIp.{Net, IpNet, client_ip, real_ip}
use flowix.Gateway.Cors.{cors}
use flowix.Gateway.RateLimit.{rate_limit}
use flowix.Gateway.Proxy.{direct}

-- The middleware of a route: none, `authMw`, `optAuth` or `hlsAuth`.
pub data Guard : Type 0 where
  anyone bearer optional stream : Guard

pub data Target : Type 0 where
  auth metadata upload vod hls_token : Target

-- A route; the method is "" where it takes any. `limited` tells of `maxBytesMw`.
pub record Route : Type 0 where
  pub method : String
  pub pattern : String
  pub guard : Guard
  pub limited : Bool
  pub target : Target

abbrev route : String → String → Guard → Bool → Target → Route
route m p g l t = record { method = m; pattern = p; guard = g; limited = l; target = t }

abbrev pub routes : List Route
routes =
    route "" "/api/v1/auth" anyone false auth
    ∷ route "" "/api/v1/auth/*" anyone false auth
    ∷ route "POST" "/api/v1/videos/upload" bearer true upload
    ∷ route "POST" "/api/v1/videos/upload/*" bearer true upload
    ∷ route "POST" "/api/v1/videos/presign" bearer false upload
    ∷ route "POST" "/api/v1/videos/complete" bearer false upload
    ∷ route "POST" "/api/v1/videos/{id}/complete" bearer false upload
    ∷ route "GET" "/api/v1/videos/{id}/resumable" bearer false upload
    ∷ route "PUT" "/api/v1/videos/{id}/resumable" bearer true upload
    ∷ route "POST" "/api/v1/videos/multipart" bearer false upload
    ∷ route "GET" "/api/v1/videos/{id}/multipart" bearer false upload
    ∷ route "POST" "/api/v1/videos/{id}/multipart/presign-part" bearer false upload
    ∷ route "POST" "/api/v1/videos/{id}/multipart/complete" bearer false upload
    ∷ route "GET" "/api/v1/videos/{id}/hls-token" bearer false hls_token
    ∷ route "GET" "/api/v1/videos" optional false metadata
    ∷ route "GET" "/api/v1/videos/*" optional false metadata
    ∷ route "POST" "/api/v1/videos" bearer false metadata
    ∷ route "POST" "/api/v1/videos/" bearer false metadata
    ∷ route "PATCH" "/api/v1/videos/*" bearer false metadata
    ∷ route "DELETE" "/api/v1/videos/*" bearer false metadata
    ∷ route "PUT" "/api/v1/videos/*" bearer false metadata
    ∷ route "" "/hls/*" stream false vod
    ∷ []

abbrev kept : List String → List String
unfolding trim_space
kept [] = []
kept (p ∷ ps) = let rest = kept ps in if not (trim_space p == "") then trim_space p ∷ rest else rest

-- `parseCommaList`; 44 is the comma.
unfoldable pub parse_comma_list : String → List String
unfolding kept split
parse_comma_list s = kept (split 44 s)

-- `routerConfig`, with what the middleware takes from outside: the clock in nanoseconds, the token
-- library, the number of the rate limit's window and the script's result for a key, and the lookups
-- of the metadata service.
pub record Config (net : Net) : Type 0 where
  pub jwt : Jwt
  pub jwt_secret : String
  pub internal_token : String
  pub cors_origins : List String
  pub trusted : List (IpNet net)
  pub now : ℕ
  pub bucket : String
  pub eval : String → Option Bool
  pub fetch : String → Fetched
  pub single_host : Target → Request → Request

-- What the client sent, with the host it asked for and whether it came by TLS.
pub record Incoming : Type 0 where
  pub request : Request
  pub host : String
  pub tls : Bool

-- The gateway answers by itself, lets the handler of stream tokens answer, or sends a request to an
-- upstream, its body limited or not, and with these response headers set.
pub data Outcome : Type 0 where
  answered : ℕ → Headers → String → Outcome
  token_reply : TokenReply → Outcome
  forwarded : Target → Bool → Headers → Request → Outcome

abbrev step_of : Headers → Verdict → Step
step_of w (refused code body) = reply code w body
step_of w (passed r) = next w r
step_of w (stamped vis r) = next w r

module _ (net : Net) (cfg : Config net) where
  -- The rate limit behind the CORS middleware.
  abbrev pub limited_by : Step → Step
  unfolding rate_limit
  limited_by (reply code w body) = reply code w body
  limited_by (next w r) = rate_limit cfg.eval (client_ip net r cfg.trusted) cfg.bucket w r

  -- The middleware of all routes that can change or answer a request.
  abbrev pub common : Headers → Request → Step
  unfolding real_ip cors limited_by
  common w r = limited_by (cors cfg.cors_origins [] [] w (real_ip net cfg.trusted r))

  abbrev stream_checked : Headers → Verdict × MetaCache → Step × MetaCache
  stream_checked w (v, c) = (step_of w v, c)

  abbrev pub checked : Guard → Headers → Request → MetaCache → Step × MetaCache
  unfolding auth_middleware optional_auth hls_auth
  checked anyone w r c = (next w r, c)
  checked bearer w r c = (auth_middleware cfg.jwt (cfg.now / second) cfg.jwt_secret w r, c)
  checked optional w r c = (optional_auth cfg.jwt (cfg.now / second) cfg.jwt_secret w r, c)
  checked stream w r c = stream_checked w (hls_auth cfg.jwt cfg.now cfg.jwt_secret cfg.fetch r c)

  -- The `Director` of an upstream; those of metadata and vod also set the internal token.
  abbrev pub with_token : Target → Request → Request
  with_token metadata r =
      if not (cfg.internal_token == "")
      then set_header "X-Internal-Token" cfg.internal_token r
      else r
  with_token vod r =
      if not (cfg.internal_token == "")
      then set_header "X-Internal-Token" cfg.internal_token r
      else r
  with_token t r = r

  abbrev pub sent : Target → Bool → String → Bool → Headers → Request → Outcome
  unfolding hls_token_handler direct
  sent hls_token limited host tls w r =
      token_reply (hls_token_handler cfg.jwt (cfg.now / second) cfg.jwt_secret cfg.fetch r)
  sent t limited host tls w r =
      forwarded t limited w (with_token t (direct net (cfg.single_host t) host tls r))

  abbrev pub dispatch : Route → Incoming → Step × MetaCache → Outcome × MetaCache
  unfolding sent
  dispatch rt i (reply code w body, c) = (answered code w body, c)
  dispatch rt i (next w r, c) = (sent rt.target rt.limited i.host i.tls w r, c)

  abbrev pub routed : Route → Incoming → Step → MetaCache → Outcome × MetaCache
  unfolding dispatch checked
  routed rt i (reply code w body) c = (answered code w body, c)
  routed rt i (next w r) c = dispatch rt i (checked rt.guard w r c)

  -- A request on a route of `newRouter`.
  unfoldable pub serve : Route → Headers → Incoming → MetaCache → Outcome × MetaCache
  unfolding common routed
  serve rt w i c = routed rt i (common w i.request) c
