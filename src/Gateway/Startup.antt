-- ===== src/Gateway/Startup.antt =====
-- services/gateway/cmd/server/main.go: what `main` reads from the environment. The libraries for
-- addresses, URLs and Redis are parameters.
use flowix.Common.{
  ◌≡◌, arith, ℕ, String, Bool, ltb, Option, none, some, List, ◌==◌, not, if◌then◌else◌,
}
use flowix.Common.Int.{ℤ, pos, negsuc}
use flowix.Common.Strconv.{atoi}
use flowix.Pkg.Env.{Getenv, require_env, env_or}
use flowix.Gateway.ClientIp.{Net, IpNet, parse_trusted_cidrs}
use flowix.Gateway.Router.{parse_comma_list}

-- What belongs to libraries: `To4` of an address, `ParseCIDR`, Redis's `ParseURL`, and whether
-- `url.Parse` takes a text.
pub record Libraries (net : Net) (R : Type 0) : Type 0 where
  pub is_v4 : net.Ip → Bool
  pub parse_cidr : String → Option (IpNet net)
  pub parse_redis : String → Option R
  pub is_url : String → Bool

-- `routerConfig`, with the port.
pub record Startup (net : Net) (R : Type 0) : Type 0 where
  pub port : String
  pub jwt_secret : String
  pub internal_token : String
  pub upload_max_bytes : ℕ
  pub auth_url : String
  pub metadata_url : String
  pub upload_url : String
  pub vod_url : String
  pub cors_origins : List String
  pub trusted : List (IpNet net)
  pub rdb : Option R

abbrev max_from : Option ℤ → ℕ
max_from none = 5368709120
max_from (some (negsuc n)) = 5368709120
max_from (some (pos n)) = if ltb 0 n then n else 5368709120

-- The limit on bodies: 5 GB, or what UPLOAD_MAX_BYTES says (`ParseInt` of base 10 is `Atoi`).
unfoldable pub upload_max_bytes_of : Getenv → ℕ
unfolding atoi
upload_max_bytes_of env =
    if not (env "UPLOAD_MAX_BYTES" == "")
    then max_from (atoi (env "UPLOAD_MAX_BYTES"))
    else 5368709120

-- The address of the auth service, with the old default put right.
unfoldable pub auth_url_of : Getenv → String
unfolding env_or
auth_url_of env =
    let url = env_or env "AUTH_URL" "http://auth:8001" in
    if url == "http://auth:8000" then "http://auth:8001" else url

module _ {net : Net} {R : Type 0} (lib : Libraries net R) (env : Getenv) where
  -- No Redis, or the client; `none` where the process ends.
  abbrev redis_of : Option (Option R)
  redis_of =
      if not (env "REDIS_URL" == "")
      then elim (lib.parse_redis (env "REDIS_URL")) [ none ↦ none | some c ↦ some (some c) ]
      else some none

  abbrev configured :
      Option String
      → Option String
      → Option (List (IpNet net))
      → Option (Option R)
      → Option (Startup net R)
  unfolding upload_max_bytes_of auth_url_of env_or parse_comma_list
  configured (some secret) (some token) (some trusted) (some rdb) = some (record {
    port = env_or env "GATEWAY_PORT" "8080";
    jwt_secret = secret;
    internal_token = token;
    upload_max_bytes = upload_max_bytes_of env;
    auth_url = auth_url_of env;
    metadata_url = env_or env "METADATA_URL" "http://metadata:8002";
    upload_url = env_or env "UPLOAD_URL" "http://upload:8003";
    vod_url = env_or env "VOD_URL" "http://nginx-vod:80";
    cors_origins = parse_comma_list (env "CORS_ALLOWED_ORIGINS");
    trusted = trusted;
    rdb = rdb;
  })
  configured _ _ _ _ = none

  abbrev if_urls : Option (Startup net R) → Option (Startup net R)
  if_urls none = none
  if_urls (some c) =
      if lib.is_url c.auth_url
      then if lib.is_url c.metadata_url
        then if lib.is_url c.upload_url then if lib.is_url c.vod_url then some c else none else none
        else none
      else none

  -- `main` up to the server, with the URLs that `mustParseURL` takes; `none` where the process
  -- ends.
  unfoldable pub start : Option (Startup net R)
  unfolding configured require_env parse_trusted_cidrs env_or
  start = if_urls (
      configured (require_env env "JWT_SECRET") (require_env env "INTERNAL_TOKEN")
        (parse_trusted_cidrs net lib.is_v4 lib.parse_cidr (env_or env "TRUSTED_PROXY_CIDRS" ""))
        redis_of)

  if_urls-eq-some :
      (o : Option (Startup net R)) (c : Startup net R) → if_urls o ≡ some c → o ≡ some c
  if_urls-eq-some none c h = h
  if_urls-eq-some (some x) c h = ground arith

  configured-secrets :
      (s t : Option String) (ns : Option (List (IpNet net))) (r : Option (Option R))
      (c : Startup net R)
      → configured s t ns r ≡ some c
      → (s ≡ some c.jwt_secret) × (t ≡ some c.internal_token)
  unfolding configured
  configured-secrets (some s) (some t) (some ns) (some r) c h =
      let same = h in (ground arith, ground arith)
  configured-secrets none t ns r c h = cc
  configured-secrets (some s) none ns r c h = cc
  configured-secrets (some s) (some t) none r c h = cc
  configured-secrets (some s) (some t) (some ns) none c h = cc

  -- A gateway that starts has the secrets that its environment requires.
  pub start-secrets :
      (c : Startup net R)
      → start ≡ some c
      → (require_env env "JWT_SECRET" ≡ some c.jwt_secret)
        × (require_env env "INTERNAL_TOKEN" ≡ some c.internal_token)
  unfolding start
  start-secrets c h = configured-secrets _ _ _ _ c (if_urls-eq-some _ c h)
