-- ===== src/Gateway/Tests.antt =====
-- The gateway run on a private video of Ann's, with a token library that signs her stream token.
use flowix.Common.{
  ℕ, ◌≤◌, ◌/◌, ◌<◌, ◌≡◌, ◌≢◌, ◌↔◌, ◌⊎◌, inr, refl, differ, String, ◌<>◌, Bool, true, false, ◌&&◌,
  ◌||◌, none, some, List, [], ◌∷◌, ◌==◌, eq_iff, eqb, ltb, arith, if◌then◌else◌,
}
use flowix.Common.Text.{split}
use flowix.Http.{Request, next, no_headers, set}
use flowix.Auth.{auth_middleware, with_user}
use flowix.Auth.Token.{Claims, Jwt, IsLawful, accepted, rejected}
use flowix.Auth.Identity.{HasAccessToken}
use flowix.Auth.Tests.{access_jwt, ann_access, ann_request}
use flowix.Gateway.VideoId.{extract_video_id}
use flowix.Gateway.MetaCache.{VideoMeta, Entry, MetaCache, new_meta_cache, get, put}
use flowix.Gateway.MetaCache.Invariant.{IsValid, new_meta_cache-IsValid}
use flowix.Gateway.HlsToken.{
  Fetched, found, status_error, hls_token_handler, hls_token_ttl, hls_claims, generate_hls_token,
  validate_hls_token, validate_access_token, requested_id,
}
use flowix.Gateway.HlsToken.Laws.{
  validate_access_token-auth_middleware, validate-generate, hls_token_handler_issues,
}
use flowix.Gateway.HlsAuth.{of_entry, remember, hls_auth, get_meta, second, stamped, refused}
use flowix.Gateway.HlsAuth.Access.{MayWatch, hls_auth_private_sound, hls_auth_private_complete}
use flowix.Gateway.HlsAuth.Concurrent.{
  Shared, Reachable, start, step, miss, answer, store, Said, get-Said,
}
use flowix.Gateway.ClientIp.{Net, IpNet, scan, rightmost_untrusted}
use flowix.Gateway.ClientIp.Forged.{rightmost_untrusted_of_forged}
use flowix.Gateway.RateLimit.{window_of}
use flowix.Gateway.RateLimit.Client.{Arrival, passed, passed-le-limit_of}
use flowix.Common.Int.{pos}

abbrev video_id : String
video_id = "0a1b2c3d-0000-4000-8000-00000000000f"

abbrev ann_video : VideoMeta
ann_video = record { id = video_id; owner_id = "ann"; visibility = "private"; status = "ready" }

abbrev fetch : String → Fetched
fetch id = if id == video_id then found ann_video else status_error 404

abbrev watch : Request
watch = record ann_request { path = "/hls/" <> video_id <> "/master.m3u8" }

abbrev now : ℕ
now = 1500000000000

abbrev cache : MetaCache
cache = new_meta_cache 2 100 50

cache-IsValid : IsValid cache
cache-IsValid = new_meta_cache-IsValid 2 100 50

watched : HasAccessToken access_jwt (now / second) "key" watch "ann"
watched = record {
  token = "tok";
  claims = ann_access;
  sent = refl;
  valid = refl;
  is_access = refl;
  subject = refl;
  named = differ "ann" "" refl;
}

asked : extract_video_id watch.path ≢ ""
unfolding extract_video_id
asked = differ video_id "" refl

looked_up : (get_meta now fetch (extract_video_id watch.path) cache).0 ≡ found ann_video
unfolding extract_video_id get_meta get
looked_up = refl

let_through :
    (r' : Request) × ((hls_auth access_jwt now "key" fetch watch cache).0 ≡ stamped "private" r')
let_through =
    hls_auth_private_complete access_jwt now "key" fetch watch cache ann_video asked looked_up
      (differ "private" "" refl) (differ "private" "public" refl) (differ "private" "unlisted" refl)
      (inr watched)

not_forbidden :
    (hls_auth access_jwt now "key" fetch watch cache).0
    ≢ refused 403 "{\"error\":\"forbidden: private video\"}"
not_forbidden = λ e. let (r, q) = let_through in ground arith

hls_auth_private_complete_example :
    (r' : Request) × ((hls_auth access_jwt now "key" fetch watch cache).0 ≡ stamped "private" r')
hls_auth_private_complete_example =
    hls_auth_private_complete access_jwt now "key" fetch watch cache ann_video asked looked_up
      (differ "private" "" refl) (differ "private" "public" refl) (differ "private" "unlisted" refl)
      (inr watched)

hls_auth_private_sound_example :
    MayWatch access_jwt now "key" ann_video (extract_video_id watch.path) watch
hls_auth_private_sound_example =
    hls_auth_private_sound access_jwt now "key" fetch watch cache ann_video asked looked_up
      (differ "private" "" refl) (differ "private" "public" refl) (differ "private" "unlisted" refl)
      not_forbidden

validate_access_token-auth_middleware_example :
    (validate_access_token access_jwt 1500 "key" ann_request ≡ some "ann") ↔ (
      auth_middleware access_jwt 1500 "key" no_headers ann_request
      ≡ next no_headers (with_user "ann" ann_request))
validate_access_token-auth_middleware_example =
    validate_access_token-auth_middleware access_jwt 1500 "key" no_headers ann_request "ann"

-- A library that signs one stream token, "stream", at the time 1000.
abbrev is_stream : String → Claims → Bool
is_stream secret c =
    secret == "key"
    && c.text "type" == "hls"
    && c.text "video_id" == video_id
    && c.text "sub" == "ann"
    && eqb c.exp 1900

abbrev hls_jwt : Jwt
hls_jwt = record {
  parse = λ t secret token.
      if token == "stream" && secret == "key" && ltb t 1900
      then accepted (some (hls_claims 1000 video_id "ann"))
      else rejected;
  sign = λ secret c. if is_stream secret c then some "stream" else none;
}

signed_stream :
    (b : Bool) (token : String)
    → (if b then some "stream" else none) ≡ some token
    → (b ≡ true) × (token ≡ "stream")
signed_stream true token h = (refl, ground arith)
signed_stream false token h = absurd (ground arith)

stream_parses :
    (t : ℕ) (secret token : String) (c : Claims)
    → is_stream secret c ≡ true
    → token ≡ "stream"
    → t < c.exp
    → hls_jwt.parse t secret token ≡ accepted (some (hls_claims 1000 video_id "ann"))
stream_parses t secret token c e q k =
    let f : (token == "stream" && secret == "key" && ltb t 1900) ≡ true =
      ground (arith, eq_iff token "stream") in
    rw f refl

hls_jwt-IsLawful : IsLawful hls_jwt
hls_jwt-IsLawful = record {
  parse-sign = λ t secret token c h k.
      let (e, q) = signed_stream (is_stream secret c) token h in
      (
        hls_claims 1000 video_id "ann",
        stream_parses t secret token c e q k,
        ground (arith, e, eq_iff (c.text "type") "hls"),
        ground (arith, e, eq_iff (c.text "video_id") video_id),
        ground (arith, e, eq_iff (c.text "sub") "ann"),
      );
}

validate-generate_example : validate_hls_token hls_jwt 1899 "key" "stream" video_id ≡ some "ann"
unfolding generate_hls_token
validate-generate_example =
    validate-generate hls_jwt 1000 "key" hls_jwt-IsLawful 1899 video_id "ann" "stream"
      (differ video_id "" refl) refl (omega arith)

abbrev asks : Request
asks = record ann_request { user = "ann"; param = λ k. if k == "id" then video_id else "" }

hls_token_handler_issues_example :
    (meta : VideoMeta) × (fetch (requested_id asks) ≡ found meta)
    × (900 ≡ hls_token_ttl)
    × ((asks.user ≡ meta.owner_id) ⊎ HasAccessToken hls_jwt 1000 "key" asks meta.owner_id)
    × (validate_hls_token hls_jwt 1899 "key" "stream" (requested_id asks) ≡ some meta.owner_id)
unfolding hls_token_handler generate_hls_token requested_id
hls_token_handler_issues_example =
    hls_token_handler_issues hls_jwt 1000 "key" hls_jwt-IsLawful fetch asks "stream"
      ("/hls/" <> video_id <> "/master.m3u8?token=stream") 900 1899 refl (omega arith)

-- One request missed, was answered, and its answer was written.
abbrev stored : Shared
stored = record {
  cache = remember 5 video_id (get 5 video_id cache).1 (found ann_video);
  waiting = [];
  answered = [];
  said = (video_id, found ann_video) ∷ [];
}

stored-Reachable : Reachable 2 100 50 stored
unfolding get
stored-Reachable =
    step (step (step start (miss 5 video_id refl)) (answer [] [] video_id (found ann_video) refl))
      (store 5 [] [] video_id (found ann_video) refl)

abbrev kept_entry : Entry
kept_entry = record { key = video_id; meta = some ann_video; err_status = 0; expires = 105 }

get-Said_example :
    IsValid stored.cache
    × (90 ≤ kept_entry.expires)
    × Said video_id (of_entry kept_entry kept_entry.meta) stored.said
unfolding get put remember
get-Said_example = get-Said stored 90 video_id kept_entry stored-Reachable refl

-- Addresses are their own text; the proxies are in one network of two addresses.
abbrev pub net : Net
net = record {
  Ip = String;
  parse_ip = λ s.
      if s == "10.0.0.1" || s == "10.0.0.2" || s == "192.0.2.7" || s == "1.1.1.1"
      then some s
      else none;
  shown = λ s. s;
  split_host_port = λ s. some (s, "80");
  join_host_port = λ h p. h <> ":" <> p;
}

abbrev proxies : List (IpNet net)
proxies = (λ s. s == "10.0.0.1" || s == "10.0.0.2") ∷ []

rightmost_untrusted_of_forged_example :
    (rightmost_untrusted net proxies ("1.1.1.1" <> "," <> "192.0.2.7, 10.0.0.2")
      ≡ rightmost_untrusted net proxies "192.0.2.7, 10.0.0.2")
    × (rightmost_untrusted net proxies "192.0.2.7, 10.0.0.2" ≡ "192.0.2.7")
unfolding scan split
rightmost_untrusted_of_forged_example =
    rightmost_untrusted_of_forged net proxies "1.1.1.1" "192.0.2.7, 10.0.0.2" "192.0.2.7" refl

abbrev direct : Request
direct = record ann_request { remote_addr = "192.0.2.7" }

abbrev forging : Request
forging = record direct { headers = set "X-Forwarded-For" "1.1.1.1" no_headers }

abbrev from_app : Request
from_app = record ann_request { headers = set "Origin" "https://app.example" no_headers }

-- Two requests and a probe in the window with the number 7.
abbrev from_ann : String → ℕ → Arrival
from_ann path t = record { time = t; headers = no_headers; request = record direct { path = path } }

passed-le-limit_of_example :
    passed
      (pos 20)
      (pos 2)
      (λ n. "7")
      "192.0.2.7"
      (λ key. none)
      (from_ann "/api" 7000 ∷ from_ann "/health" 7001 ∷ from_ann "/api" 7999 ∷ [])
    ≤ 2
unfolding window_of
passed-le-limit_of_example =
    passed-le-limit_of (pos 20) (pos 2) (λ n. "7") "192.0.2.7" 7 (λ key. none)
      (from_ann "/api" 7000 ∷ from_ann "/health" 7001 ∷ from_ann "/api" 7999 ∷ [])
      (refl, (refl, (refl, tt))) refl
