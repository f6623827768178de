-- ===== src/Gateway/Router/Tests.antt =====
-- The gateway with no trusted proxies, run on a change of a video by Ann, who also claims to be
-- Eve.
use mathlib.Core.List.Memᴰ
use flowix.Common.{◌≡◌, inl, refl, true, false, none, [], ◌∷◌}
use flowix.Common.Text.{trim_space}
use flowix.Http.{Request, no_headers, header}
use flowix.Auth.{auth_middleware, with_user}
use flowix.Auth.Tests.{access_jwt, ann_request}
use flowix.Gateway.MetaCache.{MetaCache, new_meta_cache}
use flowix.Gateway.HlsToken.{failed}
use flowix.Gateway.ClientIp.{real_ip}
use flowix.Gateway.Cors.{cors}
use flowix.Gateway.RateLimit.{rate_limit}
use flowix.Gateway.Proxy.{direct}
use flowix.Gateway.Tests.{net}
use flowix.Gateway.Router.{
  Route, bearer, metadata, Config, Incoming, with_token, serve, parse_comma_list,
}
use flowix.Gateway.Router.Identity.{Named, serve-Named}

abbrev config : Config net
config = record {
  jwt = access_jwt;
  jwt_secret = "key";
  internal_token = "inner";
  cors_origins = [];
  trusted = [];
  now = 1500000000000;
  bucket = "1";
  eval = λ k. none;
  fetch = λ id. failed;
  single_host = λ t r. r;
}

abbrev patch : Route
patch = record {
  method = "PATCH";
  pattern = "/api/v1/videos/*";
  guard = bearer;
  limited = false;
  target = metadata;
}

abbrev incoming : Incoming
incoming = record {
  request = record ann_request { method = "PATCH"; path = "/api/v1/videos/v1" };
  host = "flowix.example";
  tls = true;
}

abbrev cache : MetaCache
cache = new_meta_cache 10 60 10

-- What the metadata service gets.
abbrev arrived : Request
arrived =
    with_token net config metadata (
      direct net (λ r. r) "flowix.example" true (with_user "ann" (real_ip net [] incoming.request)))

serve-Named_example : Named net config patch incoming.request (header arrived "X-User-Id")
unfolding serve real_ip cors rate_limit auth_middleware direct
serve-Named_example =
    serve-Named net config (λ t r. refl) patch incoming no_headers cache metadata false no_headers
      arrived
      (Memᴰ.tail (
        Memᴰ.tail (
          Memᴰ.tail (
            Memᴰ.tail (
              Memᴰ.tail (
                Memᴰ.tail (
                  Memᴰ.tail (
                    Memᴰ.tail (
                      Memᴰ.tail (
                        Memᴰ.tail (
                          Memᴰ.tail (
                            Memᴰ.tail (
                              Memᴰ.tail (
                                Memᴰ.tail (
                                  Memᴰ.tail (
                                    Memᴰ.tail
                                      (Memᴰ.tail (Memᴰ.tail (Memᴰ.head refl)))))))))))))))))))
      (inl refl) refl

origins : parse_comma_list " a, ,b" ≡ "a" ∷ "b" ∷ []
unfolding parse_comma_list trim_space
origins = refl
