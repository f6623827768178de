-- ===== src/Gateway/Proxy.antt =====
-- services/gateway/internal/proxy/proxy.go: what the gateway changes in a request, in the
-- upstream's response, and what it answers if the upstream fails. `httputil.ReverseProxy` is not
-- modelled; the `Director` that `NewSingleHostReverseProxy` makes is a parameter.
pub mod Forwarding
use flowix.Common.{
  ℕ, ◌+◌, String, ◌<>◌, Bool, true, false, ◌&&◌, not, Option, none, some, List, [], ◌∷◌, ◌==◌,
  if◌then◌else◌,
}
use flowix.Common.Text.{contains, has_prefix, trim_prefix}
use flowix.Http.{Request, Headers, Step, header, set, set_header, del, http_error}
use flowix.Gateway.ClientIp.{Net, remote_host}

-- The request id is set to itself, under one name.
abbrev pub keep_id : Request → Request
keep_id r =
    if not (header r "X-Request-Id" == "")
    then set_header "X-Request-Id" (header r "X-Request-Id") r
    else r

module _ (net : Net) where
  abbrev pub chained : String → String → Request → Request
  unfolding contains
  chained host xff r =
      if not (xff == "")
      then if not (contains xff host)
        then set_header "X-Forwarded-For" (xff <> ", " <> host) r
        else r
      else set_header "X-Forwarded-For" host r

  abbrev pub forward_for : String → Request → Request
  forward_for host r = if not (host == "") then chained host (header r "X-Forwarded-For") r else r

  abbrev pub forward_proto : Bool → Request → Request
  forward_proto true r = set_header "X-Forwarded-Proto" "https" r
  forward_proto false r =
      if header r "X-Forwarded-Proto" == "" then set_header "X-Forwarded-Proto" "http" r else r

  -- The `Director` of `New`, for the host that the client asked for and whether it came by TLS.
  unfoldable pub direct : (Request → Request) → String → Bool → Request → Request
  unfolding remote_host
  direct single_host host tls r =
      let q = keep_id (keep_id (set_header "X-Forwarded-Host" host (single_host r))) in
      forward_proto tls (forward_for (remote_host net q) q)

  abbrev path_or_root : String → String
  path_or_root p = if p == "" then "/" else p

  -- The `Director` of `NewWithPrefix`.
  unfoldable pub direct_with_prefix :
      (Request → Request) → String → String → Bool → Request → Request
  unfolding direct has_prefix trim_prefix
  direct_with_prefix single_host prefix host tls r =
      let q = direct single_host host tls r in
      if prefix == ""
      then q
      else if has_prefix q.path prefix
      then record q { path = path_or_root (trim_prefix q.path prefix) }
      else q

-- The headers that `ModifyResponse` deletes.
abbrev pub dropped_headers : List String
dropped_headers =
    "Access-Control-Allow-Origin" ∷ "Access-Control-Allow-Credentials"
    ∷ "Access-Control-Allow-Methods" ∷ "Access-Control-Allow-Headers"
    ∷ "Access-Control-Expose-Headers" ∷ "Access-Control-Max-Age" ∷ "Vary" ∷ "X-Request-Id" ∷ []

abbrev drop_all : List String → Headers → Headers
drop_all [] h = h
drop_all (k ∷ ks) h = drop_all ks (del k h)

-- `ModifyResponse`
unfoldable pub modify_response : Headers → Headers
modify_response h = drop_all dropped_headers h

-- What a round trip may fail with: the body was larger than its limit, given as a number in print,
-- or anything else.
pub data ProxyError : Type 0 where
  too_large : String → ProxyError
  unreachable : ProxyError

-- `ErrorHandler`
unfoldable pub handle_error : Headers → ProxyError → Step
unfolding http_error
handle_error w (too_large limit) =
    http_error w ("{\"error\":\"file too large (max " <> limit <> " bytes)\"}") 413
handle_error w unreachable =
    http_error (set "Content-Type" "application/json; charset=utf-8" w)
      "{\"error\":\"upstream unavailable\"}" 502
