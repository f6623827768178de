-- ===== src/Pkg/Logger.antt =====
-- pkg/middleware/logger.go: the request log. Go's `net` package is a parameter, as in the gateway.
use flowix.Common.{
  ℕ, ◌≡◌, String, Bool, true, false, ◌&&◌, not, Option, none, some, List, [], ◌∷◌, ◌==◌, leb, arith,
  if◌then◌else◌,
}
use flowix.Common.Text.{trim_space}
use flowix.Http.{Request, Headers, header, set, set_header}
use flowix.Gateway.ClientIp.{Net, IpNet}
use flowix.Gateway.ClientIp

pub data Level : Type 0 where
  info warn error : Level

-- What a line of the log says, without the duration.
pub record Line : Type 0 where
  pub level : Level
  pub method : String
  pub path : String
  pub status : ℕ
  pub ip : String
  pub trace_id : String
  pub service : String

-- `respWriter`: the status after calls of `WriteHeader` with these codes.
unfoldable pub status_after : ℕ → List ℕ → ℕ
status_after status [] = status
status_after status (code ∷ codes) = status_after code codes

abbrev level_of : ℕ → Level
level_of status = if leb 500 status then error else if leb 400 status then warn else info

-- The id of the request: chi's, or else a header's.
unfoldable pub request_id : String → Request → String
request_id chi_id r =
    if not (chi_id == "")
    then chi_id
    else if not (header r "X-Request-Id" == "")
    then header r "X-Request-Id"
    else header r "X-Correlation-Id"

module _ (net : Net) where
  abbrev is_ip : Option net.Ip → Bool
  is_ip none = false
  is_ip (some ip) = true

  abbrev host_or : String → Option (String × String) → String
  host_or addr none = addr
  host_or addr (some (host, port)) = host

  -- `ClientIP`
  unfoldable pub logged_ip : Request → String
  unfolding trim_space
  logged_ip r =
      let xri = trim_space (header r "X-Real-Ip") in
      if not (xri == "") && is_ip (net.parse_ip xri)
      then xri
      else host_or r.remote_addr (net.split_host_port r.remote_addr)

  abbrev tag_headers : String → Headers → Headers
  tag_headers id w = if not (id == "") then set "X-Request-Id" id w else w

  abbrev tag_request : String → Request → Request
  tag_request id r = if not (id == "") then set_header "X-Request-Id" id r else r

  -- `RequestLogger`: the headers and the request that the next handler gets, and the line once it
  -- has called `WriteHeader` with some codes.
  unfoldable pub request_logger :
      String → String → Headers → Request → Headers × Request × (List ℕ → Line)
  unfolding request_id status_after logged_ip
  request_logger service chi_id w r =
      let id = request_id chi_id r in
      (
        tag_headers id w,
        tag_request id r,
        λ codes. record {
          level = level_of (status_after 200 codes);
          method = r.method;
          path = r.path;
          status = status_after 200 codes;
          ip = logged_ip (tag_request id r);
          trace_id = id;
          service = service;
        },
      )

  -- The port that the gateway's check keeps.
  abbrev pub port_of : Request → String
  port_of r = ClientIp.port_or net (net.split_host_port r.remote_addr)

  -- Behind the gateway's check of the client's address, the log names the address that the check
  -- took, if it has no white space around it and is what splitting it, joined with the port, gives.
  pub logged_ip_of_real_ip :
      (trusted : List (IpNet net)) (r : Request)
      → net.split_host_port (net.join_host_port (ClientIp.client_ip net r trusted) (port_of r))
        ≡ some (ClientIp.client_ip net r trusted, port_of r)
      → trim_space (ClientIp.client_ip net r trusted) ≡ ClientIp.client_ip net r trusted
      → logged_ip (ClientIp.real_ip net trusted r) ≡ ClientIp.client_ip net r trusted
  unfolding logged_ip ClientIp.real_ip
  logged_ip_of_real_ip trusted r inverse plain = rw (plain, inverse) (ground arith)
