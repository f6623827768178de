-- ===== src/Gateway/ClientIp.antt =====
-- services/gateway/internal/middleware/clientip.go: the client's address behind trusted proxies.
-- Go's `net` package is a parameter.
pub mod Forged
use flowix.Common.{
  String, ◌<>◌, Bool, true, false, ◌&&◌, not, Option, none, some, List, [], ◌∷◌, ◌==◌, any,
  if◌then◌else◌,
}
use flowix.Common.Text.{trim_space, split, contains}
use flowix.Http.{Request, header, set_header}

-- `ParseIP`, `IP.String`, `SplitHostPort` and `JoinHostPort`.
pub record Net : Type 1 where
  pub Ip : Type 0
  pub parse_ip : String → Option Ip
  pub shown : Ip → String
  pub split_host_port : String → Option (String × String)
  pub join_host_port : String → String → String

-- A network, by what `IPNet.Contains` says.
abbrev pub IpNet : Net → Type 0
IpNet net = net.Ip → Bool

module _ (net : Net) where
  -- `isTrustedIP`, for the address that was parsed.
  abbrev pub in_any : List (IpNet net) → Option net.Ip → Bool
  in_any trusted none = false
  in_any trusted (some ip) = any (λ (n : IpNet net). n ip) trusted

  unfoldable pub is_trusted_ip : List (IpNet net) → String → Bool
  is_trusted_ip trusted s = in_any trusted (net.parse_ip s)

  abbrev host_or : String → Option (String × String) → String
  host_or addr none = addr
  host_or addr (some (host, port)) = host

  -- `remoteHost`
  unfoldable pub remote_host : Request → String
  remote_host r = host_or r.remote_addr (net.split_host_port r.remote_addr)

  -- How far the loop of `rightmostUntrusted` is: still running, with its `leftmost`, or returned.
  pub data Scan : Type 0 where
    running : String → Scan
    returned : String → Scan

  abbrev pub look : List (IpNet net) → String → Option net.Ip → String → Scan
  unfolding is_trusted_ip
  look trusted p none leftmost = running leftmost
  look trusted p (some ip) leftmost =
      if not (is_trusted_ip trusted p)
      then returned (net.shown ip)
      else running (if leftmost == "" then net.shown ip else leftmost)

  abbrev pub visit : List (IpNet net) → String → Scan → Scan
  unfolding look
  visit trusted p (returned ip) = returned ip
  visit trusted p (running leftmost) = look trusted p (net.parse_ip p) leftmost

  -- The loop goes from the last part to the first.
  unfoldable pub scan : List (IpNet net) → List String → Scan
  unfolding visit trim_space
  scan trusted [] = running ""
  scan trusted (p ∷ ps) = visit trusted (trim_space p) (scan trusted ps)

  abbrev pub result : Scan → String
  result (running leftmost) = leftmost
  result (returned ip) = ip

  -- `rightmostUntrusted`
  unfoldable pub rightmost_untrusted : List (IpNet net) → String → String
  unfolding scan split
  rightmost_untrusted trusted xff = result (scan trusted (split b',' xff))

  abbrev is_ip : Option net.Ip → Bool
  is_ip none = false
  is_ip (some ip) = true

  abbrev real_ip_or : String → Request → String
  unfolding trim_space
  real_ip_or peer r =
      let xri = trim_space (header r "X-Real-Ip") in
      if not (xri == "") && is_ip (net.parse_ip xri) then xri else peer

  abbrev forwarded_or : List (IpNet net) → String → Request → String
  unfolding rightmost_untrusted real_ip_or
  forwarded_or trusted peer r =
      if not (header r "X-Forwarded-For" == "")
        && not (rightmost_untrusted trusted (header r "X-Forwarded-For") == "")
      then rightmost_untrusted trusted (header r "X-Forwarded-For")
      else real_ip_or peer r

  -- `ClientIP`
  unfoldable pub client_ip : Request → List (IpNet net) → String
  unfolding remote_host is_trusted_ip forwarded_or
  client_ip r trusted =
      if not (is_trusted_ip trusted (remote_host r))
      then remote_host r
      else forwarded_or trusted (remote_host r) r

  abbrev pub port_or : Option (String × String) → String
  port_or none = "0"
  port_or (some (host, port)) = if not (port == "") then port else "0"

  -- `RealIP`: what the next handler gets.
  unfoldable pub real_ip : List (IpNet net) → Request → Request
  unfolding client_ip
  real_ip trusted r =
      let ip = client_ip r trusted in
      set_header "X-Real-Ip" ip (record r {
        remote_addr = net.join_host_port ip (port_or (net.split_host_port r.remote_addr));
      })

  -- The part of the list with the width that a bare address stands for; `is_v4` is `To4` of an
  -- address.
  abbrev with_width : (net.Ip → Bool) → String → Option net.Ip → String
  with_width is_v4 part none = part <> "/32"
  with_width is_v4 part (some ip) = if not (is_v4 ip) then part <> "/128" else part <> "/32"

  abbrev and_rest : Option (IpNet net) → Option (List (IpNet net)) → Option (List (IpNet net))
  and_rest none rest = none
  and_rest (some n) none = none
  and_rest (some n) (some ns) = some (n ∷ ns)

  abbrev cidrs :
      (net.Ip → Bool) → (String → Option (IpNet net)) → List String → Option (List (IpNet net))
  unfolding trim_space contains
  cidrs is_v4 parse_cidr [] = some []
  cidrs is_v4 parse_cidr (p ∷ ps) =
      let rest = cidrs is_v4 parse_cidr ps in
      let part = trim_space p in
      if part == ""
      then rest
      else and_rest
          (parse_cidr
            (if not (contains part "/") then with_width is_v4 part (net.parse_ip part) else part))
          rest

  -- `ParseTrustedCIDRS`: `none` for the error of any part. `ParseCIDR` belongs to the net package.
  unfoldable pub parse_trusted_cidrs :
      (net.Ip → Bool) → (String → Option (IpNet net)) → String → Option (List (IpNet net))
  unfolding cidrs trim_space split
  parse_trusted_cidrs is_v4 parse_cidr s =
      if trim_space s == "" then some [] else cidrs is_v4 parse_cidr (split 44 s)
