-- ===== src/Pkg/Tests.antt =====
-- The shared packages run on small inputs.
use flowix.Common.{◌==◌, ◌<>◌, if◌then◌else◌, ◌≡◌, refl, String, none, [], some}
use flowix.Common.Text.{trim_space}
use flowix.Http.{Request}
use flowix.Auth.Tests.{ann_request}
use flowix.Gateway.ClientIp
use flowix.Gateway.ClientIp.{Net}
use flowix.Pkg.Logger.{logged_ip, logged_ip_of_real_ip}

-- One peer, at one port.
abbrev net : Net
net = record {
  Ip = String;
  parse_ip = λ s. if s == "192.0.2.7" then some s else none;
  shown = λ s. s;
  split_host_port = λ s. if s == "192.0.2.7:80" then some ("192.0.2.7", "80") else none;
  join_host_port = λ h p. h <> ":" <> p;
}

abbrev request : Request
request = record ann_request { remote_addr = "192.0.2.7:80" }

logged_ip_of_real_ip_example :
    logged_ip net (ClientIp.real_ip net [] request) ≡ ClientIp.client_ip net request []
unfolding ClientIp.client_ip trim_space
logged_ip_of_real_ip_example = logged_ip_of_real_ip net [] request refl refl
