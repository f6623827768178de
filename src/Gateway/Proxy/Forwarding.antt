-- ===== src/Gateway/Proxy/Forwarding.antt =====
-- Which headers of a request the proxy leaves alone, and which of a response it takes away.
use flowix.Common.{
  ◌≡◌, inl, inr, refl, ◌∙◌, String, Bool, true, false, ◌||◌, List, [], ◌∷◌, ◌==◌, if◌then◌else◌,
  arith, eq_iff, Bool-cases, String-cases, any,
}
use flowix.Common.Text.{contains}
use flowix.Http.{Request, Headers, header, set_header, del}
use flowix.Gateway.ClientIp.{Net, remote_host}
use flowix.Gateway.Proxy.{
  keep_id, chained, forward_for, forward_proto, direct, drop_all, dropped_headers, modify_response,
}

-- The headers that the proxy may set.
abbrev pub forwarding : List String
forwarding = "X-Forwarded-Host" ∷ "X-Forwarded-For" ∷ "X-Forwarded-Proto" ∷ []

abbrev pub listed : List String → String → Bool
listed ks k = any (λ (j : String). k == j) ks

keep_id-header : (k : String) (r : Request) → header (keep_id r) k ≡ header r k
keep_id-header k r =
    ground (arith, eq_iff (header r "X-Request-Id") "", String-cases k "X-Request-Id")

module _ (net : Net) (k : String) (n : listed forwarding k ≡ false) where
  others :
      ((k == "X-Forwarded-Host") ≡ false)
      × ((k == "X-Forwarded-For") ≡ false)
      × ((k == "X-Forwarded-Proto") ≡ false)
  others = go (k == "X-Forwarded-Host") (k == "X-Forwarded-For") (k == "X-Forwarded-Proto") n
    where
      go :
          (a b c : Bool)
          → a || (b || (c || false)) ≡ false
          → (a ≡ false) × (b ≡ false) × (c ≡ false)
      go a b c h = ground (arith, h)

  chained-header :
      (host xff : String) (r : Request) → header (chained net host xff r) k ≡ header r k
  unfolding chained
  chained-header host xff r = elim (Bool-cases (xff == "")) [
    | inl e ↦ rw (e, others.1) refl
    | inr e ↦ elim (Bool-cases (contains xff host)) [
      | inl c ↦ rw (e, c) refl
      | inr c ↦ rw (e, c, others.1) refl
    ]
  ]

  forward_for-header :
      (host : String) (r : Request) → header (forward_for net host r) k ≡ header r k
  forward_for-header host r = elim (Bool-cases (host == "")) [
    | inl e ↦ rw e refl
    | inr e ↦ rw e (chained-header host (header r "X-Forwarded-For") r)
  ]

  forward_proto-header :
      (tls : Bool) (r : Request) → header (forward_proto net tls r) k ≡ header r k
  forward_proto-header true r = rw others.2 refl
  forward_proto-header false r = elim (Bool-cases (header r "X-Forwarded-Proto" == "")) [
    | inl e ↦ rw (e, others.2) refl
    | inr e ↦ rw e refl
  ]

  -- Every other header reaches the upstream as the gateway's middleware left it.
  pub direct-header :
      (single_host : Request → Request) (host : String) (tls : Bool) (r : Request)
      → header (direct net single_host host tls r) k ≡ header (single_host r) k
  unfolding direct
  direct-header single_host host tls r =
      let named = set_header "X-Forwarded-Host" host (single_host r) in
      let q = keep_id (keep_id named) in
      forward_proto-header tls (forward_for net (remote_host net q) q)
      ∙ forward_for-header (remote_host net q) q
      ∙ keep_id-header k (keep_id named)
      ∙ keep_id-header k named
      ∙ rw others.0 refl

drop_all-header :
    (ks : List String) (k : String) (h : Headers)
    → drop_all ks h k ≡ (if listed ks k then "" else h k)
drop_all-header [] k h = refl
drop_all-header (j ∷ ks) k h = drop_all-header ks k (del j h) ∙ ground arith

-- The client gets no CORS headers, no Vary and no request id from an upstream, and all its other
-- headers unchanged.
pub modify_response-header :
    (k : String) (h : Headers)
    → modify_response h k ≡ (if listed dropped_headers k then "" else h k)
unfolding modify_response
modify_response-header k h = drop_all-header dropped_headers k h
