-- ===== src/Gateway/ClientIp/Forged.antt =====
-- Headers that a client forges do not change the address that the gateway takes for it.
use Prim.Native.Char.{Char, code}
use Prim.Native.String.{[] as nil, ◌∷◌ as ◌∷∷◌}
use text.Mathlib.TextLemmas.{nil-append, cons-append}
use flowix.Common.{
  ◌≡◌, ◌≢◌, inl, inr, refl, sym, ap, ◌∙◌, String, ◌<>◌, false, List, [], ◌∷◌, ◌++◌, eqb, arith,
  Bool-cases,
}
use flowix.Common.Text.{split, extend}
use flowix.Http.{Request}
use flowix.Gateway.ClientIp.{
  Net, IpNet, is_trusted_ip, returned, scan, result, rightmost_untrusted, remote_host, client_ip,
  real_ip,
}

extend-append : (c : Char) (ws vs : List String) → ws ≢ [] → extend c (ws ++ vs) ≡ extend c ws ++ vs
extend-append c [] vs n = absurd (n refl)
extend-append c (w ∷ ws) vs n = refl

extend-ne-nil : (c : Char) (ws : List String) → extend c ws ≢ []
extend-ne-nil c [] h = ground arith
extend-ne-nil c (w ∷ ws) h = ground arith

split-ne-nil : (sep : _) (s : String) → split sep s ≢ []
unfolding split
split-ne-nil sep nil = λ h. ground arith
split-ne-nil sep (c ∷∷ s) = elim (Bool-cases (eqb (code c) sep)) [
  | inl e ↦ rw e (λ h. ground arith)
  | inr e ↦ rw e (extend-ne-nil c (split sep s))
]

comma-append : (t : String) → "" <> ("," <> t) ≡ "," <> t
comma-append t = nil-append ("," <> t)

split-comma : (t : String) → split b',' ("," <> t) ≡ "" ∷ split b',' t
unfolding split
split-comma t = rw (cons-append, nil-append) refl

-- Splitting a joined text splits both of its sides.
split-join : (s t : String) → split b',' (s <> "," <> t) ≡ split b',' s ++ split b',' t
unfolding split
split-join nil t = ap (split b',') (comma-append t) ∙ split-comma t
split-join (c ∷∷ s) t =
    ap (split b',') (cons-append c s ("," <> t)) ∙ elim (Bool-cases (eqb (code c) b',')) [
      | inl e ↦ rw (e, split-join s t) refl
      | inr e ↦
          rw (e, split-join s t)
            (extend-append c (split b',' s) (split b',' t) (split-ne-nil b',' s))
    ]

module _ (net : Net) (trusted : List (IpNet net)) where
  scan-append_returned :
      (ps qs : List String) (ip : String)
      → scan net trusted qs ≡ returned ip
      → scan net trusted (ps ++ qs) ≡ returned ip
  unfolding scan
  scan-append_returned [] qs ip h = h
  scan-append_returned (p ∷ ps) qs ip h = rw (scan-append_returned ps qs ip h) refl

  -- Whatever a client puts in front in X-Forwarded-For: if what the proxies added behind it holds
  -- an address outside the trusted networks, the result is the one that their part alone gives.
  pub rightmost_untrusted_of_forged :
      (forged added ip : String)
      → scan net trusted (split b',' added) ≡ returned ip
      → (rightmost_untrusted net trusted (forged <> "," <> added)
          ≡ rightmost_untrusted net trusted added)
        × (rightmost_untrusted net trusted added ≡ ip)
  unfolding rightmost_untrusted
  rightmost_untrusted_of_forged forged added ip h = (
    ap (λ ps. result net (scan net trusted ps)) (split-join forged added)
        ∙ ap (result net)
            (scan-append_returned (split b',' forged) (split b',' added) ip h ∙ sym h),
    ap (result net) h,
  )

  -- A peer outside the trusted networks is taken by its own address: two of its requests that
  -- differ in their headers only pass on the same X-Real-Ip, the peer's, and the same remote
  -- address.
  pub real_ip_of_untrusted :
      (r s : Request)
      → r.remote_addr ≡ s.remote_addr
      → is_trusted_ip net trusted (remote_host net r) ≡ false
      → ((real_ip net trusted r).headers "X-Real-Ip" ≡ remote_host net r)
        × (((real_ip net trusted s).headers "X-Real-Ip" ≡ remote_host net r)
            × ((real_ip net trusted r).remote_addr ≡ (real_ip net trusted s).remote_addr))
  unfolding real_ip client_ip remote_host
  real_ip_of_untrusted r s e h = rw (sym e, h) (refl, (refl, refl))
