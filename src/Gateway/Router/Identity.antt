-- ===== src/Gateway/Router/Identity.antt =====
-- In whose name the gateway sends requests on to the services behind it.
use mathlib.Core.List.{Memᴰ}
use mathlib.Core.List.Memᴰ
use mathlib.Core.Path.{subst}
use flowix.Common.{
  ◌/◌, ◌≡◌, ◌⊎◌, inl, inr, refl, sym, ap, ◌∙◌, String, Bool, true, false, ◌&&◌, List, [], ◌∷◌, ◌==◌,
  arith, Bool-cases, eq_iff,
}
use flowix.Http.{Request, Headers, Step, reply, next, header}
use flowix.Auth.{auth_middleware, optional_auth}
use flowix.Auth.Identity.{HasAccessToken, auth_middleware_sound, optional_auth_sound}
use flowix.Gateway.MetaCache.{MetaCache}
use flowix.Gateway.HlsAuth.{second}
use flowix.Gateway.ClientIp.{Net, client_ip, real_ip}
use flowix.Gateway.Cors.{cors}
use flowix.Gateway.RateLimit.{rate_limit-request}
use flowix.Gateway.Proxy.{direct}
use flowix.Gateway.Proxy.Forwarding.{direct-header}
use flowix.Gateway.Router.{
  Guard, anyone, bearer, optional, stream, Target, auth, metadata, upload, vod, hls_token, Route,
  routes, Config, Incoming, Outcome, forwarded, limited_by, common, checked, with_token, sent,
  dispatch, routed, serve,
}

-- The route needs an access token, or it is a GET with an optional one, or its upstream is neither
-- the metadata nor the upload service.
abbrev is_guarded : Guard → Target → String → Bool
is_guarded bearer t m = true
is_guarded optional t m = m == "GET"
is_guarded g auth m = true
is_guarded g vod m = true
is_guarded g t m = false

abbrev fits : Route → Bool
fits rt = is_guarded rt.guard rt.target rt.method

abbrev all_fit : List Route → Bool
all_fit [] = true
all_fit (rt ∷ rts) = fits rt && all_fit rts

fits_of_member : (rts : List Route) (rt : Route) → all_fit rts ≡ true → Memᴰ rt rts → fits rt ≡ true
fits_of_member [] rt h m = absurd (Memᴰ.not-nil m)
fits_of_member (x ∷ rts) rt h (Memᴰ.head e) = subst (λ r. fits r ≡ true) (sym e) (ground (arith, h))
fits_of_member (x ∷ rts) rt h (Memᴰ.tail m) = fits_of_member rts rt (ground (arith, h)) m

cors-request :
    (os ms hs : List String) (w w' : Headers) (r r' : Request)
    → cors os ms hs w r ≡ next w' r'
    → r' ≡ r
unfolding cors
cors-request os ms hs w w' r r' e = ground (arith, e)

abbrev target_of : Outcome → Target
target_of (forwarded t l w q) = t
target_of o = auth

abbrev user_of : Outcome → String
user_of (forwarded t l w q) = header q "X-User-Id"
user_of o = ""

module _ (net : Net) (cfg : Config net) where
  limited_by-request :
      (p : Step) (w : Headers) (r : Request)
      → limited_by net cfg p ≡ next w r
      → (v : Headers) × (p ≡ next v r)
  unfolding limited_by
  limited_by-request (reply code v body) w r e = absurd (ground (arith, e))
  limited_by-request (next v q) w r e = (
    v,
    ap (next v)
        (sym (rate_limit-request cfg.eval (client_ip net q cfg.trusted) cfg.bucket v w q r e)),
  )

  common-request :
      (w w' : Headers) (r r' : Request)
      → common net cfg w r ≡ next w' r'
      → r' ≡ real_ip net cfg.trusted r
  unfolding common
  common-request w w' r r' e =
      let q = real_ip net cfg.trusted r in
      let (v, f) = limited_by-request (cors cfg.cors_origins [] [] w q) w' r' e in
      cors-request cfg.cors_origins [] [] w v q r' f

  with_token-user :
      (t : Target) (r : Request)
      → header (with_token net cfg t r) "X-User-Id" ≡ header r "X-User-Id"
  with_token-user metadata r = elim (Bool-cases (cfg.internal_token == "")) [
    | inl e ↦ rw e refl
    | inr e ↦ rw e refl
  ]
  with_token-user vod r = elim (Bool-cases (cfg.internal_token == "")) [
    | inl e ↦ rw e refl
    | inr e ↦ rw e refl
  ]
  with_token-user t r = refl

  -- The library's director leaves the user id alone.
  abbrev pub KeepsUser : Type 0
  KeepsUser =
      (t : Target) (r : Request) → header (cfg.single_host t r) "X-User-Id" ≡ header r "X-User-Id"

  sent-user :
      KeepsUser
      → (t t' : Target) (l l' : Bool) (host : String) (tls : Bool) (w w' : Headers) (r q : Request)
      → sent net cfg t l host tls w r ≡ forwarded t' l' w' q
      → (t ≡ t') × (header q "X-User-Id" ≡ header r "X-User-Id")
  unfolding sent
  sent-user keeps hls_token t' l l' host tls w w' r q e = absurd (ground (arith, e))
  sent-user keeps t t' l l' host tls w w' r q e = (
    ap target_of e,
    sym (ap user_of e)
        ∙ with_token-user t (direct net (cfg.single_host t) host tls r)
        ∙ direct-header net "X-User-Id" refl (cfg.single_host t) host tls r
        ∙ keeps t r,
  )

  abbrev Claimed : Request → String → Type 0
  Claimed r u =
      (sub : String) × HasAccessToken cfg.jwt (cfg.now / second) cfg.jwt_secret r sub × (u ≡ sub)

  bearer-Claimed :
      (w w' : Headers) (r q : Request)
      → auth_middleware cfg.jwt (cfg.now / second) cfg.jwt_secret w r ≡ next w' q
      → Claimed r (header q "X-User-Id")
  bearer-Claimed w w' r q e =
      let (sub, token, same) =
        auth_middleware_sound cfg.jwt (cfg.now / second) cfg.jwt_secret w w' r q e in
      (sub, token, ap (λ x. header x "X-User-Id") same)

  optional-Claimed :
      (w w' : Headers) (r q : Request)
      → optional_auth cfg.jwt (cfg.now / second) cfg.jwt_secret w r ≡ next w' q
      → (header q "X-User-Id" ≡ "") ⊎ Claimed r (header q "X-User-Id")
  optional-Claimed w w' r q e =
      elim (optional_auth_sound cfg.jwt (cfg.now / second) cfg.jwt_secret w w' r q e) [
        | inl same ↦ inl (ap (λ x. header x "X-User-Id") same)
        | inr (sub, token, same) ↦ inr (sub, token, ap (λ x. header x "X-User-Id") same)
      ]

  -- The token is the client's: the change of the address leaves Authorization alone.
  real_ip-Claimed : (r : Request) (u : String) → Claimed (real_ip net cfg.trusted r) u → Claimed r u
  unfolding real_ip
  real_ip-Claimed r u (sub, t, e) = (
    sub,
    record {
      token = t.token;
      claims = t.claims;
      sent = t.sent;
      valid = t.valid;
      is_access = t.is_access;
      subject = t.subject;
      named = t.named;
    },
    e,
  )

  abbrev pub Named : Route → Request → String → Type 0
  Named rt r u = ((u ≡ "") × (rt.method ≡ "GET")) ⊎ Claimed r u

  dispatched :
      KeepsUser
      → (rt : Route) (i : Incoming) (p : Step × MetaCache) (t : Target) (l : Bool) (v : Headers)
        (q : Request)
      → (dispatch net cfg rt i p).0 ≡ forwarded t l v q
      → (w : Headers) × (r : Request) × (p.0 ≡ next w r)
        × (rt.target ≡ t)
        × (header q "X-User-Id" ≡ header r "X-User-Id")
  unfolding dispatch
  dispatched keeps rt i (reply code w body, c) t l v q e = absurd (ground (arith, e))
  dispatched keeps rt i (next w r, c) t l v q e =
      let (to, user) = sent-user keeps rt.target t rt.limited l i.host i.tls w v r q e in
      (w, r, refl, to, user)

  passed-Named :
      (rt : Route) (g : Guard) (t : Target) (w w' : Headers) (r r' : Request) (c : MetaCache)
      → (t ≡ metadata) ⊎ (t ≡ upload)
      → is_guarded g t rt.method ≡ true
      → (checked net cfg g w r c).0 ≡ next w' r'
      → Named rt r (header r' "X-User-Id")
  unfolding checked
  passed-Named rt bearer t w w' r r' c behind fit e = inr (bearer-Claimed w w' r r' e)
  passed-Named rt optional t w w' r r' c behind fit e = elim (optional-Claimed w w' r r' e) [
    | inl nobody ↦ inl (nobody, (eq_iff rt.method "GET").0 fit)
    | inr claimed ↦ inr claimed
  ]
  passed-Named rt anyone auth w w' r r' c behind fit e = absurd (ground (arith, behind))
  passed-Named rt anyone vod w w' r r' c behind fit e = absurd (ground (arith, behind))
  passed-Named rt anyone t w w' r r' c behind fit e = absurd (ground (arith, fit))
  passed-Named rt stream auth w w' r r' c behind fit e = absurd (ground (arith, behind))
  passed-Named rt stream vod w w' r r' c behind fit e = absurd (ground (arith, behind))
  passed-Named rt stream t w w' r r' c behind fit e = absurd (ground (arith, fit))

  guarded-Named :
      KeepsUser
      → (rt : Route) (i : Incoming) (w : Headers) (r : Request) (c : MetaCache) (t : Target)
        (l : Bool) (v : Headers) (q : Request)
      → fits rt ≡ true
      → (t ≡ metadata) ⊎ (t ≡ upload)
      → (dispatch net cfg rt i (checked net cfg rt.guard w r c)).0 ≡ forwarded t l v q
      → Named rt r (header q "X-User-Id")
  unfolding checked
  guarded-Named keeps rt i w r c t l v q fit behind e =
      let (w', r', passes, to, user) =
        dispatched keeps rt i (checked net cfg rt.guard w r c) t l v q e in
      subst (Named rt r) (sym user)
        (passed-Named rt rt.guard rt.target w w' r r' c (rw to behind) fit passes)

  routed-Named :
      KeepsUser
      → (rt : Route) (i : Incoming) (w : Headers) (p : Step) (c : MetaCache) (t : Target) (l : Bool)
        (v : Headers) (q : Request)
      → common net cfg w i.request ≡ p
      → fits rt ≡ true
      → (t ≡ metadata) ⊎ (t ≡ upload)
      → (routed net cfg rt i p c).0 ≡ forwarded t l v q
      → Named rt i.request (header q "X-User-Id")
  unfolding routed
  routed-Named keeps rt i w (reply code w' body) c t l v q s fit behind e =
      absurd (ground (arith, e))
  routed-Named keeps rt i w (next w' r) c t l v q s fit behind e =
      elim (guarded-Named keeps rt i w' (real_ip net cfg.trusted i.request) c t l v q fit behind
        (rw (common-request w w' i.request r s) at e)) [
          | inl nobody ↦ inl nobody
          | inr claimed ↦ inr (real_ip-Claimed i.request _ claimed)
        ]

  -- A request that the gateway sends on to the metadata or the upload service has the X-User-Id of
  -- an access token's subject that the client sent, whatever X-User-Id the client made up; only on
  -- a route for GET it may go on without a token, and then with no X-User-Id. The condition: the
  -- library's director leaves X-User-Id alone.
  pub serve-Named :
      KeepsUser
      → (rt : Route) (i : Incoming) (w : Headers) (c : MetaCache) (t : Target) (l : Bool)
        (v : Headers) (q : Request)
      → Memᴰ rt routes
      → (t ≡ metadata) ⊎ (t ≡ upload)
      → (serve net cfg rt w i c).0 ≡ forwarded t l v q
      → Named rt i.request (header q "X-User-Id")
  unfolding serve
  serve-Named keeps rt i w c t l v q m behind e =
      routed-Named keeps rt i w (common net cfg w i.request) c t l v q refl
        (fits_of_member routes rt refl m) behind e
