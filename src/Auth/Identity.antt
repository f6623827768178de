-- ===== src/Auth/Identity.antt =====
-- Whom the middleware lets through, and as whom.
use flowix.Common.{
  ℕ, ◌≡◌, refl, sym, ◌≢◌, ◌↔◌, ◌⊎◌, String, ◌<>◌, false, some, none, eq_iff, arith, inl, inr,
  Bool-cases, ◌==◌,
}
use flowix.Common.Text.Prefix.{
  has_prefix-append, trim_prefix-append, append-trim_prefix, ne-nil_of_has_prefix,
}
use flowix.Http.{Request, Headers, reply, next, header, http_error}
use flowix.Auth.Token.{Jwt, Claims, Parsed, rejected, accepted}
use flowix.Auth.{
  with_user, anonymous, no_bearer, bearer, check_access, auth_middleware, check_optional,
  optional_auth, internal_auth,
}

-- `Bearer` and a token of the given type that verifies, in the name of `sub`.
pub record HasAccessToken (jwt : Jwt) (now : ℕ) (secret : String) (r : Request) (sub : String)
    : Type 0 where
  pub token : String
  pub claims : Claims
  pub sent : header r "Authorization" ≡ "Bearer " <> token
  pub valid : jwt.parse now secret token ≡ accepted (some claims)
  pub is_access : claims.text "type" ≡ "access"
  pub subject : claims.text "sub" ≡ sub
  pub named : sub ≢ ""

pub no_bearer-eq-false :
    (r : Request) (t : String) → header r "Authorization" ≡ "Bearer " <> t → no_bearer r ≡ false
no_bearer-eq-false r t e =
    let starts = has_prefix-append "Bearer " t in
    let filled =
      ne-nil_of_has_prefix ("Bearer " <> t) "Bearer " (ground (arith, eq_iff "Bearer " ""))
        starts in
    rw e (ground (arith, starts, filled, eq_iff ("Bearer " <> t) ""))

pub bearer_of_sent :
    (r : Request) (t : String) → header r "Authorization" ≡ "Bearer " <> t → bearer r ≡ t
bearer_of_sent r t e = rw e (trim_prefix-append "Bearer " t)

pub bearer_lem :
    (r : Request) → no_bearer r ≡ false → header r "Authorization" ≡ "Bearer " <> bearer r
bearer_lem r h = sym (append-trim_prefix (header r "Authorization") "Bearer " (ground arith))

module _ (jwt : Jwt) (now : ℕ) (secret : String) where
  -- A request with an access token is passed on as its subject's, whatever X-User-Id it had.
  pub auth_middleware_of_token :
      (w : Headers) (r : Request) (sub : String)
      → HasAccessToken jwt now secret r sub
      → auth_middleware jwt now secret w r ≡ next w (with_user sub r)
  unfolding auth_middleware
  auth_middleware_of_token w r sub t =
      rw
        (
          no_bearer-eq-false r t.token t.sent,
          bearer_of_sent r t.token t.sent,
          t.valid,
          check_access,
        )
        (ground (
          arith,
          t.subject,
          t.is_access,
          t.named,
          eq_iff (t.claims.text "sub") "",
          eq_iff (t.claims.text "type") "access",
        ))

  check_access_sound :
      (w w' : Headers) (r r' : Request) (p : Parsed)
      → check_access jwt now secret w r p ≡ next w' r'
      → (c : Claims) × (p ≡ accepted (some c))
        × (c.text "type" ≡ "access")
        × (c.text "sub" ≢ "")
        × (w' ≡ w)
        × (r' ≡ with_user (c.text "sub") r)
  unfolding check_access http_error
  check_access_sound w w' r r' rejected e = cc
  check_access_sound w w' r r' (accepted none) e = cc
  check_access_sound w w' r r' (accepted (some c)) e = (
    c,
    refl,
    ground (arith, eq_iff (c.text "sub") "", eq_iff (c.text "type") "access"),
    ground (arith, eq_iff (c.text "sub") "", eq_iff (c.text "type") "access"),
    ground arith,
    ground arith,
  )

  -- Only requests with an access token get through, and they carry that token's subject both in
  -- the context and in X-User-Id.
  pub auth_middleware_sound :
      (w w' : Headers) (r r' : Request)
      → auth_middleware jwt now secret w r ≡ next w' r'
      → (sub : String) × HasAccessToken jwt now secret r sub × (r' ≡ with_user sub r)
  unfolding auth_middleware
  auth_middleware_sound w w' r r' e = elim (Bool-cases (no_bearer r)) [
    | inl missing ↦ absurd (ground (arith, missing))
    | inr present ↦
        let (c, valid, is_access, named, _, same) =
          check_access_sound w w' r r' (jwt.parse now secret (bearer r)) (rw present at e) in
        (
          c.text "sub",
          record {
            token = bearer r;
            claims = c;
            sent = bearer_lem r present;
            valid = valid;
            is_access = is_access;
            subject = refl;
            named = named;
          },
          same,
        )
  ]

  -- A refusal is always the status 401.
  pub auth_middleware-eq-reply :
      (w w' : Headers) (r : Request) (code : ℕ) (body : String)
      → auth_middleware jwt now secret w r ≡ reply code w' body
      → code ≡ 401
  unfolding auth_middleware
  auth_middleware-eq-reply w w' r code body e = ground arith

  -- Without an access token the optional check passes the request on with no identity: the
  -- context is as it was, and a X-User-Id sent by the client is gone.
  pub optional_auth_of_no_token :
      (w : Headers) (r : Request)
      → ((sub : String) → ¬ HasAccessToken jwt now secret r sub)
      → optional_auth jwt now secret w r ≡ next w (anonymous r)
  unfolding optional_auth
  optional_auth_of_no_token w r none_valid = elim (Bool-cases (no_bearer r)) [
    | inl missing ↦ rw missing
    | inr present ↦ rw present (go present (jwt.parse now secret (bearer r)) refl)
  ]
    where
      go :
          no_bearer r ≡ false
          → (p : Parsed) → jwt.parse now secret (bearer r) ≡ p
          → check_optional jwt now secret w (anonymous r) p ≡ next w (anonymous r)
      go present rejected e = refl
      go present (accepted none) e = refl
      go present (accepted (some c)) e = ground (
        arith,
        eq_iff (c.text "sub") "",
        eq_iff (c.text "type") "access",
        λ (is_access : c.text "type" ≡ "access") (named : c.text "sub" ≢ "").
            none_valid (c.text "sub") (record {
              token = bearer r;
              claims = c;
              sent = bearer_lem r present;
              valid = e;
              is_access = is_access;
              subject = refl;
              named = named;
            }),
      )

  check_optional_sound :
      (w w' : Headers) (r r' : Request) (p : Parsed)
      → check_optional jwt now secret w (anonymous r) p ≡ next w' r'
      → (r' ≡ anonymous r)
        ⊎ ((c : Claims) × (p ≡ accepted (some c))
            × (c.text "type" ≡ "access")
            × (c.text "sub" ≢ "")
            × (r' ≡ with_user (c.text "sub") (anonymous r)))
  unfolding check_optional
  check_optional_sound w w' r r' rejected e = inl (ground arith)
  check_optional_sound w w' r r' (accepted none) e = inl (ground arith)
  check_optional_sound w w' r r' (accepted (some c)) e =
      elim (Bool-cases (c.text "type" == "access")) [
        | inr f ↦ inl (ground (arith, f, e))
        | inl f ↦ elim (Bool-cases (c.text "sub" == "")) [
          | inl g ↦ inl (ground (arith, f, g, e))
          | inr g ↦ inr (
            c,
            refl,
            (eq_iff (c.text "type") "access").0 f,
            ground (arith, g, eq_iff (c.text "sub") ""),
            ground (arith, f, g, e),
          )
        ]
      ]

  -- The optional check passes a request on with no identity, or with an access token's subject.
  pub optional_auth_sound :
      (w w' : Headers) (r r' : Request)
      → optional_auth jwt now secret w r ≡ next w' r'
      → (r' ≡ anonymous r)
        ⊎ ((sub : String) × HasAccessToken jwt now secret r sub
            × (r' ≡ with_user sub (anonymous r)))
  unfolding optional_auth
  optional_auth_sound w w' r r' e = elim (Bool-cases (no_bearer r)) [
    | inl missing ↦ inl (ground (arith, missing))
    | inr present ↦
        elim (check_optional_sound w w' r r' (jwt.parse now secret (bearer r)) (rw present at e)) [
          | inl same ↦ inl same
          | inr (c, valid, is_access, named, same) ↦ inr (
            c.text "sub",
            record {
              token = bearer r;
              claims = c;
              sent = bearer_lem r present;
              valid = valid;
              is_access = is_access;
              subject = refl;
              named = named;
            },
            same,
          )
        ]
  ]

  -- With an access token the optional check does what the mandatory one does.
  pub optional_auth_of_token :
      (w : Headers) (r : Request) (sub : String)
      → HasAccessToken jwt now secret r sub
      → optional_auth jwt now secret w r ≡ next w (with_user sub (anonymous r))
  unfolding optional_auth
  optional_auth_of_token w r sub t =
      rw
        (
          no_bearer-eq-false r t.token t.sent,
          bearer_of_sent r t.token t.sent,
          t.valid,
          check_optional,
        )
        (ground (
          arith,
          t.subject,
          t.is_access,
          t.named,
          eq_iff (t.claims.text "sub") "",
          eq_iff (t.claims.text "type") "access",
        ))

-- With a secret that is not empty, a request reaches the internal routes exactly if its
-- X-Internal-Token is that secret, and then unchanged.
pub internal_auth_iff :
    (secret : String) (w w' : Headers) (r r' : Request)
    → secret ≢ ""
    → (internal_auth secret w r ≡ next w' r')
      ↔ ((header r "X-Internal-Token" ≡ secret) × (w ≡ w') × (r ≡ r'))
unfolding internal_auth
internal_auth_iff secret w w' r r' n =
    ground (arith, n, eq_iff secret "", eq_iff (header r "X-Internal-Token") secret)
