-- ===== src/Gateway/HlsToken/Laws.antt =====
-- Who gets a stream token, and that the token opens the stream that it was issued for.
use Prim.Native.Char.{code}
use Prim.Native.String.{[], ◌∷◌}
use mathlib.Core.Path.{subst}
use text.Mathlib.TextLemmas.{cons≢nil}
use flowix.Common.{
  ℕ, ◌+◌, ◌<◌, ◌≡◌, ◌≢◌, ◌↔◌, refl, sym, ap, ◌∙◌, String, true, Option, none, some, ◌==◌, eq_iff,
  arith, Bool-cases, inl, inr, ◌⊎◌,
}
use flowix.Common.Text.{equal_fold}
use flowix.Http.{Headers, Request, next}
use flowix.Auth.{no_bearer, bearer, with_user, auth_middleware}
use flowix.Auth.Token.{Jwt, Claims, Parsed, rejected, accepted, IsLawful}
use flowix.Auth.Identity.{
  auth_middleware_sound, auth_middleware_of_token, HasAccessToken, bearer_lem, no_bearer-eq-false,
  bearer_of_sent,
}
use flowix.Gateway.MetaCache.{VideoMeta}
use flowix.Gateway.HlsToken.{
  hls_token_ttl, hls_claims, Fetched, found, status_error, failed, issued, generate_hls_token,
  check_hls, validate_hls_token, check_access_token, validate_access_token, caller, issue,
  issue_to_owner, hls_token_handler, requested_id, option_or,
}

equal_fold_refl : (s : String) → equal_fold s s ≡ true
unfolding equal_fold
equal_fold_refl [] = refl
equal_fold_refl (c ∷ s) = ground (arith, equal_fold_refl s)

equal_fold-ne-nil : (s t : String) → equal_fold s t ≡ true → t ≢ "" → s ≢ ""
unfolding equal_fold
equal_fold-ne-nil [] [] h n = n
equal_fold-ne-nil [] (d ∷ t) h n = cc
equal_fold-ne-nil (c ∷ s) t h n = λ e. cons≢nil e

module _ (jwt : Jwt) (now : ℕ) (secret : String) where
  check_access_token_sound :
      (p : Parsed) (sub : String)
      → check_access_token jwt now secret p ≡ some sub
      → (c : Claims) × (p ≡ accepted (some c))
        × (c.text "type" ≡ "access")
        × (c.text "sub" ≡ sub)
        × (sub ≢ "")
  unfolding check_access_token
  check_access_token_sound rejected sub e = cc
  check_access_token_sound (accepted none) sub e = cc
  check_access_token_sound (accepted (some c)) sub e = (
    c,
    refl,
    ground (arith, eq_iff (c.text "type") "access"),
    ground (arith, eq_iff (c.text "type") "access", eq_iff (c.text "sub") ""),
    ground (arith, eq_iff (c.text "type") "access", eq_iff (c.text "sub") "", eq_iff sub ""),
  )

  -- The gateway's own reading of the bearer token accepts the valid access tokens.
  pub validate_access_token_iff :
      (r : Request) (sub : String)
      → (validate_access_token jwt now secret r ≡ some sub) ↔ HasAccessToken jwt now secret r sub
  unfolding validate_access_token
  validate_access_token_iff r sub = (to, from)
    where
      to : validate_access_token jwt now secret r ≡ some sub → HasAccessToken jwt now secret r sub
      to e = elim (Bool-cases (no_bearer r)) [
        | inl missing ↦ absurd (ground (arith, missing))
        | inr present ↦
            let (c, valid, is_access, subject, named) =
              check_access_token_sound (jwt.parse now secret (bearer r)) sub (rw present at e) in
            record {
              token = bearer r;
              claims = c;
              sent = bearer_lem r present;
              valid = valid;
              is_access = is_access;
              subject = subject;
              named = named;
            }
      ]

      from : HasAccessToken jwt now secret r sub → validate_access_token jwt now secret r ≡ some sub
      from t =
          rw
            (
              no_bearer-eq-false r t.token t.sent,
              bearer_of_sent r t.token t.sent,
              t.valid,
              check_access_token,
            )
            (ground (
              arith,
              t.subject,
              t.is_access,
              t.named,
              eq_iff (t.claims.text "sub") "",
              eq_iff (t.claims.text "type") "access",
            ))

  -- The gateway's own reading of the bearer token names a user if and only if the shared middleware
  -- passes the request on in the name of that user.
  pub validate_access_token-auth_middleware :
      (w : Headers) (r : Request) (sub : String)
      → (validate_access_token jwt now secret r ≡ some sub)
        ↔ (auth_middleware jwt now secret w r ≡ next w (with_user sub r))
  validate_access_token-auth_middleware w r sub = (
    λ e. auth_middleware_of_token jwt now secret w r sub ((validate_access_token_iff r sub).0 e),
    λ e.
        let (user, has, same) = auth_middleware_sound jwt now secret w w r (with_user sub r) e in
        let named : sub ≡ user = ap (λ (q : Request). q.user) same in
        (validate_access_token_iff r sub).1
          (subst (HasAccessToken jwt now secret r) (sym named) has),
  )

  check_hls_sound :
      (id sub : String) (p : Parsed)
      → check_hls jwt now secret id p ≡ some sub
      → (c : Claims) × (p ≡ accepted (some c))
        × (c.text "type" ≡ "hls")
        × (equal_fold (c.text "video_id") id ≡ true)
        × (c.text "sub" ≡ sub)
  unfolding check_hls
  check_hls_sound id sub rejected e = cc
  check_hls_sound id sub (accepted none) e = cc
  check_hls_sound id sub (accepted (some c)) e = (
    c,
    refl,
    ground (arith, eq_iff (c.text "type") "hls"),
    ground (arith, eq_iff (c.text "type") "hls"),
    ground (arith, eq_iff (c.text "type") "hls"),
  )

  pub validate_hls_token_sound :
      (token id sub : String)
      → validate_hls_token jwt now secret token id ≡ some sub
      → (c : Claims) × (jwt.parse now secret token ≡ accepted (some c))
        × (c.text "type" ≡ "hls")
        × (equal_fold (c.text "video_id") id ≡ true)
        × (c.text "sub" ≡ sub)
  unfolding validate_hls_token
  validate_hls_token_sound token id sub = check_hls_sound id sub (jwt.parse now secret token)

  pub validate_hls_token_complete :
      (token id sub : String) (c : Claims)
      → jwt.parse now secret token ≡ accepted (some c)
      → c.text "type" ≡ "hls"
      → id ≢ ""
      → equal_fold (c.text "video_id") id ≡ true
      → c.text "sub" ≡ sub
      → validate_hls_token jwt now secret token id ≡ some sub
  unfolding validate_hls_token
  validate_hls_token_complete token id sub c valid is_hls named for_video subject =
      let filled = equal_fold-ne-nil (c.text "video_id") id for_video named in
      rw (valid, check_hls)
        (ground (
          arith,
          is_hls,
          for_video,
          subject,
          filled,
          eq_iff (c.text "type") "hls",
          eq_iff (c.text "video_id") "",
        ))

module _ (jwt : Jwt) (now : ℕ) (secret : String) where
  -- A token that the gateway signs for a video and a user verifies as that user's token for that
  -- video until the fifteen minutes are over. The conditions: the id is not empty, and a token that
  -- the library signs parses to its claims until it expires.
  pub validate-generate :
      IsLawful jwt
      → (later : ℕ) (video_id user_id token : String) → video_id ≢ ""
      → generate_hls_token jwt now secret video_id user_id ≡ some token
      → later < now + hls_token_ttl
      → validate_hls_token jwt later secret token video_id ≡ some user_id
  unfolding generate_hls_token
  validate-generate lawful later video_id user_id token named signed in_time =
      let (d, parsed, type, video, sub) =
        lawful.parse-sign later secret token (hls_claims now video_id user_id) signed in_time in
      validate_hls_token_complete jwt later secret token video_id user_id d parsed type named
        (ap (λ v. equal_fold v video_id) video ∙ equal_fold_refl video_id) sub

  issue-eq-issued :
      (video_id : String) (o : Option String) {token url : String} {ttl : ℕ}
      → issue jwt now secret video_id o ≡ issued token ttl url
      → (o ≡ some token) × (ttl ≡ hls_token_ttl)
  unfolding issue
  issue-eq-issued video_id none e = cc
  issue-eq-issued video_id (some t) e = (cc, cc)

  issue_to_owner_sound :
      (video_id user_id : String) (f : Fetched) {token url : String} {ttl : ℕ}
      → issue_to_owner jwt now secret video_id user_id f ≡ issued token ttl url
      → (meta : VideoMeta) × (f ≡ found meta)
        × (meta.owner_id ≡ user_id)
        × (generate_hls_token jwt now secret video_id user_id ≡ some token)
        × (ttl ≡ hls_token_ttl)
  unfolding issue_to_owner
  issue_to_owner_sound video_id user_id (status_error code) e = cc
  issue_to_owner_sound video_id user_id failed e = cc
  issue_to_owner_sound video_id user_id (found meta) e =
      elim (Bool-cases (meta.owner_id == user_id)) [
        | inl mine ↦
            let (signed, ttl) = issue-eq-issued video_id _ (rw mine at e) in
            (meta, refl, (eq_iff _ _).0 mine, signed, ttl)
        | inr other ↦ absurd (ground (arith, other))
      ]

  caller_sound :
      (r : Request)
      → caller jwt now secret r ≢ ""
      → (r.user ≡ caller jwt now secret r)
        ⊎ HasAccessToken jwt now secret r (caller jwt now secret r)
  unfolding caller
  caller_sound r named = elim (Bool-cases (r.user == "")) [
    | inl anon ↦ rw anon (go (validate_access_token jwt now secret r) refl (rw anon at named))
    | inr user ↦ rw user (inl refl)
  ]
    where
      go :
          (o : Option String)
          → validate_access_token jwt now secret r ≡ o
          → option_or "" (validate_access_token jwt now secret r) ≢ ""
          → (r.user ≡ option_or "" (validate_access_token jwt now secret r))
            ⊎ HasAccessToken jwt now secret r
                (option_or "" (validate_access_token jwt now secret r))
      go none q n = absurd (n (rw q refl))
      go (some sub) q n = rw q (inr ((validate_access_token_iff jwt now secret r sub).0 q))

  -- A stream token is issued only to the owner of the video that was asked for, who is the user of
  -- the request's context or the subject of its access token; the token verifies as the owner's for
  -- that video until it expires.
  pub hls_token_handler_sound :
      IsLawful jwt
      → (fetch : String → Fetched) (r : Request) (token url : String) (ttl : ℕ)
      → hls_token_handler jwt now secret fetch r ≡ issued token ttl url
      → (meta : VideoMeta) × (fetch (requested_id r) ≡ found meta)
        × (ttl ≡ hls_token_ttl)
        × ((r.user ≡ meta.owner_id) ⊎ HasAccessToken jwt now secret r meta.owner_id)
        × ((later : ℕ)
            → later < now + hls_token_ttl
            → validate_hls_token jwt later secret token (requested_id r) ≡ some meta.owner_id)
  unfolding hls_token_handler
  hls_token_handler_sound lawful fetch r token url ttl e =
      let named : caller jwt now secret r ≢ "" =
        ground (arith, eq_iff (caller jwt now secret r) "") in
      let asked : requested_id r ≢ "" = ground (arith, eq_iff (requested_id r) "") in
      let (meta, f, owner, signed, same_ttl) =
        issue_to_owner_sound (requested_id r) (caller jwt now secret r) (fetch (requested_id r))
          {token = token} {url = url} {ttl = ttl} (ground arith) in
      (
        meta,
        f,
        same_ttl,
        rw owner (caller_sound r named),
        λ later in_time. rw owner (
            validate-generate lawful later (requested_id r) (caller jwt now secret r) token asked
              signed in_time),
      )

  -- A stream token is issued only to the owner of the video that was asked for, who is the user of
  -- the request's context or the subject of its access token. The token verifies as the owner's for
  -- that video at every time before the fifteen minutes are over. The condition: a token that the
  -- library signs parses to its claims until it expires.
  pub hls_token_handler_issues :
      IsLawful jwt
      → (fetch : String → Fetched) (r : Request) (token url : String) (ttl later : ℕ)
      → hls_token_handler jwt now secret fetch r ≡ issued token ttl url
      → later < now + hls_token_ttl
      → (meta : VideoMeta) × (fetch (requested_id r) ≡ found meta)
        × (ttl ≡ hls_token_ttl)
        × ((r.user ≡ meta.owner_id) ⊎ HasAccessToken jwt now secret r meta.owner_id)
        × (validate_hls_token jwt later secret token (requested_id r) ≡ some meta.owner_id)
  hls_token_handler_issues law fetch r token url ttl later h k =
      let (meta, a, b, c, d) = hls_token_handler_sound law fetch r token url ttl h in
      (meta, a, b, c, d later k)
