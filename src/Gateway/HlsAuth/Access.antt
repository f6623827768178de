-- ===== src/Gateway/HlsAuth/Access.antt =====
-- Who may watch: what the guard does for every video and every request.
use flowix.Common.{
  ℕ, ◌/◌, ◌≡◌, ◌≢◌, ◌↔◌, ◌⊎◌, refl, ap, String, true, ◌||◌, ◌&&◌, not, Option, none, some, ◌==◌,
  eq_iff, arith, Bool-cases, String-cases, inl, inr,
}
use flowix.Common.Text.{equal_fold}
use flowix.Http.{Request, set_header}
use flowix.Auth.Token.{Jwt, Claims, accepted}
use flowix.Auth.Identity.{HasAccessToken}
use flowix.Gateway.VideoId.{extract_video_id}
use flowix.Gateway.MetaCache.{VideoMeta, MetaCache}
use flowix.Gateway.HlsToken.{
  Fetched, found, status_error, failed, validate_hls_token, validate_access_token,
}
use flowix.Gateway.HlsToken.Laws.{
  validate_access_token_iff, validate_hls_token_sound, validate_hls_token_complete,
}
use flowix.Gateway.HlsAuth.{
  second, Verdict, refused, passed, stamped, owns, token_param, stamp_access, private_access,
  visibility_of, judge, get_meta, hls_auth,
}

-- A stream token in the query or in X-Hls-Token that verifies, for this video and its owner.
pub record HasStreamToken (jwt : Jwt) (now : ℕ) (secret id owner : String) (r : Request)
    : Type 0 where
  pub claims : Claims
  pub present : token_param jwt now secret r ≢ ""
  pub valid : jwt.parse now secret (token_param jwt now secret r) ≡ accepted (some claims)
  pub is_hls : claims.text "type" ≡ "hls"
  pub for_video : equal_fold (claims.text "video_id") id ≡ true
  pub subject : claims.text "sub" ≡ owner

module _ (jwt : Jwt) (now : ℕ) (secret : String) where
  -- The request comes from the video's owner, by a stream token or by an access token.
  abbrev pub MayWatch : VideoMeta → String → Request → Type 0
  MayWatch meta id r =
      HasStreamToken jwt (now / second) secret id meta.owner_id r
      ⊎ HasAccessToken jwt (now / second) secret r meta.owner_id

  owns_sound : (o : Option String) (owner : String) → owns o owner ≡ true → o ≡ some owner
  owns_sound none owner h = cc
  owns_sound (some sub) owner h = ap some ((eq_iff sub owner).0 h)

  by_stream_token :
      (meta : VideoMeta) (id : String) (r : Request)
      → token_param jwt now secret r ≢ ""
      → owns
          (validate_hls_token jwt (now / second) secret (token_param jwt now secret r) id)
          meta.owner_id
        ≡ true
      → MayWatch meta id r
  by_stream_token meta id r present h =
      let (c, valid, is_hls, for_video, subject) =
        validate_hls_token_sound jwt (now / second) secret (token_param jwt now secret r) id
          meta.owner_id (owns_sound _ meta.owner_id h) in
      inl (record {
        claims = c;
        present = present;
        valid = valid;
        is_hls = is_hls;
        for_video = for_video;
        subject = subject;
      })

  by_access_token :
      (meta : VideoMeta) (vis id : String) (r : Request) (o : Option String)
      → validate_access_token jwt (now / second) secret r ≡ o
      → ((v : Verdict)
          → stamp_access jwt now secret meta vis r o ≡ v
          → (v ≢ refused 403 "{\"error\":\"forbidden: private video\"}")
          → MayWatch meta id r)
  by_access_token meta vis id r none q v e n = absurd (n (cc e))
  by_access_token meta vis id r (some sub) q v e n = elim (Bool-cases (sub == meta.owner_id)) [
    | inl mine ↦ inr (
        rw (← (eq_iff sub meta.owner_id).0 mine)
          ((validate_access_token_iff jwt (now / second) secret r sub).0 q))
    | inr other ↦ absurd (n (ground (arith, other, e)))
  ]

  abbrev pub forbidden : Verdict
  forbidden = refused 403 "{\"error\":\"forbidden: private video\"}"

  private_access_sound :
      (meta : VideoMeta) (vis id : String) (r : Request)
      → private_access jwt now secret meta vis id r ≢ forbidden
      → MayWatch meta id r
  unfolding private_access
  private_access_sound meta vis id r n = elim (Bool-cases (token_param jwt now secret r == "")) [
    | inl absent ↦ by_access_token meta vis id r _ refl _ refl (λ e. n (ground (arith, absent, e)))
    | inr present ↦
        elim (Bool-cases (
          owns (validate_hls_token jwt (now / second) secret (token_param jwt now secret r) id)
            meta.owner_id)) [
              | inl mine ↦
                  by_stream_token meta id r
                    (ground (arith, present, eq_iff (token_param jwt now secret r) "")) mine
              | inr other ↦
                  by_access_token meta vis id r _ refl _ refl
                    (λ e. n (ground (arith, other, present, e)))
            ]
  ]

  private_access_complete :
      (meta : VideoMeta) (vis id : String) (r : Request)
      → id ≢ ""
      → MayWatch meta id r
      → (r' : Request) × (private_access jwt now secret meta vis id r ≡ stamped vis r')
  unfolding private_access
  private_access_complete meta vis id r named (inl t) = (
    r,
    rw
        (validate_hls_token_complete jwt (now / second) secret (token_param jwt now secret r) id
          meta.owner_id t.claims t.valid t.is_hls named t.for_video t.subject)
        (ground (
          arith,
          t.present,
          eq_iff (token_param jwt now secret r) "",
          eq_iff meta.owner_id meta.owner_id,
        )),
  )
  private_access_complete meta vis id r named (inr t) =
      let read = (validate_access_token_iff jwt (now / second) secret r meta.owner_id).1 t in
      elim (Bool-cases (
        not (token_param jwt now secret r == "")
        && owns (validate_hls_token jwt (now / second) secret (token_param jwt now secret r) id)
            meta.owner_id)) [
              | inl mine ↦ (r, rw mine)
              | inr other ↦ (
                set_header "X-User-Id" meta.owner_id r,
                rw (other, read) (ground (arith, eq_iff meta.owner_id meta.owner_id)),
              )
            ]

  abbrev pub unavailable : Verdict
  unavailable = refused 502 "{\"error\":\"upstream unavailable\"}"

  abbrev code_of : Verdict → ℕ
  code_of (refused code body) = code
  code_of (passed r) = 1
  code_of (stamped vis r) = 0

  -- The request was looked at: it is neither passed on as it is nor answered by 502.
  abbrev IsChecked : Verdict → Type 0
  IsChecked v = (code_of v ≢ 1) × (code_of v ≢ 502)

  stamp_access-IsChecked :
      (meta : VideoMeta) (vis : String) (r : Request) (o : Option String)
      → IsChecked (stamp_access jwt now secret meta vis r o)
  stamp_access-IsChecked meta vis r none = omega arith
  stamp_access-IsChecked meta vis r (some sub) = elim (Bool-cases (sub == meta.owner_id)) [
    | inl mine ↦ rw mine omega arith
    | inr other ↦ rw other omega arith
  ]

  private_access-IsChecked :
      (meta : VideoMeta) (vis id : String) (r : Request)
      → IsChecked (private_access jwt now secret meta vis id r)
  unfolding private_access
  private_access-IsChecked meta vis id r =
      elim (Bool-cases (
        not (token_param jwt now secret r == "")
        && owns (validate_hls_token jwt (now / second) secret (token_param jwt now secret r) id)
            meta.owner_id)) [
              | inl mine ↦ rw mine omega arith
              | inr other ↦ rw other (
                  stamp_access-IsChecked meta vis r
                    (validate_access_token jwt (now / second) secret r))
            ]

  judge-found-IsChecked :
      (id : String) (r : Request) (meta : VideoMeta)
      → IsChecked (judge jwt now secret id r (found meta))
  unfolding judge
  judge-found-IsChecked id r meta =
      elim (Bool-cases (
        visibility_of jwt now secret meta == "public"
        || visibility_of jwt now secret meta == "unlisted")) [
          | inl free ↦ rw free omega arith
          | inr other ↦
              rw other (private_access-IsChecked meta (visibility_of jwt now secret meta) id r)
        ]

  -- The lookup ended in an error other than 404.
  abbrev pub LookupFailed : Fetched → Type 0
  LookupFailed f = (f ≡ failed) ⊎ ((code : ℕ) × (f ≡ status_error code) × (code ≢ 404))

  judge_unchecked :
      (id : String) (r : Request) (f : Fetched)
      → ((judge jwt now secret id r f ≡ passed r) ↔ (f ≡ status_error 404))
        × ((judge jwt now secret id r f ≡ unavailable) ↔ LookupFailed f)
  unfolding judge
  judge_unchecked id r failed =
      ((λ e. absurd (omega (arith, ap code_of e)), λ e. cc), (λ _. inl refl, λ _. refl))
  judge_unchecked id r (status_error code) = (
    ground arith,
    (λ e. inr (code, refl, λ q. omega (arith, ap code_of (rw q at e))), λ e. ground arith),
  )
  judge_unchecked id r (found meta) =
      let (n, m) = judge-found-IsChecked id r meta in
      (
        (λ e. absurd (n (ap code_of e)), λ e. cc),
        (λ e. absurd (m (ap code_of e)), λ e. ground arith),
      )

  module _ (fetch : String → Fetched) (r : Request) (c : MetaCache) where
    abbrev pub asked_id : String
    asked_id = extract_video_id r.path

    -- For a video whose visibility is neither public nor unlisted, everyone but those who may watch
    -- is refused with 403, and those who may watch are let through with the headers for that
    -- visibility.
    pub hls_auth_private :
        (meta : VideoMeta)
        → asked_id ≢ ""
        → (get_meta now fetch asked_id c).0 ≡ found meta
        → meta.visibility ≢ ""
        → meta.visibility ≢ "public"
        → meta.visibility ≢ "unlisted"
        → ((hls_auth jwt now secret fetch r c).0 ≢ forbidden → MayWatch meta asked_id r)
          × (MayWatch meta asked_id r
              → (r' : Request) × ((hls_auth jwt now secret fetch r c).0
                  ≡ stamped meta.visibility r'))
    unfolding hls_auth judge
    hls_auth_private meta named f n1 n2 n3 =
        let verdict : (hls_auth jwt now secret fetch r c).0
            ≡ private_access jwt now secret meta meta.visibility asked_id r =
          ground (
            arith,
            named,
            f,
            n1,
            n2,
            n3,
            eq_iff asked_id "",
            eq_iff meta.visibility "",
            eq_iff meta.visibility "public",
            eq_iff meta.visibility "unlisted",
          ) in
        rw verdict (
          private_access_sound meta meta.visibility asked_id r,
          private_access_complete meta meta.visibility asked_id r named,
        )

    -- The guard lets a request through unchecked exactly if it finds no video id in the path or the
    -- metadata service does not know the video; it answers 502 exactly if there is an id and the
    -- lookup ends in any other error.
    pub hls_auth_unchecked_iff :
        (((hls_auth jwt now secret fetch r c).0 ≡ passed r)
          ↔ ((asked_id ≡ "") ⊎ ((get_meta now fetch asked_id c).0 ≡ status_error 404)))
        × (((hls_auth jwt now secret fetch r c).0 ≡ unavailable)
            ↔ ((asked_id ≢ "") × LookupFailed (get_meta now fetch asked_id c).0))
    unfolding hls_auth
    hls_auth_unchecked_iff = elim (String-cases asked_id "") [
      | inl (e, t) ↦ rw t (
        (λ _. inl e, λ _. refl),
        (λ q. absurd (omega (arith, ap code_of q)), λ q. absurd (q.0 e)),
      )
      | inr (n, t) ↦
          let (free, down) = judge_unchecked asked_id r (get_meta now fetch asked_id c).0 in
          rw t (
            (λ q. inr (free.0 q), λ q. elim q [ inl e ↦ absurd (n e) | inr e ↦ free.1 e ]),
            (λ q. (n, down.0 q), λ q. down.1 q.1),
          )
    ]

    -- A video whose visibility is neither public nor unlisted is refused with 403 to everyone but
    -- its owner: a request that is not answered by that refusal carries a stream token for this
    -- video and its owner, or an access token of the owner. The video is what the lookup of the
    -- path's id found.
    pub hls_auth_private_sound :
        (meta : VideoMeta)
        → asked_id ≢ ""
        → (get_meta now fetch asked_id c).0 ≡ found meta
        → meta.visibility ≢ ""
        → meta.visibility ≢ "public"
        → meta.visibility ≢ "unlisted"
        → (hls_auth jwt now secret fetch r c).0 ≢ forbidden
        → MayWatch meta asked_id r
    hls_auth_private_sound meta n g a b c = (hls_auth_private meta n g a b c).0

    -- The owner of a video whose visibility is neither public nor unlisted is let through, by a
    -- stream token or by an access token, with the headers for that visibility. The video is what
    -- the lookup of the path's id found.
    pub hls_auth_private_complete :
        (meta : VideoMeta)
        → asked_id ≢ ""
        → (get_meta now fetch asked_id c).0 ≡ found meta
        → meta.visibility ≢ ""
        → meta.visibility ≢ "public"
        → meta.visibility ≢ "unlisted"
        → MayWatch meta asked_id r
        → (r' : Request) × ((hls_auth jwt now secret fetch r c).0 ≡ stamped meta.visibility r')
    hls_auth_private_complete meta n g a b c = (hls_auth_private meta n g a b c).1
