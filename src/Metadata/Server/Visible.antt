-- ===== src/Metadata/Server/Visible.antt =====
-- Who can read a private video through the service's public route.
use flowix.Common.{
  ◌≡◌, ◌≢◌, ◌⊎◌, inl, inr, refl, sym, ap, ◌∙◌, String, true, some, ◌==◌, eq_iff, arith, Bool-cases,
}
use mathlib.Core.Path.{subst}
use flowix.Http.{Request, Headers, Step, reply, next}
use flowix.Auth.{optional_auth, with_user, anonymous}
use flowix.Auth.Identity.{HasAccessToken, optional_auth_sound}
use flowix.Metadata.Model.{Video}
use flowix.Metadata.Database.{VideoRow, Database, row_of}
use flowix.Metadata.Repository.{ok, get_by_id, read_video}
use flowix.Metadata.Handler.{Storage, get_video, show_video}
use flowix.Metadata.Server.{
  Setup, Bodies, get_route, get, Answer, refused, replied, serve, check, handle, handle_next,
}

-- An answer with the video.
abbrev pub IsShown : Answer → Type 0
IsShown (refused code) = ⊥
IsShown (replied r) = r.status ≡ 200

show_video-owner :
    (s : Storage) (user : String) (v : Video)
    → v.visibility ≡ "private"
    → (show_video s true user (ok v)).status ≡ 200
    → user ≡ v.owner_id
show_video-owner s user v p h = elim (Bool-cases (user == v.owner_id)) [
  | inl mine ↦ (eq_iff user v.owner_id).0 mine
  | inr other ↦
      let hidden : (v.visibility == "private") ≡ true = (eq_iff v.visibility "private").1 p in
      absurd (ground (arith, rw (hidden, other) at h))
]

module _ (st : Setup) (db : Database) (row : VideoRow) (private : row.visibility ≡ "private") where
  read-owner :
      (user : String)
      → (show_video st.storage true user (read_video st.faults db (some row))).status ≡ 200
      → user ≡ row.owner_id
  read-owner user h = elim (Bool-cases (st.faults 1)) [
    | inl e ↦ show_video-owner st.storage user _ private (rw e at h)
    | inr e ↦ show_video-owner st.storage user _ private (rw e at h)
  ]

  get_video-owner :
      (r : Request)
      → row_of (st.uuid (r.param "id")) db.videos ≡ some row
      → (get_video st.uuid st.storage true st.faults r db).status ≡ 200
      → r.user ≡ row.owner_id
  unfolding get_video get_by_id
  get_video-owner r here h = elim (Bool-cases (st.faults 0)) [
    | inl e ↦ absurd (ground (arith, rw e at h))
    | inr e ↦ read-owner r.user (rw (e, here) at h)
  ]

  -- The check of the identity leaves the path alone.
  same_param :
      (req q : Request)
      → (q ≡ anonymous req)
        ⊎ ((sub : String) × HasAccessToken st.jwt st.now st.jwt_secret req sub
            × (q ≡ with_user sub (anonymous req)))
      → row_of (st.uuid (q.param "id")) db.videos ≡ row_of (st.uuid (req.param "id")) db.videos
  same_param req q (inl same) = ap (λ x. row_of (st.uuid (x.param "id")) db.videos) same
  same_param req q (inr (sub, token, same)) =
      ap (λ x. row_of (st.uuid (x.param "id")) db.videos) same

  step-owner :
      (b : Bodies) (w : Headers) (req : Request) (p : Step)
      → req.user ≡ ""
      → row.owner_id ≢ ""
      → row_of (st.uuid (req.param "id")) db.videos ≡ some row
      → optional_auth st.jwt st.now st.jwt_secret w req ≡ p
      → IsShown (handle_next st get b p db).0
      → HasAccessToken st.jwt st.now st.jwt_secret req row.owner_id
  unfolding handle_next handle
  step-owner b w req (reply code v body) u n here e h = absurd h
  step-owner b w req (next v q) u n here e h =
      let sound = optional_auth_sound st.jwt st.now st.jwt_secret w v req q e in
      let mine : q.user ≡ row.owner_id = get_video-owner q (same_param req q sound ∙ here) h in
      elim sound [
        | inl same ↦ absurd (n (sym mine ∙ ap (λ x. x.user) same ∙ u))
        | inr (sub, token, same) ↦
            subst (HasAccessToken st.jwt st.now st.jwt_secret req)
              (sym (ap (λ x. x.user) same) ∙ mine) token
      ]

-- On the public route of a video, a request that is shown a private video has an access token of
-- its owner. The conditions: a request comes without a user in its context, and the video has an
-- owner.
pub serve-IsShown :
    (st : Setup) (b : Bodies) (w : Headers) (req : Request) (db : Database) (row : VideoRow)
    → req.user ≡ ""
    → row_of (st.uuid (req.param "id")) db.videos ≡ some row
    → row.visibility ≡ "private"
    → row.owner_id ≢ ""
    → IsShown (serve st get_route b w req db).0
    → HasAccessToken st.jwt st.now st.jwt_secret req row.owner_id
unfolding serve check
serve-IsShown st b w req db row u here p n h =
    step-owner st db row p b w req (optional_auth st.jwt st.now st.jwt_secret w req) u n here refl h
