-- ===== src/Platform/Creation.antt =====
-- How the upload service creates a video (`CreateVideo` of
-- services/upload/internal/client/metadata.go), with the metadata service behind its client.
use flowix.Common.{
  ℕ, ◌≡◌, refl, ap, String, ◌<>◌, none, some, ◌∷◌, ◌==◌, eq_refl, arith, Bool-cases, inl, inr,
}
use mathlib.Core.Path.{subst}
use flowix.Http.{Request, Step, reply, next, no_headers, set}
use flowix.Auth.{auth_middleware}
use flowix.Auth.Identity.{HasAccessToken, auth_middleware_sound}
use flowix.Metadata.Model.{Video}
use flowix.Metadata.Database.{VideoRow, Database, row_of, scan}
use flowix.Metadata.Repository
use flowix.Metadata.Repository.{Result, RepoError, new_row}
use flowix.Metadata.Repository.Created.{create-ok}
use flowix.Metadata.Handler
use flowix.Metadata.Handler.{presign_thumbnail, video_reply, create_error}
use flowix.Metadata.Server.{
  Setup, Bodies, Route, auth, create, refused, replied, replying, serve, handle, handle_next,
}
use flowix.Upload.{Outcome, ok}
use flowix.Upload.Client
use flowix.Platform.{no_bodies}
use flowix.Platform.Ownership.{answered}

-- The request of `CreateVideo`.
abbrev pub create_request : String → Request
create_request token = record {
  method = "POST";
  path = "/api/v1/videos";
  headers =
      set "Authorization" ("Bearer " <> token) (set "Content-Type" "application/json" no_headers);
  query = λ _. "";
  param = λ _. "";
  remote_addr = "";
  user = "";
}

abbrev create_body : String → String → Bodies
create_body title description = record no_bodies {
  creation = some (record { title = title; description = description; visibility = none });
}

abbrev create_route : Route
create_route = record {
  method = "POST";
  pattern = "/api/v1/videos";
  guard = auth;
  operation = create;
}

-- `CreateVideo` with a user's token, answered by the metadata service.
unfoldable pub create_of : Setup → String → String → String → Database → Outcome String × Database
unfolding serve Client.create_video
create_of st token title description db =
    let p =
      serve st create_route (create_body title description) no_headers (create_request token) db in
    (Client.create_video (ok (answered p.0)), p.1)

module _ (st : Setup) (title description : String) (db : Database) (id : String) where
  -- The columns of a video that waits for its upload.
  pub record IsWaiting (user : String) (row : VideoRow) : Type 0 where
    pub own_id : row.id ≡ id
    pub owner : row.owner_id ≡ user
    pub given_title : row.title ≡ title
    pub given_description : row.description ≡ description
    pub waiting : row.status ≡ "uploaded"
    pub shown_to_all : row.visibility ≡ "public"
    pub no_duration : row.duration ≡ none
    pub no_thumbnail : row.thumbnail_s3_key ≡ none
    pub created : row.created_at ≡ db.now
    pub updated : row.updated_at ≡ db.now

  -- A new video of the user, whose id was free.
  abbrev pub IsNew : String → Database → Type 0
  IsNew user after =
      (row_of id db.videos ≡ none)
      × ((row : VideoRow) × ((row_of id after.videos ≡ some row) × IsWaiting user row))

  new_row-IsWaiting :
      (user : String) → IsWaiting user (new_row id db.now user title description none)
  new_row-IsWaiting user = record {
    own_id = refl;
    owner = refl;
    given_title = refl;
    given_description = refl;
    waiting = refl;
    shown_to_all = refl;
    no_duration = refl;
    no_thumbnail = refl;
    created = refl;
    updated = refl;
  }

  never_created :
      (e : RepoError) → Client.create_video (ok (answered (replied (create_error e)))) ≡ ok id → ⊥
  unfolding Client.create_video
  never_created Repository.not_found h = ground arith
  never_created Repository.forbidden h = ground arith
  never_created Repository.invalid_visibility h = ground arith
  never_created Repository.no_rows h = ground arith
  never_created Repository.db_error h = ground arith

  never_refused : (code : ℕ) → Client.create_video (ok (answered (refused code))) ≡ ok id → ⊥
  unfolding Client.create_video
  never_refused code h = ground arith

  replied-IsNew :
      (user : String) (p : Result Video × Database)
      → ((v : Video)
          → p.0 ≡ Repository.ok v
          → (row_of st.new_id db.videos ≡ none)
            × (v ≡ scan none (new_row st.new_id db.now user title description none))
            × (p.1 ≡ record db {
              videos = new_row st.new_id db.now user title description none ∷ db.videos;
            }))
      → Client.create_video (ok (answered (replying (video_reply st.storage 201 create_error p)).0))
        ≡ ok id
      → IsNew user (replying (video_reply st.storage 201 create_error p)).1
  unfolding Client.create_video row_of presign_thumbnail
  replied-IsNew user (Repository.err e, after) k h = absurd (never_created e h)
  replied-IsNew user (Repository.ok v, after) k h =
      let (free, same, changed) = k v refl in
      let here : id ≡ st.new_id = ground (arith, rw same at h) in
      rw changed (
        rw here free,
        (
          new_row id db.now user title description none,
          (rw (here, eq_refl st.new_id) refl, new_row-IsWaiting user),
        ),
      )

  handled-IsNew :
      (r : Request)
      → Client.create_video
          (ok (answered (handle st create (create_body title description) r db).0))
        ≡ ok id
      → IsNew r.user (handle st create (create_body title description) r db).1
  unfolding handle Handler.create Client.create_video
  handled-IsNew r h = elim (Bool-cases (title == "")) [
    | inl untitled ↦ absurd (ground (arith, rw untitled at h))
    | inr titled ↦ rw titled (
        replied-IsNew r.user
          (Repository.create st.faults st.new_id r.user title description none db)
          (λ v e. create-ok st.faults st.new_id r.user title description none db v e)
          (rw titled at h))
  ]

  step-IsNew :
      (token : String) (p : Step)
      → auth_middleware st.jwt st.now st.jwt_secret no_headers (create_request token) ≡ p
      → Client.create_video
          (ok (answered (handle_next st create (create_body title description) p db).0))
        ≡ ok id
      → (user : String) × HasAccessToken st.jwt st.now st.jwt_secret (create_request token) user
        × IsNew user (handle_next st create (create_body title description) p db).1
  unfolding handle_next Client.create_video
  step-IsNew token (reply code v body) q h = absurd (never_refused code h)
  step-IsNew token (next v r) q h =
      let (user, has, same) =
        auth_middleware_sound st.jwt st.now st.jwt_secret no_headers v (create_request token) r q in
      (
        user,
        has,
        subst (λ u. IsNew u (handle st create (create_body title description) r db).1)
            (ap (λ (x : Request). x.user) same) (handled-IsNew r h),
      )

  -- Where the upload service is told the id of a video that it has created with a user's token, the
  -- metadata table has a row under that id, which was free: it belongs to the subject of the token,
  -- which is a valid access token, has the given title and description, is public and in status
  -- "uploaded", and has no duration and no thumbnail yet.
  pub create_of-IsNew :
      (token : String)
      → (create_of st token title description db).0 ≡ ok id
      → (user : String) × HasAccessToken st.jwt st.now st.jwt_secret (create_request token) user
        × IsNew user (create_of st token title description db).1
  unfolding create_of
  create_of-IsNew token h =
      step-IsNew token
        (auth_middleware st.jwt st.now st.jwt_secret no_headers (create_request token)) refl h
