-- ===== src/Metadata/Server/Rows.antt =====
-- Who can change a row through the service.
use mathlib.Core.Option
use flowix.Common.{
  ℕ, ◌≡◌, ◌⊎◌, inl, inr, refl, ap, ◌∙◌, String, ◌&&◌, Option, none, some, List, ◌==◌, eq_iff, arith,
  find?, if◌then◌else◌, Bool-cases, String-cases,
}
use flowix.Http.{Request}
use flowix.Metadata.Model.{CreateVideoRequest, UpdateVideoRequest, Video}
use flowix.Metadata.Database.{
  VideoRow, Database, Faults, email_of, scan, row_of, update_where, delete_video,
}
use flowix.Metadata.Database.Rows.{row_of-update_where, row_of-delete_row}
use flowix.Metadata.Repository
use flowix.Metadata.Repository.{
  Result, ok, err, patch_row, bad_visibility, update_hit, owned_by, delete_read, read_video,
  renditions_of, RepoError,
}
use flowix.Metadata.Handler
use flowix.Metadata.Handler.{Storage, Reply, video_reply}
use flowix.Metadata.Handler.Delete
use flowix.Metadata.Handler.Delete.{delete_reply}
use flowix.Metadata.Server.{Setup, first_two}

-- A row stays as it is, or the user is its owner.
abbrev pub Spared : String → VideoRow → String → Database → Type 0
Spared j r user db = (row_of j db.videos ≡ some r) ⊎ (r.owner_id ≡ user)

module _ (f : Faults) (j user : String) (r : VideoRow) (db : Database)
    (here : row_of j db.videos ≡ some r) where
  create-Spared :
      (id owner title description : String) (v : Option String)
      → Spared j r user (Repository.create f id owner title description v db).1
  unfolding Repository.create row_of
  create-Spared id owner title description v = ground (arith, here, eq_iff id j)

  hit-Spared :
      (id : String) (req : UpdateVideoRequest) (o : Option VideoRow)
      → Spared j r user (update_hit f id user req db o).1
  unfolding update_where
  hit-Spared id req none = inl here
  hit-Spared id req (some x) =
      let e =
        row_of-update_where (owned_by id user) (patch_row db.now req) (λ x. refl) j db.videos in
      elim (Bool-cases (owned_by id user r)) [
        | inl mine ↦ inr (ground (arith, eq_iff r.owner_id user))
        | inr other ↦ inl (
            e
            ∙ ap (Option.map (λ x. if owned_by id user x then patch_row db.now req x else x)) here
            ∙ rw other refl)
      ]

  update-Spared :
      (id : String) (req : UpdateVideoRequest)
      → Spared j r user (Repository.update f id user req db).1
  unfolding Repository.update
  update-Spared id req = elim (Bool-cases (bad_visibility req.visibility)) [
    | inl e ↦ rw e (inl here)
    | inr e ↦ elim (Bool-cases (f 0)) [
      | inl g ↦ rw (e, g) (inl here)
      | inr g ↦
          rw (e, g)
            (hit-Spared id req
              (find? (λ (x : VideoRow). x.id == id && x.owner_id == user) db.videos))
    ]
  ]

  found-Spared :
      (id : String) (x : VideoRow) (v : Video)
      → row_of id db.videos ≡ some x
      → v.owner_id ≡ x.owner_id
      → Spared j r user (delete_read f id user db (ok v)).1
  unfolding delete_video
  found-Spared id x v e q = elim (Bool-cases (v.owner_id == user)) [
    | inr other ↦ rw other (inl here)
    | inl mine ↦ elim (Bool-cases (f 2)) [
      | inl g ↦ rw (mine, g) (inl here)
      | inr g ↦
          rw (mine, g)
            (elim (String-cases id j) [
              | inl (p, t) ↦ inr (ground (arith, e, here, p, q, eq_iff v.owner_id user))
              | inr (p, t) ↦ inl (row_of-delete_row j id db.videos ∙ rw t here)
            ])
    ]
  ]

  read-Spared :
      (id : String) (o : Option VideoRow)
      → row_of id db.videos ≡ o
      → Spared j r user (delete_read f id user db (read_video f db o)).1
  read-Spared id none e = inl here
  read-Spared id (some x) e = elim (Bool-cases (f 1)) [
    | inl g ↦ rw g (found-Spared id x (scan (email_of x.owner_id db.users) x) e refl)
    | inr g ↦ rw g (
        found-Spared id x
          (record (scan (email_of x.owner_id db.users) x) {
            renditions = renditions_of x.id db.renditions;
          })
          e refl)
  ]

  delete-Spared : (id : String) → Spared j r user (Repository.delete f id user db).1
  unfolding Repository.delete Repository.get_by_id
  delete-Spared id = elim (Bool-cases (f 0)) [
    | inl g ↦ rw g (inl here)
    | inr g ↦ rw g (read-Spared id (row_of id db.videos) refl)
  ]

pub video_reply-db :
    (s : Storage) (code : ℕ) (on_error : RepoError → Reply) (p : Result Video × Database)
    → (video_reply s code on_error p).1 ≡ p.1
video_reply-db s code on_error (ok v, db) = refl
video_reply-db s code on_error (err e, db) = refl

pub delete_reply-db :
    (s : Storage) (id : String) (keys : List String) (p : Result (Unit {0}) × Database)
    → (first_two (delete_reply s id keys p)).1 ≡ p.1
delete_reply-db s id keys (ok v, db) = refl
delete_reply-db s id keys (err e, db) = refl

module _ (st : Setup) (j : String) (r : VideoRow) (db : Database)
    (here : row_of j db.videos ≡ some r) (req : Request) where
  pub create_handler-Spared :
      (b : Option CreateVideoRequest)
      → Spared j r req.user (Handler.create st.storage st.faults st.new_id b req db).1
  unfolding Handler.create
  create_handler-Spared none = inl here
  create_handler-Spared (some c) = elim (Bool-cases (c.title == "")) [
    | inl e ↦ rw e (inl here)
    | inr e ↦ elim (Bool-cases (bad_visibility c.visibility)) [
      | inl g ↦ rw (e, g) (inl here)
      | inr g ↦
          rw (e, g, video_reply-db)
            (create-Spared st.faults j req.user r db here st.new_id req.user c.title c.description
              c.visibility)
    ]
  ]

  pub update_handler-Spared :
      (b : Option UpdateVideoRequest)
      → Spared j r req.user (Handler.update st.uuid st.storage st.faults b req db).1
  unfolding Handler.update
  update_handler-Spared none = inl here
  update_handler-Spared (some c) = elim (Bool-cases (bad_visibility c.visibility)) [
    | inl g ↦ rw g (inl here)
    | inr g ↦
        rw (g, video_reply-db)
          (update-Spared st.faults j req.user r db here (st.uuid (req.param "id")) c)
  ]

  pub delete_handler-Spared :
      Spared j r req.user
        (first_two (Delete.delete st.uuid st.storage st.faults st.more_faults req db)).1
  unfolding Delete.delete
  delete_handler-Spared =
      rw delete_reply-db
        (delete-Spared st.more_faults j req.user r db here (st.uuid (req.param "id")))
