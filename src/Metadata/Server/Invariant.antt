-- ===== src/Metadata/Server/Invariant.antt =====
-- The constraints of the tables over requests to the service, in any number.
use flowix.Common.{ℕ, String, Option, none, some, List, [], ◌∷◌, ◌==◌, Bool-cases, inl, inr}
use flowix.Http.{Request, Headers, Step, reply, next}
use flowix.Metadata.Model.{CreateVideoRequest, UpdateVideoRequest, UpdateStatusRequest}
use flowix.Metadata.Database.{Database}
use flowix.Metadata.Database.Invariant.{IsValid, status_enum}
use flowix.Metadata.Repository
use flowix.Metadata.Repository.{Result, ok, err, bad_visibility}
use flowix.Metadata.Repository.Valid.{
  create-IsValid, update-IsValid, delete-IsValid, update_thumbnail-IsValid, update_status-IsValid,
}
use flowix.Metadata.Handler
use flowix.Metadata.Handler.Delete
use flowix.Metadata.Handler.Delete.{is_status, status_reply, set_thumbnail, thumb_key}
use flowix.Metadata.Server.{
  Setup, Route, Bodies, Operation, create, update, delete, list, get, update_status, list_stale,
  get_internal, get_vod, first_two, serve, check, handle, handle_next,
}
use flowix.Metadata.Server.Rows.{video_reply-db, delete_reply-db}

module _ (st : Setup) (db : Database) (v : IsValid db) (r : Request) where
  create_handler-IsValid :
      (b : Option CreateVideoRequest)
      → IsValid (Handler.create st.storage st.faults st.new_id b r db).1
  unfolding Handler.create
  create_handler-IsValid none = v
  create_handler-IsValid (some c) = elim (Bool-cases (c.title == "")) [
    | inl untitled ↦ rw untitled v
    | inr titled ↦ elim (Bool-cases (bad_visibility c.visibility)) [
      | inl bad ↦ rw (titled, bad) v
      | inr good ↦
          rw (titled, good, video_reply-db)
            (create-IsValid st.faults db v st.new_id r.user c.title c.description c.visibility)
    ]
  ]

  update_handler-IsValid :
      (b : Option UpdateVideoRequest)
      → IsValid (Handler.update st.uuid st.storage st.faults b r db).1
  unfolding Handler.update
  update_handler-IsValid none = v
  update_handler-IsValid (some c) = elim (Bool-cases (bad_visibility c.visibility)) [
    | inl bad ↦ rw bad v
    | inr good ↦
        rw (good, video_reply-db) (update-IsValid st.faults db v (st.uuid (r.param "id")) r.user c)
  ]

  delete_handler-IsValid :
      IsValid (first_two (Delete.delete st.uuid st.storage st.faults st.more_faults r db)).1
  unfolding Delete.delete
  delete_handler-IsValid =
      rw delete_reply-db (delete-IsValid st.more_faults db v (st.uuid (r.param "id")) r.user)

  thumbnail-IsValid :
      (d : Database) (id key : String) → IsValid d → IsValid (set_thumbnail st.more_faults id key d)
  thumbnail-IsValid d id key w = elim (Bool-cases (key == "")) [
    | inl unset ↦ rw unset w
    | inr given ↦ rw given (update_thumbnail-IsValid st.more_faults d w id key)
  ]

  status_reply-IsValid :
      (id : String) (req : UpdateStatusRequest) (p : Result (Unit {0}) × Database)
      → IsValid p.1
      → IsValid (status_reply st.more_faults id req p).1
  status_reply-IsValid id req (err e, d) w = w
  status_reply-IsValid id req (ok u, d) w =
      thumbnail-IsValid d id (thumb_key req.thumbnail_s3_key req.thumbnail_url) w

  status_handler-IsValid :
      (b : Option UpdateStatusRequest)
      → IsValid (Delete.update_status st.uuid st.faults st.more_faults b r db).1
  unfolding Delete.update_status
  status_handler-IsValid none = v
  status_handler-IsValid (some req) = elim (Bool-cases (is_status req.status)) [
    | inr unknown ↦ rw unknown v
    | inl known ↦ rw known (
        status_reply-IsValid (st.uuid (r.param "id")) req
          (Repository.update_status st.faults (st.uuid (r.param "id")) req.status req.renditions db)
          (update_status-IsValid st.faults (st.uuid (r.param "id")) req.status
            (unfold status_enum in known) db v req.renditions))
  ]

  handle-IsValid : (o : Operation) (b : Bodies) → IsValid (handle st o b r db).1
  unfolding handle
  handle-IsValid create b = create_handler-IsValid b.creation
  handle-IsValid update b = update_handler-IsValid b.change
  handle-IsValid delete b = delete_handler-IsValid
  handle-IsValid list b = v
  handle-IsValid get b = v
  handle-IsValid update_status b = status_handler-IsValid b.progress
  handle-IsValid list_stale b = v
  handle-IsValid get_internal b = v
  handle-IsValid get_vod b = v

-- One request on one of the routes, and the time of its transaction.
pub record Call : Type 0 where
  pub setup : Setup
  pub route : Route
  pub bodies : Bodies
  pub writer : Headers
  pub request : Request
  pub time : ℕ

abbrev answer_to : Call → Database → Database
answer_to c db = (serve c.setup c.route c.bodies c.writer c.request (record db { now = c.time })).1

-- The requests one after the other, whatever becomes of each.
abbrev pub run : List Call → Database → Database
run [] db = db
run (c ∷ cs) db = run cs (answer_to c db)

step-IsValid :
    (st : Setup) (o : Operation) (b : Bodies) (p : Step) (db : Database)
    → IsValid db
    → IsValid (handle_next st o b p db).1
unfolding handle_next
step-IsValid st o b (reply code w body) db v = v
step-IsValid st o b (next w r) db v = handle-IsValid st db v r o b

later-IsValid : (db : Database) (time : ℕ) → IsValid db → IsValid (record db { now = time })
later-IsValid db time v = record {
  keyed = v.keyed;
  fitting = v.fitting;
  owned = v.owned;
  unique = v.unique;
}

-- After any requests on the routes of the service, whether they are refused, fail or succeed, the
-- tables meet their constraints as before: no two videos have one id, each belongs to a user and
-- has a status and a visibility of the enums, each rendition belongs to a video, and no two
-- renditions of a video have one quality.
pub run-IsValid : (cs : List Call) (db : Database) → IsValid db → IsValid (run cs db)
unfolding serve
run-IsValid [] db v = v
run-IsValid (c ∷ cs) db v = run-IsValid cs (answer_to c db) (
    step-IsValid c.setup c.route.operation c.bodies (check c.setup c.route.guard c.writer c.request)
      (record db { now = c.time }) (later-IsValid db c.time v))
