-- ===== src/Metadata/Server.antt =====
-- services/metadata/cmd/server/main.go: the routes of the metadata service, each with its
-- middleware. The router (chi) is not modelled: it chooses one of the routes for a request.
pub mod Rows
pub mod Access
pub mod Visible
pub mod Invariant
pub mod Startup
use flowix.Common.{ℕ, String, Bool, true, false, Option, List, [], ◌∷◌}
use flowix.Http.{Request, Headers, Step, reply, next}
use flowix.Auth.{auth_middleware, optional_auth, internal_auth}
use flowix.Auth.Token.{Jwt}
use flowix.Metadata.Model.{CreateVideoRequest, UpdateVideoRequest, UpdateStatusRequest}
use flowix.Metadata.Database.{Database, Faults}
use flowix.Metadata.Handler
use flowix.Metadata.Handler.{Storage, Reply}
use flowix.Metadata.Handler.Vod.{get_vod_mapping}
use flowix.Metadata.Handler.Delete

-- The middleware in front of a group of routes.
pub data Guard : Type 0 where
  auth optional internal : Guard

pub data Operation : Type 0 where
  create update delete list get update_status list_stale get_internal get_vod : Operation

pub record Route : Type 0 where
  pub method : String
  pub pattern : String
  pub guard : Guard
  pub operation : Operation

abbrev route : String → String → Guard → Operation → Route
route m p g o = record { method = m; pattern = p; guard = g; operation = o }

-- The public route of one video.
abbrev pub get_route : Route
get_route = route "GET" "/api/v1/videos/{id}" optional get

-- The routes of the videos; those of health, metrics and documents are left out.
abbrev pub routes : List Route
routes =
    route "POST" "/api/v1/videos" auth create
    ∷ route "PATCH" "/api/v1/videos/{id}" auth update
    ∷ route "DELETE" "/api/v1/videos/{id}" auth delete
    ∷ route "GET" "/api/v1/videos" optional list
    ∷ get_route
    ∷ route "PATCH" "/internal/videos/{id}/status" internal update_status
    ∷ route "GET" "/internal/videos/stale" internal list_stale
    ∷ route "GET" "/internal/videos/{id}" internal get_internal
    ∷ route "GET" "/internal/videos/{id}/vod" internal get_vod
    ∷ []

-- What `main` sets up, and what a run takes from outside: the clock, the faults of two operations
-- on the database, the next id of `uuid.New`, and how Postgres reads a text
-- as an id.
pub record Setup : Type 0 where
  pub jwt : Jwt
  pub jwt_secret : String
  pub internal_token : String
  pub storage : Storage
  pub now : ℕ
  pub faults : Faults
  pub more_faults : Faults
  pub new_id : String
  pub uuid : String → String

-- The body of a request, as each operation decodes it.
pub record Bodies : Type 0 where
  pub creation : Option CreateVideoRequest
  pub change : Option UpdateVideoRequest
  pub progress : Option UpdateStatusRequest

-- A refusal by the middleware, or a handler's reply.
pub data Answer : Type 0 where
  refused : ℕ → Answer
  replied : Reply → Answer

abbrev pub check : Setup → Guard → Headers → Request → Step
unfolding auth_middleware optional_auth internal_auth
check st auth w r = auth_middleware st.jwt st.now st.jwt_secret w r
check st optional w r = optional_auth st.jwt st.now st.jwt_secret w r
check st internal w r = internal_auth st.internal_token w r

abbrev pub replying : Reply × Database → Answer × Database
replying (r, db) = (replied r, db)

abbrev pub first_two {ℓ κ μ} : {A : Type ℓ} {B : Type κ} {C : Type μ} → A × B × C → A × B
first_two (a, b, c) = (a, b)

unfoldable pub handle : Setup → Operation → Bodies → Request → Database → Answer × Database
handle st create b r db = replying (Handler.create st.storage st.faults st.new_id b.creation r db)
handle st update b r db = replying (Handler.update st.uuid st.storage st.faults b.change r db)
handle st delete b r db =
    replying (first_two (Delete.delete st.uuid st.storage st.faults st.more_faults r db))
handle st list b r db = (replied (Handler.list st.storage st.faults r db), db)
handle st get b r db = (replied (Handler.get_video st.uuid st.storage true st.faults r db), db)
handle st update_status b r db =
    replying (Delete.update_status st.uuid st.faults st.more_faults b.progress r db)
handle st list_stale b r db = (replied (Handler.list_stale st.faults r db), db)
handle st get_internal b r db =
    (replied (Handler.get_video st.uuid st.storage false st.faults r db), db)
handle st get_vod b r db = (replied (get_vod_mapping st.uuid st.storage st.faults r db), db)

unfoldable pub handle_next : Setup → Operation → Bodies → Step → Database → Answer × Database
unfolding handle
handle_next st o b (reply code w body) db = (refused code, db)
handle_next st o b (next w r) db = handle st o b r db

-- A request on a route of the service.
unfoldable pub serve : Setup → Route → Bodies → Headers → Request → Database → Answer × Database
unfolding check handle_next
serve st rt b w r db = handle_next st rt.operation b (check st rt.guard w r) db
