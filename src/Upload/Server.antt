-- ===== src/Upload/Server.antt =====
-- services/upload/cmd/server/main.go: the routes of the upload service, all behind the check of the
-- access token. The router (chi) is not modelled: it chooses one of the routes for a request.
pub mod Access
pub mod Setup
use flowix.Common.{ℕ, String, Option, none, some, List, [], ◌∷◌}
use flowix.Common.Int.{ℤ}
use flowix.Http.{Request, Headers, Step, reply, next}
use flowix.Auth.{auth_middleware}
use flowix.Auth.Token.{Jwt}
use flowix.Upload.{Services, Env, Reply}
use flowix.Upload.Presign
use flowix.Upload.Presign.{PresignRequest, completed_id}
use flowix.Upload.Multipart
use flowix.Upload.Resumable
use flowix.Upload.Resumable.{Body}
use flowix.Upload.Form
use flowix.Upload.Form.{Form}

pub data Operation : Type 0 where
  upload presign complete offset append begin parts presign_part assemble : Operation

pub record Route : Type 0 where
  pub method : String
  pub pattern : String
  pub operation : Operation

abbrev route : String → String → Operation → Route
route m p o = record { method = m; pattern = p; operation = o }

-- The routes of the videos; those of health, metrics and documents are left out.
abbrev pub routes : List Route
routes =
    route "POST" "/api/v1/videos/upload" upload
    ∷ route "POST" "/api/v1/videos/presign" presign
    ∷ route "POST" "/api/v1/videos/{id}/complete" complete
    ∷ route "POST" "/api/v1/videos/complete" complete
    ∷ route "GET" "/api/v1/videos/{id}/resumable" offset
    ∷ route "PUT" "/api/v1/videos/{id}/resumable" append
    ∷ route "POST" "/api/v1/videos/multipart" begin
    ∷ route "GET" "/api/v1/videos/{id}/multipart" parts
    ∷ route "POST" "/api/v1/videos/{id}/multipart/presign-part" presign_part
    ∷ route "POST" "/api/v1/videos/{id}/multipart/complete" assemble
    ∷ []

-- The body of a request, as each operation reads it.
pub record Bodies : Type 0 where
  pub form : ℕ → Form
  pub announced : Option PresignRequest
  pub completed : Option String
  pub part_number : Option ℤ
  pub content : Body

-- A refusal by the middleware, or a handler's reply.
pub data Answer : Type 0 where
  refused : ℕ → Answer
  replied : Reply → Answer

abbrev pub replying : {W : Type 0} → Reply × W → Answer × W
replying (r, w) = (replied r, w)

module _ {W : Type 0} (sv : Services W) (env : Env) where
  unfoldable pub handle : Operation → Bodies → Request → W → Answer × W
  handle upload b r w = replying (Form.upload sv env b.form r w)
  handle presign b r w = replying (Presign.presign sv env b.announced r w)
  handle complete b r w = replying (Presign.complete sv b.completed r w)
  handle offset b r w = replying (Resumable.status sv r w)
  handle append b r w = replying (Resumable.upload sv env b.content r w)
  handle begin b r w = replying (Multipart.create sv b.announced r w)
  handle parts b r w = replying (Multipart.list_uploaded sv r w)
  handle presign_part b r w = replying (Multipart.presign_part sv env b.part_number r w)
  handle assemble b r w = replying (Multipart.complete sv r w)

  unfoldable pub handle_next : Operation → Bodies → Step → W → Answer × W
  unfolding handle
  handle_next o b (reply code h body) w = (refused code, w)
  handle_next o b (next h r) w = handle o b r w

  -- A request on a route of the service, at a time.
  unfoldable pub serve : Jwt → ℕ → String → Route → Bodies → Headers → Request → W → Answer × W
  unfolding auth_middleware handle_next
  serve jwt now secret rt b h r w =
      handle_next rt.operation b (auth_middleware jwt now secret h r) w
