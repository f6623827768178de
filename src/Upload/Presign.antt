-- ===== src/Upload/Presign.antt =====
-- services/upload/internal/handler/presign.go: uploads by a signed PUT. A body that does not decode
-- is `none`.
use flowix.Common.{String, Bool, ◌&&◌, not, Option, none, some, ◌==◌, if◌then◌else◌}
use flowix.Common.Text.{trim_space}
use flowix.Http.{Request}
use flowix.Upload.{
  Outcome, ok, fail, Services, Env, Reply, write_json, write_error, presigned, raw_key, token_of,
  is_allowed_content_type, guarded, announce,
}

-- `presignRequest`
pub record PresignRequest : Type 0 where
  pub title : String
  pub description : String
  pub filename : String
  pub content_type : String

abbrev or_untitled : String → String
or_untitled t = if t == "" then "Untitled" else t

-- The title, or the file's name, or "Untitled".
unfoldable pub title_of : PresignRequest → String
unfolding trim_space
title_of req =
    if trim_space req.title == ""
    then or_untitled (trim_space req.filename)
    else trim_space req.title

-- The content type is there, and none that is allowed.
unfoldable pub bad_type : PresignRequest → Bool
unfolding trim_space is_allowed_content_type
bad_type req =
    let ct = trim_space req.content_type in not (ct == "") && not (is_allowed_content_type ct)

-- `publicEndpointFromEnv`, which `Presign` has inline.
abbrev pub public_endpoint : Env → String
public_endpoint env =
    if not (env.minio_public_endpoint == "")
    then env.minio_public_endpoint
    else env.minio_external_url

abbrev presigned_reply : String → Outcome String → Reply
presigned_reply id (fail e) = write_error 500 "presign failed"
presigned_reply id (ok url) = write_json 201 (presigned id (raw_key id) url)

abbrev presign_created : {W : Type 0} → Services W → Env → Outcome String × W → Reply × W
presign_created sv env (fail e, w) = (write_error 502 "metadata unavailable", w)
presign_created sv env (ok id, w) =
    (presigned_reply id (sv.presigned_put (raw_key id) (public_endpoint env) w), w)

-- `Presign`
unfoldable pub presign :
    {W : Type 0} → Services W → Env → Option PresignRequest → Request → W → Reply × W
unfolding title_of bad_type
presign sv env none r w = (write_error 400 "invalid body", w)
presign sv env (some req) r w =
    let rest =
      presign_created sv env (sv.create_video (token_of r) (title_of req) req.description w) in
    if bad_type req then (write_error 400 "unsupported content type", w) else rest

abbrev or_empty : Option String → String
or_empty none = ""
or_empty (some id) = id

-- The id in the path, or else in the body.
unfoldable pub completed_id : Option String → Request → String
completed_id body r = if r.param "id" == "" then or_empty body else r.param "id"

-- `Complete`
unfoldable pub complete : {W : Type 0} → Services W → Option String → Request → W → Reply × W
unfolding completed_id guarded announce
complete sv body r w =
    guarded sv (completed_id body r) r.user w (
      announce sv "object not found, upload via presigned URL first" (completed_id body r) r.user w)
