-- ===== src/Upload.antt =====
-- services/upload/internal/handler: the interfaces that the handlers take, with the state `W` of
-- all that is behind them, and what the handlers share (ownership.go, parts of upload.go and
-- presign.go).
pub mod Presign
pub mod Multipart
pub mod Resumable
pub mod Form
pub mod Owner
pub mod Announced
pub mod Sessions
pub mod Client
pub mod Reconciler
pub mod Queue
pub mod Signing
pub mod Objects
pub mod Server
mod Tests
use flowix.Common.{
  ℕ, String, ◌<>◌, Bool, true, false, ◌||◌, ◌&&◌, not, Option, none, some, List, ◌==◌, eqb, ltb,
  if◌then◌else◌,
}
use flowix.Common.Int.{ℤ, pos, negsuc}
use flowix.Common.Text.{trim_space, before, lower_eq, lower_has_prefix, has_prefix, contains, skip}
use flowix.Common.Strconv.{atoi}
use flowix.Http.{Request}
pub use flowix.Common.Outcome.{Outcome, ok, fail}

-- `VideoUploadedEvent`
pub record VideoUploadedEvent : Type 0 where
  pub video_id : String
  pub s3_key : String
  pub owner_id : String

-- What `StatObjectInfo` tells of an object.
pub record ObjectInfo : Type 0 where
  pub size : ℕ
  pub content_type : String

-- `storage.MultipartPart`
pub record MultipartPart : Type 0 where
  pub part_number : ℕ
  pub size : ℕ
  pub etag : String

-- The interfaces `OwnershipChecker`, `MetadataCreator`, `Publisher`, `Storage`, `PresignStorage`,
-- `ResumableStorage` and `MultipartStorage`. An operation that may write gives the state behind it.
pub record Services (W : Type 0) : Type 0 where
  pub get_video_owner : String → W → Outcome String
  pub create_video : String → String → String → W → Outcome String × W
  pub publish : VideoUploadedEvent → W → Outcome (Unit {0}) × W
  pub stat_object_info : String → W → Outcome ObjectInfo
  pub get_object : String → W → Outcome (List ℕ)
  pub put_object : String → List ℕ → String → W → Outcome (Unit {0}) × W
  pub presigned_put : String → String → W → Outcome String
  pub create_multipart_upload : String → String → W → Outcome String × W
  pub find_upload_id : String → W → Outcome String
  pub list_parts : String → String → W → Outcome (List MultipartPart)
  pub complete_multipart_upload : String → String → List MultipartPart → W → Outcome ℕ × W
  pub presign_part : String → String → ℕ → String → W → Outcome String

-- The environment variables.
pub record Env : Type 0 where
  pub upload_max_bytes : String
  pub minio_public_endpoint : String
  pub minio_external_url : String

pub data Payload : Type 0 where
  error : String → Payload
  presigned : String → String → String → Payload
  session : String → String → String → ℕ → Payload
  parts : String → String → ℕ → List MultipartPart → Payload
  part_url : ℕ → String → Payload
  uploaded_video : String → String → Payload
  offset : ℕ → Payload
  stored : ℕ → Payload
  mismatch : ℕ → ℕ → Payload
  complete_upload : ℕ → ℕ → Payload
  resume : ℕ → Option ℕ → Payload

-- A reply; `range` is the last offset in the Range header ("bytes=0-<offset>"), if that is set.
pub record Reply : Type 0 where
  pub status : ℕ
  pub range : Option ℕ
  pub payload : Payload

-- `writeJSON` and `writeError`
abbrev pub write_json : ℕ → Payload → Reply
write_json code p = record { status = code; range = none; payload = p }

abbrev pub write_error : ℕ → String → Reply
write_error code msg = write_json code (error msg)

abbrev pub raw_key : String → String
raw_key id = "raw/" <> id <> "/original.mp4"

-- `requireOwnership`: `none` for the owner, or the reply that refuses the request.
unfoldable pub require_ownership : Outcome String → String → Option Reply
unfolding contains
require_ownership (fail e) user =
    if contains e "404"
    then some (write_error 404 "video not found")
    else some (write_error 502 "metadata unavailable")
require_ownership (ok owner) user =
    if owner == user then none else some (write_error 403 "forbidden")

abbrev guarded_by : {W : Type 0} → Option Reply → W → Reply × W → Reply × W
guarded_by none w rest = rest
guarded_by (some reply) w rest = (reply, w)

-- How the handlers for one video begin: the id must be there, and the user must be its owner.
unfoldable pub guarded : {W : Type 0} → Services W → String → String → W → Reply × W → Reply × W
unfolding require_ownership
guarded sv id user w rest =
    if id == ""
    then (write_error 400 "video_id required", w)
    else guarded_by (require_ownership (sv.get_video_owner id w) user) w rest

-- The token behind "Bearer ", which is not looked at: `authHeader[7:]`.
abbrev pub token_of : Request → String
token_of r = skip 7 (r.headers "Authorization")

abbrev media_type : String → String
media_type ct = if before b';' ct == ct then ct else trim_space (before b';' ct)

-- `isAllowedContentType`, with the table `allowedCT`.
unfoldable pub is_allowed_content_type : String → Bool
unfolding trim_space before lower_eq lower_has_prefix
is_allowed_content_type ct =
    let m = trim_space (media_type ct) in
    lower_eq m "video/mp4"
    || lower_eq m "video/quicktime"
    || lower_eq m "video/x-matroska"
    || lower_eq m "video/webm"
    || lower_eq m "video/avi"
    || lower_eq m "video/mov"
    || lower_eq m "application/octet-stream"
    || lower_has_prefix m "video/"

abbrev limit_of : ℕ → Option ℤ → ℕ
limit_of d none = d
limit_of d (some (negsuc n)) = d
limit_of d (some (pos n)) = if ltb 0 n then n else d

-- The limit on a body: 5 GB or what UPLOAD_MAX_BYTES says.
unfoldable pub max_bytes : Env → ℕ
unfolding atoi
max_bytes env =
    if env.upload_max_bytes == ""
    then 5368709120
    else limit_of 5368709120 (atoi env.upload_max_bytes)

abbrev published : {W : Type 0} → String → Outcome (Unit {0}) × W → Reply × W
published id (fail e, w) = (write_error 500 "queue error", w)
published id (ok _, w) = (write_json 200 (uploaded_video id (raw_key id)), w)

abbrev accept_object :
    {W : Type 0}
    → Services W
    → (String → Reply)
    → String
    → String
    → Outcome ObjectInfo
    → W
    → Reply × W
accept_object sv missing id user (fail e) w = (missing e, w)
accept_object sv missing id user (ok info) w =
    let rest =
      published id
        (sv.publish (record { video_id = id; s3_key = raw_key id; owner_id = user }) w) in
    if eqb info.size 0
    then (write_error 400 "empty object", w)
    else if not (info.content_type == "") && not (has_prefix info.content_type "video/")
    then (write_error 400 ("unexpected content type: " <> info.content_type), w)
    else rest

-- How both `Complete` handlers end: the object must be there, not empty and not of a foreign type;
-- then the event is published.
unfoldable pub announce : {W : Type 0} → Services W → String → String → String → W → Reply × W
unfolding has_prefix
announce sv missing id user w =
    accept_object sv (λ _. write_error 404 missing) id user (sv.stat_object_info (raw_key id) w) w
