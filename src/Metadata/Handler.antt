-- ===== src/Metadata/Handler.antt =====
-- services/metadata/internal/handler/video.go: the handlers, over the repository and the object
-- store. A body that does not decode is `none`; `f` gives the faults of the database.
pub mod Vod
pub mod Delete
use flowix.Common.{
  ℕ, ◌+◌, ◌*◌, ◌%◌, String, ◌<>◌, Bool, true, false, ◌||◌, ◌&&◌, not, Option, none, some, List, [],
  ◌∷◌, ◌++◌, map, ◌==◌, eqb, ltb, leb, if◌then◌else◌,
}
use flowix.Common.Int.{ℤ, pos, negsuc, int64}
use flowix.Common.Strconv.{atoi}
use flowix.Http.{Request}
use flowix.Metadata.Model.{
  Rendition, Video, StaleUpload, CreateVideoRequest, UpdateVideoRequest, UpdateStatusRequest, valid,
}
use flowix.Metadata.Database.{Database, Faults}
use flowix.Metadata.Repository
use flowix.Metadata.Repository.{
  Result, ok, err, RepoError, not_found, forbidden, invalid_visibility, no_rows, db_error,
  bad_visibility,
}

-- A signed URL: its text, and the query that `url.Parse` reads from it, if it parses.
pub record Url : Type 0 where
  pub text : String
  pub raw_query : Option String

-- The handler's object store: none, one that only removes, or one that also signs reads, for the
-- internal and for the public endpoint. Signing belongs to the store's client and may fail.
pub data Storage : Type 0 where
  no_storage remover : Storage
  presigner : (String → Option Url) → (String → Option Url) → Storage

-- Calls of the store, in order.
pub data Removal : Type 0 where
  remove_objects : List String → Removal
  remove_prefix : String → Removal

pub data Payload : Type 0 where
  error : String → Payload
  video : Video → Payload
  videos : List Video → ℕ → ℕ → Payload
  stale : List StaleUpload → Payload
  mapping : List String → Payload
  status_ok empty : Payload

pub record Reply : Type 0 where
  pub status : ℕ
  pub payload : Payload

-- `writeJSON` and `writeError`
abbrev pub write_json : ℕ → Payload → Reply
write_json code p = record { status = code; payload = p }

abbrev pub write_error : ℕ → String → Reply
write_error code msg = write_json code (error msg)

abbrev pub signed_url : Video → Option Url → Video
signed_url v none = v
signed_url v (some u) = record v { thumbnail_url = some u.text }

abbrev pub sign_thumbnail : Video → Option String → Storage → Video
sign_thumbnail v none s = v
sign_thumbnail v (some key) no_storage = v
sign_thumbnail v (some key) remover = v
sign_thumbnail v (some key) (presigner internal public) =
    if key == "" then v else signed_url v (public key)

-- `presignThumbnail`
unfoldable pub presign_thumbnail : Storage → Video → Video
presign_thumbnail s v = sign_thumbnail v v.thumbnail_s3_key s

-- The status and the message for an error of the repository; `Update` and `Delete` use all of it.
abbrev pub repo_error : RepoError → Reply
repo_error forbidden = write_error 403 "forbidden"
repo_error invalid_visibility = write_error 400 "invalid visibility"
repo_error not_found = write_error 404 "not found"
repo_error no_rows = write_error 500 "internal error"
repo_error db_error = write_error 500 "internal error"

-- In `Create` only an invalid visibility is told apart.
abbrev pub create_error : RepoError → Reply
create_error invalid_visibility = write_error 400 "invalid visibility"
create_error _ = write_error 500 "internal error"

abbrev pub video_reply :
    Storage → ℕ → (RepoError → Reply) → Result Video × Database → Reply × Database
video_reply s code on_error (ok v, db) = (write_json code (video (presign_thumbnail s v)), db)
video_reply s code on_error (err e, db) = (on_error e, db)

-- `Create`
unfoldable pub create :
    Storage → Faults → String → Option CreateVideoRequest → Request → Database → Reply × Database
create s f id none r db = (write_error 400 "invalid body", db)
create s f id (some req) r db =
    if req.title == ""
    then (write_error 400 "title required", db)
    else if bad_visibility req.visibility
    then (write_error 400 "invalid visibility", db)
    else video_reply s 201 create_error
        (Repository.create f id r.user req.title req.description req.visibility db)

abbrev get_error : RepoError → Reply
get_error not_found = write_error 404 "not found"
get_error _ = write_error 500 "internal error"

abbrev pub show_video : Storage → Bool → String → Result Video → Reply
show_video s enforce user (err e) = get_error e
show_video s enforce user (ok v) =
    if enforce && v.visibility == "private" && not (user == v.owner_id)
    then write_error 403 "forbidden"
    else write_json 200 (video (presign_thumbnail s v))

-- `getVideo`; `Get` enforces the visibility, `GetInternal` does not. Here and in the other handlers
-- `uuid` is how Postgres reads a text as an id: it gives the spelling that a row's id is printed in,
-- and the same for every spelling of an id.
unfoldable pub get_video : (String → String) → Storage → Bool → Faults → Request → Database → Reply
get_video uuid s enforce f r db =
    show_video s enforce r.user (Repository.get_by_id f (uuid (r.param "id")) db)

-- A positive number in a query, up to a limit, or the default.
abbrev pub positive_upto : Option ℕ → ℕ → Option ℤ → ℕ
positive_upto most d none = d
positive_upto most d (some (negsuc n)) = d
positive_upto none d (some (pos n)) = if ltb 0 n then n else d
positive_upto (some m) d (some (pos n)) = if ltb 0 n && leb n m then n else d

abbrev natural : ℕ → Option ℤ → ℕ
natural d none = d
natural d (some (negsuc n)) = d
natural d (some (pos n)) = n

abbrev pub stale_reply : Result (List StaleUpload) → Reply
stale_reply (err e) = write_error 500 "internal error"
stale_reply (ok rows) = write_json 200 (stale rows)

-- `time.Duration(n) * time.Second`, with the wrap-around of 64 bits.
unfoldable pub seconds : ℕ → ℤ
seconds n = int64 (n * 1000000000 % 18446744073709551616)

-- `ListStale`
unfoldable pub list_stale : Faults → Request → Database → Reply
unfolding atoi seconds
list_stale f r db = stale_reply (
    Repository.list_stale_uploaded f
      (seconds (positive_upto none 3600 (atoi (r.query "older_than_seconds"))))
      (positive_upto (some 500) 100 (atoi (r.query "limit"))) db)

-- The limit and the offset that `List` uses.
unfoldable pub page_of : Request → ℕ × ℕ
unfolding atoi
page_of r =
    (positive_upto (some 100) 20 (atoi (r.query "limit")), natural 0 (atoi (r.query "offset")))

abbrev list_reply : Storage → ℕ → ℕ → Result (List Video) → Reply
list_reply s limit offset (err e) = write_error 500 "internal error"
list_reply s limit offset (ok vs) =
    write_json 200 (videos (map (presign_thumbnail s) vs) limit offset)

-- `List`
unfoldable pub list : Storage → Faults → Request → Database → Reply
unfolding page_of
list s f r db =
    list_reply s (page_of r).0 (page_of r).1
      (Repository.list f (page_of r).0 (page_of r).1 r.user db)

-- `Update`
unfoldable pub update :
    (String → String)
    → Storage
    → Faults
    → Option UpdateVideoRequest
    → Request
    → Database
    → Reply × Database
update uuid s f none r db = (write_error 400 "invalid body", db)
update uuid s f (some req) r db =
    if bad_visibility req.visibility
    then (write_error 400 "invalid visibility", db)
    else video_reply s 200 repo_error (Repository.update f (uuid (r.param "id")) r.user req db)
