-- ===== src/Metadata/Handler/Delete.antt =====
-- The handlers `Delete` and `UpdateStatus` of services/metadata/internal/handler/video.go.
use flowix.Common.{
  ◌≡◌, ◌≢◌, refl, String, ◌<>◌, Bool, ◌||◌, not, Option, none, some, List, [], ◌∷◌, ◌++◌, map, ◌==◌,
  select, if◌then◌else◌,
}
use flowix.Http.{Request}
use flowix.Metadata.Model.{Rendition, Video, UpdateStatusRequest}
use flowix.Metadata.Database.{Database, Faults}
use flowix.Metadata.Repository
use flowix.Metadata.Repository.{Result, ok, err, RepoError}
use flowix.Metadata.Repository.Owner.{delete-err}
use flowix.Metadata.Handler.{
  Storage, no_storage, Removal, remove_objects, remove_prefix, Reply, write_json, write_error,
  repo_error, status_ok, empty,
}

abbrev thumbnail_key : String → Option String → String
thumbnail_key id none = "thumbnails/" <> id <> "/thumb.jpg"
thumbnail_key id (some key) = if key == "" then "thumbnails/" <> id <> "/thumb.jpg" else key

-- The objects of a video: the upload, the renditions that have a key, the thumbnail.
abbrev object_keys : String → Video → List String
object_keys id v =
    ("raw/" <> id <> "/original.mp4")
    ∷ (select (λ k. not (k == "")) (map (λ (rn : Rendition). rn.s3_key) v.renditions)
        ++ thumbnail_key id v.thumbnail_s3_key ∷ [])

abbrev pub keys_of : String → Result Video → List String
keys_of id (err e) = []
keys_of id (ok v) = object_keys id v

abbrev pub removal_of : List String → List Removal
removal_of [] = []
removal_of (k ∷ ks) = remove_objects (k ∷ ks) ∷ []

abbrev pub removals : String → List String → List Removal
removals id keys =
    removal_of keys
    ++ remove_prefix ("renditions/" <> id <> "/")
      ∷ remove_prefix ("raw/" <> id <> "/")
      ∷ remove_prefix ("thumbnails/" <> id <> "/")
      ∷ []

abbrev pub clean_up : Storage → String → List String → List Removal
clean_up no_storage id keys = []
clean_up _ id keys = removals id keys

abbrev pub delete_reply :
    Storage → String → List String → Result (Unit {0}) × Database → Reply × Database × List Removal
delete_reply s id keys (err e, db) = (repo_error e, db, [])
delete_reply s id keys (ok _, db) = (write_json 204 empty, db, clean_up s id keys)

-- `Delete`: the keys are read first, with faults of their own, since the delete takes them away.
-- The keys and the folders are named by the text of the path, the row by the id that Postgres reads
-- from it.
unfoldable pub delete :
    (String → String)
    → Storage
    → Faults
    → Faults
    → Request
    → Database
    → Reply × Database × List Removal
delete uuid s f g r db =
    delete_reply s (r.param "id")
      (keys_of (r.param "id") (Repository.get_by_id f (uuid (r.param "id")) db))
      (Repository.delete g (uuid (r.param "id")) r.user db)

abbrev pub is_status : String → Bool
is_status s = s == "uploaded" || s == "processing" || s == "ready" || s == "failed"

abbrev pub thumb_key : Option String → Option String → String
thumb_key none none = ""
thumb_key none (some url) = url
thumb_key (some key) url = key

abbrev pub set_thumbnail : Faults → String → String → Database → Database
set_thumbnail g id key db = if key == "" then db else (Repository.update_thumbnail g id key db).1

abbrev pub status_reply :
    Faults → String → UpdateStatusRequest → Result (Unit {0}) × Database → Reply × Database
status_reply g id req (err e, db) = (write_error 500 "internal error", db)
status_reply g id req (ok _, db) = (
  write_json 200 status_ok,
  set_thumbnail g id (thumb_key req.thumbnail_s3_key req.thumbnail_url) db,
)

-- `UpdateStatus`; an error of the thumbnail is only logged.
unfoldable pub update_status :
    (String → String)
    → Faults
    → Faults
    → Option UpdateStatusRequest
    → Request
    → Database
    → Reply × Database
update_status uuid f g none r db = (write_error 400 "invalid body", db)
update_status uuid f g (some req) r db =
    if not (is_status req.status)
    then (write_error 400 "invalid status", db)
    else status_reply g (uuid (r.param "id")) req
        (Repository.update_status f (uuid (r.param "id")) req.status req.renditions db)

reply_refused :
    (s : Storage) (id : String) (keys : List String) (p : Result (Unit {0}) × Database)
    (db : Database)
    → ((e : RepoError) → p.0 ≡ err e → p.1 ≡ db)
    → (delete_reply s id keys p).0.status ≢ 204
    → ((delete_reply s id keys p).1 ≡ db) × ((delete_reply s id keys p).2 ≡ [])
reply_refused s id keys (err e, after) db h n = (h e refl, refl)
reply_refused s id keys (ok _, after) db h n = absurd (n refl)

-- A delete that answers anything but 204 leaves the tables as they were and removes no object.
pub delete_refused :
    (uuid : String → String) (s : Storage) (f g : Faults) (r : Request) (db : Database)
    → (delete uuid s f g r db).0.status ≢ 204
    → ((delete uuid s f g r db).1 ≡ db) × ((delete uuid s f g r db).2 ≡ [])
unfolding delete
delete_refused uuid s f g r db n =
    reply_refused s (r.param "id")
      (keys_of (r.param "id") (Repository.get_by_id f (uuid (r.param "id")) db))
      (Repository.delete g (uuid (r.param "id")) r.user db) db
      (delete-err g (uuid (r.param "id")) r.user db) n
