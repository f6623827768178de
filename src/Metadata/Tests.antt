-- ===== src/Metadata/Tests.antt =====
-- The metadata service run on two videos: Ann's, which is ready and private, and Bob's upload.
use mathlib.Core.List.Memᴰ
use flowix.Common.{
  ◌≡◌, ◌⊎◌, inl, refl, differ, String, true, false, none, some, List, [], ◌∷◌, All, ◌==◌,
  if◌then◌else◌,
}
use flowix.Common.Int.{pos}
use flowix.Common.Keys.{Nodup, member}
use flowix.Common.Sort.{sort}
use flowix.Http.{Request, no_headers, set}
use flowix.Metadata.Model.{Rendition, Video, UpdateVideoRequest, valid}
use flowix.Metadata.Database.{VideoRow, Database, Faults, row_of, email_of, scan}
use flowix.Metadata.Database.Rows.{ids, rendition_of}
use flowix.Metadata.Repository
use flowix.Metadata.Repository.{
  ok, err, not_found, forbidden, invalid_visibility, bad_visibility, patch_row, page_rows, new_row,
  visible_to, newer,
}
use flowix.Metadata.Repository.Status.{update_status-err, update_status-row}
use flowix.Metadata.Repository.Redelivery.{run, run-IsReady}
use flowix.Metadata.Repository.Owner.{Shows, IsPatched, update_of_owner, delete_of_owner}
use flowix.Metadata.Repository.Listing.{MaySee, list-MaySee}
use flowix.Metadata.Handler.{remover, get_video}
use flowix.Metadata.Handler.Vod.{
  IsServed, get_vod_mapping, get_vod_mapping-IsServed, rendition_paths,
}
use flowix.Metadata.Server.{
  Setup, Bodies, Route, auth, internal, update, update_status, delete, serve,
}
use flowix.Metadata.Server.Invariant
use flowix.Metadata.Server.Invariant.{Call, run-IsValid}
use flowix.Metadata.Database.Invariant.{IsValid, status_enum}
use flowix.Metadata.Repository.Created.{get_by_id-create}
use flowix.Metadata.Server.Access.{serve-Safe}
use flowix.Metadata.Server.Visible.{serve-IsShown}
use flowix.Auth.{optional_auth}
use flowix.Auth.Identity.{HasAccessToken}
use flowix.Auth.Tests.{access_jwt, ann_request}

abbrev pub ann_row : VideoRow
ann_row = record {
  id = "v1";
  owner_id = "ann";
  title = "Sea";
  description = "";
  duration = none;
  status = "ready";
  visibility = "private";
  thumbnail_s3_key = none;
  created_at = 10;
  updated_at = 20;
}

abbrev bob_row : VideoRow
bob_row = record ann_row {
  id = "v2";
  owner_id = "bob";
  status = "uploaded";
  visibility = "public";
  created_at = 15;
}

abbrev low : Rendition
low = record {
  video_id = "v1";
  quality = "360p";
  bitrate = pos 800;
  width = pos 640;
  height = pos 360;
  s3_key = "renditions/v1/360p.mp4";
}

abbrev high : Rendition
high = record low {
  quality = "720p";
  bitrate = pos 2500;
  width = pos 1280;
  height = pos 720;
  s3_key = "renditions/v1/720p.mp4";
}

abbrev pub db : Database
db = record {
  videos = ann_row ∷ bob_row ∷ [];
  users = ("ann", "ann@example") ∷ ("bob", "bob@example") ∷ [];
  renditions = high ∷ low ∷ [];
  now = 30;
}

abbrev pub no_faults : Faults
no_faults _ = false

abbrev all_fail : Faults
all_fail _ = true

distinct : Nodup (ids db.videos)
unfolding member
distinct = (refl, (refl, tt))

list-MaySee_example : All (MaySee "ann") (scan (some "ann@example") ann_row ∷ [])
unfolding Repository.list page_rows visible_to sort
list-MaySee_example =
    list-MaySee no_faults 10 0 "ann" db (scan (some "ann@example") ann_row ∷ []) refl

run-IsReady_example :
    (s : VideoRow) × (row_of "v1"
        (run
          (record { faults = no_faults; id = "v1"; status = "processing"; renditions = [] } ∷ [])
          db).videos
      ≡ some s)
    × (s.status ≡ "ready")
unfolding row_of
run-IsReady_example =
    run-IsReady "v1"
      (record { faults = no_faults; id = "v1"; status = "processing"; renditions = [] } ∷ []) db
      ann_row (λ _. inl refl, tt) refl refl

update_status-err_example : (Repository.update_status all_fail "v1" "failed" [] db).1 ≡ db
unfolding Repository.update_status
update_status-err_example = update_status-err all_fail "v1" "failed" [] db Repository.db_error refl

update_status-row_example :
    row_of "v2" (Repository.update_status no_faults "v2" "ready" (low ∷ []) db).1.videos
    ≡ some (if "v2" == "v2" then record bob_row { status = "ready"; updated_at = 30 } else bob_row)
unfolding Repository.update_status
update_status-row_example =
    update_status-row no_faults "v2" "ready" (low ∷ []) db bob_row bob_row "v2" refl
      (inl (differ "uploaded" "ready" refl)) refl refl

abbrev rename : UpdateVideoRequest
rename = record { title = some "Lake"; description = none; visibility = none }

update_of_owner_example :
    (s : VideoRow) × ((v : Video) × (((Repository.update no_faults "v1" "ann" rename db).0 ≡ ok v)
        × Shows s v
        × IsPatched 30 rename ann_row s
        × ((j : String)
            → row_of j (Repository.update no_faults "v1" "ann" rename db).1.videos
              ≡ (if "v1" == j then some s else row_of j db.videos))))
unfolding row_of
update_of_owner_example =
    update_of_owner no_faults "v1" "ann" rename db ann_row distinct refl refl refl refl

delete_of_owner_example :
    ((Repository.delete no_faults "v1" "ann" db).0 ≡ ok tt)
    × ((j : String)
        → row_of j (Repository.delete no_faults "v1" "ann" db).1.videos
          ≡ (if "v1" == j then none else row_of j db.videos))
    × ((j q : String)
        → rendition_of j q (Repository.delete no_faults "v1" "ann" db).1.renditions
          ≡ (if "v1" == j then none else rendition_of j q db.renditions))
unfolding row_of
delete_of_owner_example = delete_of_owner no_faults "v1" "ann" db ann_row refl refl refl refl

abbrev request : Request
request = record {
  method = "GET";
  path = "/internal/videos/v1/mapping";
  headers = no_headers;
  query = λ _. "";
  param = λ k. if k == "id" then "v1" else "";
  remote_addr = "10.0.0.9:1";
  user = "bob";
}

get_vod_mapping-IsServed_example :
    IsServed remover no_faults "v1" db (get_vod_mapping (λ s. s) remover no_faults request db)
unfolding get_vod_mapping Repository.get_by_id sort rendition_paths
get_vod_mapping-IsServed_example =
    get_vod_mapping-IsServed (λ s. s) remover no_faults request db refl

abbrev pub setup : Setup
setup = record {
  jwt = access_jwt;
  jwt_secret = "key";
  internal_token = "inner";
  storage = remover;
  now = 1500;
  faults = no_faults;
  more_faults = no_faults;
  new_id = "v3";
  uuid = λ s. s;
}

abbrev patch_route : Route
patch_route = record {
  method = "PATCH";
  pattern = "/api/v1/videos/{id}";
  guard = auth;
  operation = update;
}

abbrev status_route : Route
status_route = record {
  method = "PATCH";
  pattern = "/internal/videos/{id}/status";
  guard = internal;
  operation = update_status;
}

abbrev delete_route : Route
delete_route = record {
  method = "DELETE";
  pattern = "/api/v1/videos/{id}";
  guard = auth;
  operation = delete;
}

abbrev patch_bodies : Bodies
patch_bodies = record { creation = none; change = some rename; progress = none }

serve-Safe_example :
    (row_of "v1" (serve setup patch_route patch_bodies no_headers request db).1.videos
      ≡ some ann_row)
    ⊎ (HasAccessToken access_jwt 1500 "key" request "ann"
        ⊎ ((update ≡ update_status) × (request.headers "X-Internal-Token" ≡ "inner")))
unfolding row_of
serve-Safe_example =
    serve-Safe setup patch_route patch_bodies no_headers request db "v1" ann_row
      (Memᴰ.tail (Memᴰ.head refl)) (differ "inner" "" refl) refl

-- Ann asks for her private video.
abbrev own_video : Request
own_video = record ann_request { param = λ k. if k == "id" then "v1" else "" }

serve-IsShown_example : HasAccessToken access_jwt 1500 "key" own_video "ann"
unfolding serve optional_auth row_of Repository.get_by_id get_video
serve-IsShown_example =
    serve-IsShown setup patch_bodies no_headers own_video db ann_row refl refl refl
      (differ "ann" "" refl) refl

pub db-IsValid : IsValid db
unfolding email_of row_of status_enum valid rendition_of member
db-IsValid = record {
  keyed = distinct;
  fitting = ((λ e. cc, refl, refl), ((λ e. cc, refl, refl), tt));
  owned = (refl, (refl, tt));
  unique = (refl, (refl, tt));
}

-- The gateway's service reports the upload as processed, then Ann deletes her video.
abbrev calls : List Call
calls =
    (record {
      setup = setup;
      route = status_route;
      bodies = record patch_bodies {
        progress = some (record {
          status = "ready";
          renditions = low ∷ [];
          thumbnail_s3_key = none;
          thumbnail_url = none;
        });
      };
      writer = no_headers;
      request = record request { headers = set "X-Internal-Token" "inner" no_headers };
      time = 40;
    })
    ∷ (record {
      setup = setup;
      route = delete_route;
      bodies = patch_bodies;
      writer = no_headers;
      request = own_video;
      time = 50;
    })
    ∷ []

run-IsValid_example : IsValid (Invariant.run calls db)
run-IsValid_example = run-IsValid calls db db-IsValid

get_by_id-create_example :
    (Repository.get_by_id no_faults "v3" db ≡ err not_found)
    × (Repository.get_by_id no_faults "v1"
          (Repository.create no_faults "v3" "bob" "Hill" "" none db).1
        ≡ (if "v3" == "v1"
            then ok (scan (email_of "bob" db.users) (new_row "v3" 30 "bob" "Hill" "" none))
            else Repository.get_by_id no_faults "v1" db))
unfolding Repository.create row_of email_of
get_by_id-create_example =
    get_by_id-create no_faults "v3" "bob" "Hill" "" none db
      (scan none (new_row "v3" 30 "bob" "Hill" "" none)) no_faults "v1" db-IsValid refl refl
