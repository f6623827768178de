-- ===== src/Upload/Tests.antt =====
-- The upload service run on a small store: the state is the content of the object of Ann's video,
-- with the events that were published.
use flowix.Common.{
  ℕ, zero, suc, ◌≡◌, ◌≢◌, ◌↔◌, inl, inr, ap, Option, refl, differ, String, true, false, none, some,
  List, [], ◌∷◌, length, ◌==◌, eq_iff, arith, if◌then◌else◌,
}
use flowix.Common.Int.{pos}
use flowix.Http.{Request, no_headers, set}
use flowix.Upload.{Outcome, ok, fail, VideoUploadedEvent, MultipartPart, Services, Env, max_bytes}
use flowix.Upload.Presign
use flowix.Upload.Presign.{completed_id}
use flowix.Upload.Multipart
use flowix.Upload.Resumable
use flowix.Upload.Resumable.{
  Body, whole, bytes_of, parse_content_range, size_or_zero, read_limited, upload_ranged,
  upload_range, ContentRange,
}
use flowix.Upload.Resumable.Append.{IsAppended, upload-IsAppended}
use flowix.Upload.Resumable.Sequence.{IsPrefix, IsStore, IsChunk, run, run-IsPrefix}
use flowix.Upload.Owner.{IsRefused, handlers_refuse_strangers}
use flowix.Upload.Announced.{IsAnnounced, complete_sound, complete_iff, event_of}
use flowix.Upload.Sessions.{
  Session, Page, last, more, find_upload_id, IsOneOf, IsLatest, find_upload_id-IsLatest, list_parts,
  list_parts-eq-ok,
}
use flowix.Upload.Client.{Response}
use flowix.Auth.{auth_middleware}
use flowix.Auth.Tests.{access_jwt, ann_request}
use flowix.Upload.{guarded, require_ownership}
use flowix.Upload.Form.{bad_form}
use flowix.Upload.Server.{Route, Bodies, offset, serve}
use flowix.Upload.Server.Access.{IsPermitted, serve-IsPermitted}
use flowix.Upload.Reconciler.{Backend, IsLawful}

pub record Store : Type 0 where
  pub content : List ℕ
  pub events : List VideoUploadedEvent

abbrev services : Services Store
services = record {
  get_video_owner = λ id w. if id == "v1" then ok "ann" else fail "metadata owner status 404";
  create_video = λ token title description w. (ok "v1", w);
  publish = λ e w. (ok tt, record w { events = e ∷ w.events });
  stat_object_info = λ key w. ok (record { size = length w.content; content_type = "video/mp4" });
  get_object = λ key w. ok w.content;
  put_object = λ key bytes ct w. (ok tt, record w { content = bytes });
  presigned_put = λ key endpoint w. ok "http://localhost/put";
  create_multipart_upload = λ key ct w. (ok "u1", w);
  find_upload_id = λ key w. fail "not found";
  list_parts = λ key id w. ok [];
  complete_multipart_upload = λ key id parts w. (ok 0, w);
  presign_part = λ key id n endpoint w. ok "http://localhost/part";
}

abbrev env : Env
env = record { upload_max_bytes = ""; minio_public_endpoint = ""; minio_external_url = "" }

abbrev store : Store
store = record { content = 7 ∷ 8 ∷ []; events = [] }

abbrev request : Request
request = record {
  method = "PUT";
  path = "/api/v1/videos/v1/resumable";
  headers = set "Content-Range" "bytes 2-4/9" no_headers;
  query = λ _. "";
  param = λ k. if k == "id" then "v1" else "";
  remote_addr = "10.0.0.9:1";
  user = "ann";
}

abbrev stranger : Request
stranger = record request { user = "eve" }

abbrev body : Body
body = whole (1 ∷ 2 ∷ 3 ∷ [])

handlers_refuse_strangers_example :
    IsRefused services store (Presign.complete services none stranger store)
    × (IsRefused services store (Multipart.complete services stranger store)
        × (IsRefused services store (Multipart.list_uploaded services stranger store)
            × (IsRefused services store
                  (Multipart.presign_part services env (some (pos 1)) stranger store)
                × (IsRefused services store (Resumable.status services stranger store)
                    × IsRefused services store
                        (Resumable.upload services env body stranger store)))))
unfolding completed_id
handlers_refuse_strangers_example =
    handlers_refuse_strangers services env body none (some (pos 1)) stranger store
      (λ e. ground (arith, eq_iff "ann" "eve")) (λ e. ground (arith, eq_iff "ann" "eve"))

upload-IsAppended_example :
    (services.get_video_owner "v1" store ≡ ok "ann")
    × ((cr : ContentRange) × ((parse_content_range "bytes 2-4/9" ≡ some cr)
          × IsAppended services
              (max_bytes env)
              request
              body
              store
              cr
              (Resumable.upload services env body request store)))
unfolding Resumable.upload
upload-IsAppended_example =
    upload-IsAppended services env body request store (differ "bytes 2-4/9" "" refl) (omega arith)
      (inr refl)

complete_sound_example :
    (completed_id none request ≢ "")
    × ((services.get_video_owner "v1" store ≡ ok "ann")
        × (IsAnnounced services "v1" "ann" store
            × ((Presign.complete services none request store).1
                ≡ (services.publish (event_of services "v1" "ann") store).1)))
unfolding Presign.complete
complete_sound_example = complete_sound services none request store refl

complete_iff_example : ((Presign.complete services none request store).0.status ≡ 200) ↔ (
    (completed_id none request ≢ "")
    × ((services.get_video_owner "v1" store ≡ ok "ann") × IsAnnounced services "v1" "ann" store))
unfolding completed_id
complete_iff_example = complete_iff services none request store

abbrev sessions : List Session
sessions =
    record { key = "raw/v1/original.mp4"; upload_id = "u1"; initiated = 5 }
    ∷ record { key = "raw/v2/original.mp4"; upload_id = "u2"; initiated = 9 }
    ∷ record { key = "raw/v1/original.mp4"; upload_id = "u3"; initiated = 7 }
    ∷ []

find_upload_id-IsLatest_example :
    (t : ℕ) × (IsOneOf "raw/v1/original.mp4" "u3" t sessions
      × IsLatest "raw/v1/original.mp4" t sessions)
unfolding find_upload_id
find_upload_id-IsLatest_example =
    find_upload_id-IsLatest "raw/v1/original.mp4" "u3" sessions
      (differ "u1" "" refl, (differ "u2" "" refl, (differ "u3" "" refl, tt))) refl

abbrev part : ℕ → MultipartPart
part n = record { part_number = n; size = 8388608; etag = "e" }

abbrev pages : ℕ → Outcome Page
pages zero = ok (record {
  object_parts = part 1 ∷ part 2 ∷ [];
  is_truncated = true;
  next_part_number_marker = 2;
})
pages (suc m) =
    ok (record { object_parts = part 3 ∷ []; is_truncated = false; next_part_number_marker = 3 })

list_parts-eq-ok_example :
    list_parts pages "raw/v1/original.mp4" 4 0 ≡ ok (part 1 ∷ part 2 ∷ part 3 ∷ [])
list_parts-eq-ok_example =
    list_parts-eq-ok pages "raw/v1/original.mp4" 4 0 (part 1 ∷ part 2 ∷ part 3 ∷ [])
      (more {n = 2} {ps = part 2 ∷ []} {qs = part 3 ∷ []} refl (last {n = 3} refl)) (omega arith)

abbrev response : Response
response = record {
  status = 200;
  shown = "200";
  body = some (record { id = "v1"; owner_id = "ann"; stale = [] });
}

-- The statuses of all videos, over a store that has the object of "v1" only.
abbrev backend : Backend (String → String)
backend = record {
  list_stale_uploaded = λ ttl limit w.
      ok (record { id = "v1"; owner_id = "ann" } ∷ record { id = "v2"; owner_id = "bob" } ∷ []);
  set_status = λ id status w. (ok tt, λ j. if j == id then status else w j);
  stat_object_size = λ key w. if key == "raw/v1/original.mp4" then ok 3 else fail "no such key";
  find_upload_id = λ key w. ok "u2";
  abort_multipart_upload = λ key id w. (ok tt, w);
  publish = λ e w. (ok tt, w);
}

backend-IsLawful : IsLawful backend (λ id w. w id) (λ other id. other ≢ id)
backend-IsLawful = record {
  publish-status = λ e id w. refl;
  publish-size = λ e key w. refl;
  abort-status = λ key u id w. refl;
  abort-size = λ key u k w. refl;
  set_status-size = λ id s k w. refl;
  set_status-other = λ id s other w n. ground (arith, n, eq_iff other id);
}

services-IsStore : IsStore services "v1" (λ (w : Store). w.content)
services-IsStore = record {
  stat = λ w. inr refl;
  get = λ w bs e. ground (arith, e);
  put = λ bs ct w. inl refl;
}

abbrev start_of : Option ContentRange → ℕ
start_of none = 0
start_of (some cr) = cr.start

request-IsChunk : IsChunk "v1" (7 ∷ 8 ∷ 9 ∷ 1 ∷ 2 ∷ []) (whole (9 ∷ 1 ∷ 2 ∷ []), request)
unfolding parse_content_range
request-IsChunk =
    (refl, differ "bytes 2-4/9" "" refl, λ cr e. (7 ∷ 8 ∷ [], [], ap start_of e, refl))

-- The chunk is sent twice; the second time it comes at the wrong place and is refused.
run-IsPrefix_example :
    IsPrefix
      (run services env
        ((whole (9 ∷ 1 ∷ 2 ∷ []), request) ∷ (whole (9 ∷ 1 ∷ 2 ∷ []), request) ∷ [])
        store).content
      (7 ∷ 8 ∷ 9 ∷ 1 ∷ 2 ∷ [])
    × (length
            (run services env
              ((whole (9 ∷ 1 ∷ 2 ∷ []), request) ∷ (whole (9 ∷ 1 ∷ 2 ∷ []), request) ∷ [])
              store).content
          ≡ 5
        → (run services env
            ((whole (9 ∷ 1 ∷ 2 ∷ []), request) ∷ (whole (9 ∷ 1 ∷ 2 ∷ []), request) ∷ [])
            store).content
          ≡ 7 ∷ 8 ∷ 9 ∷ 1 ∷ 2 ∷ [])
run-IsPrefix_example =
    run-IsPrefix services "v1" (λ (w : Store). w.content) services-IsStore (7 ∷ 8 ∷ 9 ∷ 1 ∷ 2 ∷ [])
      env ((whole (9 ∷ 1 ∷ 2 ∷ []), request) ∷ (whole (9 ∷ 1 ∷ 2 ∷ []), request) ∷ []) store
      (request-IsChunk, (request-IsChunk, tt)) (9 ∷ 1 ∷ 2 ∷ [], refl)

abbrev asking : Request
asking = record ann_request { param = λ k. if k == "id" then "v1" else "" }

abbrev offset_route : Route
offset_route = record {
  method = "GET";
  pattern = "/api/v1/videos/{id}/resumable";
  operation = offset;
}

abbrev bodies : Bodies
bodies = record {
  form = λ most. bad_form;
  announced = none;
  completed = none;
  part_number = none;
  content = whole [];
}

serve-IsPermitted_example :
    IsPermitted services env access_jwt 1500 "key" offset_route bodies no_headers asking store
unfolding serve auth_middleware Resumable.status guarded require_ownership
serve-IsPermitted_example =
    serve-IsPermitted services env access_jwt 1500 "key" offset_route bodies no_headers asking store
      (inl (omega arith))
