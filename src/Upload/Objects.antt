-- ===== src/Upload/Objects.antt =====
-- services/upload/internal/storage/minio.go: the client of the object store, and the services that
-- the handlers and the reconciler are made with in services/upload/cmd/server/main.go. The library
-- minio-go, for the one bucket that is used, is a parameter over the state of the store.
pub mod Stored
use flowix.Common.{ℕ, String, ◌<>◌, Bool, true, false, List, if◌then◌else◌}
use flowix.Common.Outcome.{about}
use flowix.Upload.{Outcome, ok, fail, ObjectInfo, VideoUploadedEvent, MultipartPart, Services}
use flowix.Upload.Client.{StaleUpload}
use flowix.Upload.Reconciler.{Backend}
use flowix.Upload.Sessions.{
  Session, Page, find_upload_id, create_multipart_upload, list_parts, complete_multipart_upload,
}
use flowix.Upload.Signing.{Library, presigned_put_object_external, presign_part}

-- What is called of minio-go. Reading an object gives its bytes or an error.
pub record Bucket (W : Type 0) : Type 0 where
  pub bucket_exists : W → Outcome Bool
  pub make_bucket : W → Outcome (Unit {0}) × W
  pub put_object : String → List ℕ → String → W → Outcome (Unit {0}) × W
  pub stat_object : String → W → Outcome ObjectInfo
  pub get_object : String → W → Outcome (List ℕ)
  pub remove_object : String → W → Outcome (Unit {0}) × W
  pub list_multipart_uploads : String → W → Outcome (List Session)
  pub new_multipart_upload : String → String → W → Outcome String × W
  pub list_object_parts : String → String → W → ℕ → Outcome Page
  pub complete_multipart_upload : String → String → List (ℕ × String) → W → Outcome ℕ × W
  pub abort_multipart_upload : String → String → W → Outcome (Unit {0}) × W

module _ {W : Type 0} (b : Bucket W) where
  abbrev made : Outcome Bool → W → W
  made (fail e) w = w
  made (ok true) w = w
  made (ok false) w = (b.make_bucket w).1

  -- `NewMinioClient`, for what `minio.New` gives: the bucket is made if it is not there, and a
  -- failure to do so is only logged.
  unfoldable pub new_minio_client : {C : Type 0} → Outcome C → W → Outcome C × W
  new_minio_client (fail e) w = (fail ("minio new: " <> e), w)
  new_minio_client (ok c) w = (ok c, made (b.bucket_exists w) w)

  -- `PutObject`
  unfoldable pub put_object : String → List ℕ → String → W → Outcome (Unit {0}) × W
  put_object key bytes ct w =
      let p = b.put_object key bytes ct w in (about ("put object " <> key) p.0, p.1)

  abbrev no_value {ℓ} : {A : Type ℓ} → Outcome A → Outcome (Unit {0})
  no_value (ok a) = ok tt
  no_value (fail e) = fail e

  -- `StatObject`
  unfoldable pub stat_object : String → W → Outcome (Unit {0})
  stat_object key w = about ("stat " <> key) (no_value (b.stat_object key w))

  abbrev size_of : Outcome ObjectInfo → Outcome ℕ
  size_of (ok info) = ok info.size
  size_of (fail e) = fail e

  -- `StatObjectSize`
  unfoldable pub stat_object_size : String → W → Outcome ℕ
  stat_object_size key w = about ("stat " <> key) (size_of (b.stat_object key w))

  -- `StatObjectInfo`
  unfoldable pub stat_object_info : String → W → Outcome ObjectInfo
  stat_object_info key w = about ("stat " <> key) (b.stat_object key w)

  -- `GetObject`, read to its end.
  unfoldable pub get_object : String → W → Outcome (List ℕ)
  get_object key w = about ("get " <> key) (b.get_object key w)

  -- `RemoveObject`
  unfoldable pub remove_object : String → W → Outcome (Unit {0}) × W
  remove_object key w = let p = b.remove_object key w in (about ("remove " <> key) p.0, p.1)

  -- `AbortMultipartUpload`
  unfoldable pub abort_multipart_upload : String → String → W → Outcome (Unit {0}) × W
  abort_multipart_upload key id w =
      let p = b.abort_multipart_upload key id w in
      (about ("abort multipart upload " <> key) p.0, p.1)

  -- The listing of parts goes over at most one page for each of the 10000 parts that an upload can
  -- have.
  abbrev fuel : ℕ
  fuel = 10001

  -- The handlers' services: the store, with the metadata client's two calls and the publisher.
  unfoldable pub services_of :
      {C : Type 0}
      → Library C
      → C
      → (String → W → Outcome String)
      → (String → String → String → W → Outcome String × W)
      → (VideoUploadedEvent → W → Outcome (Unit {0}) × W)
      → Services W
  unfolding put_object stat_object_info get_object find_upload_id create_multipart_upload list_parts
      complete_multipart_upload presigned_put_object_external presign_part
  services_of lib own owner create publish = record {
    get_video_owner = owner;
    create_video = create;
    publish = publish;
    stat_object_info = stat_object_info;
    get_object = get_object;
    put_object = put_object;
    presigned_put = λ key endpoint w. presigned_put_object_external lib own key endpoint;
    create_multipart_upload = create_multipart_upload b.new_multipart_upload;
    find_upload_id = λ key w. find_upload_id key (b.list_multipart_uploads key w);
    list_parts = λ key id w. list_parts (b.list_object_parts key id w) key fuel 0;
    complete_multipart_upload = complete_multipart_upload b.complete_multipart_upload;
    presign_part = λ key id n endpoint w. presign_part lib own key id n endpoint;
  }

  -- The reconciler's interfaces, in the same way.
  unfoldable pub backend_of :
      (ℕ → ℕ → W → Outcome (List StaleUpload))
      → (String → String → W → Outcome (Unit {0}) × W)
      → (VideoUploadedEvent → W → Outcome (Unit {0}) × W)
      → Backend W
  unfolding stat_object_size find_upload_id abort_multipart_upload
  backend_of stale set_status publish = record {
    list_stale_uploaded = stale;
    set_status = set_status;
    stat_object_size = stat_object_size;
    find_upload_id = λ key w. find_upload_id key (b.list_multipart_uploads key w);
    abort_multipart_upload = abort_multipart_upload;
    publish = publish;
  }
