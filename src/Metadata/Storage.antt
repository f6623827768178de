-- ===== src/Metadata/Storage.antt =====
-- services/metadata/internal/storage/minio.go: the metadata service's client of the object store.
-- The library minio-go is a parameter: `C` are its clients, `W` the state of the store.
pub mod Removed
pub mod Deleted
mod Tests
use flowix.Common.{ℕ, String, ◌<>◌, Bool, Option, none, some, List, [], ◌∷◌, ◌==◌, if◌then◌else◌}
use flowix.Common.Outcome.{Outcome, ok, fail, about}
use flowix.Metadata.Handler.{
  Url, Storage, remover, presigner, Removal, remove_objects, remove_prefix,
}

-- What the service calls of minio-go. An item of a listing is a key or an error; a removal tells
-- whether it failed.
pub record Minio (C W : Type 0) : Type 0 where
  pub new : String → String → String → Bool → Outcome C
  pub presigned_get_object : C → String → String → ℕ → Outcome String
  pub list_objects : C → String → String → W → List (Outcome String)
  pub remove_object : C → String → String → W → Bool × W

pub record MinioClient (C : Type 0) : Type 0 where
  pub client : C
  pub presign : Option C
  pub bucket : String

abbrev first_client : {C : Type 0} → String → Outcome C → Outcome (MinioClient C)
first_client bucket (ok c) = ok (record { client = c; presign = none; bucket = bucket })
first_client bucket (fail e) = fail ("minio new: " <> e)

abbrev second_client : {C : Type 0} → MinioClient C → Outcome C → Outcome (MinioClient C)
second_client m (ok c) = ok (record m { presign = some c })
second_client m (fail e) = fail ("minio public presign client: " <> e)

abbrev public_client : {C : Type 0} → MinioClient C → Option C → C
public_client m none = m.client
public_client m (some c) = c

module _ {C W : Type 0} (lib : Minio C W) where
  -- `NewMinioClient`
  unfoldable pub new_minio_client :
      String → String → String → String → Bool → Outcome (MinioClient C)
  new_minio_client endpoint access secret bucket secure =
      first_client bucket (lib.new endpoint access secret secure)

  -- `EnablePublicPresign`: an error leaves the client as it was.
  unfoldable pub enable_public_presign :
      String → String → String → Bool → MinioClient C → Outcome (MinioClient C)
  enable_public_presign endpoint access secret secure m =
      second_client m (lib.new endpoint access secret secure)

  -- `PresignGetInternal`
  unfoldable pub presign_get_internal : MinioClient C → String → ℕ → Outcome String
  presign_get_internal m key expiry =
      about ("presign get " <> key) (lib.presigned_get_object m.client m.bucket key expiry)

  -- `PresignGetPublic`
  unfoldable pub presign_get_public : MinioClient C → String → ℕ → Outcome String
  presign_get_public m key expiry =
      about ("presign get " <> key)
        (lib.presigned_get_object (public_client m m.presign) m.bucket key expiry)

  -- `RemoveObjects`: a failure is only logged, and an empty key is left out.
  unfoldable pub remove_keys : MinioClient C → List String → W → W
  remove_keys m [] w = w
  remove_keys m (k ∷ ks) w =
      let skipped = remove_keys m ks w in
      let removed = remove_keys m ks (lib.remove_object m.client m.bucket k w).1 in
      if k == "" then skipped else removed

  -- The loop of `RemovePrefix` over the items of the listing; an item that is an error is left out.
  remove_listed : MinioClient C → List (Outcome String) → W → W
  remove_listed m [] w = w
  remove_listed m (fail e ∷ items) w = remove_listed m items w
  remove_listed m (ok k ∷ items) w =
      remove_listed m items (lib.remove_object m.client m.bucket k w).1

  -- `RemovePrefix`, with the listing as it is when the loop begins.
  unfoldable pub remove_under : MinioClient C → String → W → W
  unfolding remove_listed
  remove_under m p w = remove_listed m (lib.list_objects m.client m.bucket p w) w

  -- The handler's calls of the store, one after the other.
  unfoldable pub run_removals : MinioClient C → List Removal → W → W
  run_removals m [] w = w
  run_removals m (remove_objects ks ∷ rs) w = run_removals m rs (remove_keys m ks w)
  run_removals m (remove_prefix p ∷ rs) w = run_removals m rs (remove_under m p w)

  -- `presignExpiry`, in seconds.
  abbrev presign_expiry : ℕ
  presign_expiry = 604800

  abbrev url_of : (String → Option String) → Outcome String → Option Url
  url_of raw_query (fail e) = none
  url_of raw_query (ok u) = some (record { text = u; raw_query = raw_query u })

  -- The client as the handler's store, which signs too. `raw_query` is what `url.Parse` reads.
  unfoldable pub as_storage : (String → Option String) → MinioClient C → Storage
  unfolding presign_get_internal presign_get_public
  as_storage raw_query m =
      presigner (λ key. url_of raw_query (presign_get_internal m key presign_expiry))
        (λ key. url_of raw_query (presign_get_public m key presign_expiry))
