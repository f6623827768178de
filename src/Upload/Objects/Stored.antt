-- ===== src/Upload/Objects/Stored.antt =====
-- What the object store's library promises is what the handlers and the reconciler rely on.
use flowix.Common.{◌<>◌, ℕ, ◌≡◌, ◌⊎◌, inl, inr, refl, String, List, length, arith}
use flowix.Common.Outcome.{about}
use flowix.Upload.{Outcome, ok, fail, ObjectInfo, VideoUploadedEvent, raw_key}
use flowix.Upload.Resumable.{size_or_zero}
use flowix.Upload.Resumable.Sequence.{IsStore}
use flowix.Upload.Signing.{Library}
use flowix.Upload.Objects.{Bucket, services_of, stat_object_info, get_object, put_object}

-- What the library says of the bytes under a key: a stat gives their number, a read gives all of
-- them, a write replaces them by its own and leaves them where it fails.
pub record Holds {W : Type 0} (b : Bucket W) (content : String → W → List ℕ) : Type 0 where
  pub stat :
      (key : String) (w : W) (info : ObjectInfo)
      → b.stat_object key w ≡ ok info
      → info.size ≡ length (content key w)
  pub get : (key : String) (w : W) (bs : List ℕ) → b.get_object key w ≡ ok bs → content key w ≡ bs
  pub put :
      (key : String) (bs : List ℕ) (ct : String) (w : W)
      → (content key (b.put_object key bs ct w).1 ≡ bs)
        ⊎ (content key (b.put_object key bs ct w).1 ≡ content key w)

about-ok {ℓ} : {A : Type ℓ} (msg : String) (o : Outcome A) (a : A) → about msg o ≡ ok a → o ≡ ok a
about-ok msg (ok x) a h = h
about-ok msg (fail e) a h = absurd (ground arith)

module _ {W : Type 0} (b : Bucket W) (content : String → W → List ℕ) (law : Holds b content) where
  size_cases :
      (key : String) (w : W) (o : Outcome ObjectInfo)
      → b.stat_object key w ≡ o
      → (size_or_zero (about ("stat " <> key) o) ≡ 0)
        ⊎ (size_or_zero (about ("stat " <> key) o) ≡ length (content key w))
  size_cases key w (fail e) h = inl refl
  size_cases key w (ok info) h = inr (law.stat key w info h)

  -- The services that `main` makes over such a store keep the promises that resumable uploads rely
  -- on, for every video.
  pub services_of-IsStore :
      {C : Type 0} (lib : Library C) (own : C) (owner : String → W → Outcome String)
      (create : String → String → String → W → Outcome String × W)
      (publish : VideoUploadedEvent → W → Outcome (Unit {0}) × W) (id : String)
      → IsStore (services_of b lib own owner create publish) id (content (raw_key id))
  unfolding services_of stat_object_info get_object put_object
  services_of-IsStore lib own owner create publish id = record {
    stat = λ w. size_cases (raw_key id) w (b.stat_object (raw_key id) w) refl;
    get = λ w bs h. law.get (raw_key id) w bs (about-ok ("get " <> raw_key id) _ bs h);
    put = λ bs ct w. law.put (raw_key id) bs ct w;
  }
