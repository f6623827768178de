-- ===== src/Metadata/Storage/Tests.antt =====
-- The metadata service's object store as a list of keys, and a delete of Ann's video with it.
use flowix.Common.{
  ◌≡◌, refl, String, false, none, List, [], ◌∷◌, ◌==◌, eq_iff, arith, if◌then◌else◌, Bool-cases,
  inl, inr,
}
use flowix.Common.Keys.{member, remove, member-remove}
use flowix.Common.Text.{has_prefix}
use flowix.Common.Outcome.{Outcome, ok}
use flowix.Http.{Request, no_headers}
use flowix.Metadata.Repository
use flowix.Metadata.Handler.Delete.{delete}
use flowix.Metadata.Tests.{db, no_faults}
use flowix.Metadata.Storage.{Minio, MinioClient, run_removals, as_storage}
use flowix.Metadata.Storage.Removed.{IsStore, Answers, listed}
use flowix.Metadata.Storage.Deleted.{delete-gone, delete-others}

abbrev under : String → List String → List (Outcome String)
unfolding has_prefix
under p [] = []
under p (k ∷ ks) = let rest = under p ks in if has_prefix k p then ok k ∷ rest else rest

abbrev keys_store : Minio (Unit {0}) (List String)
unfolding remove under
keys_store = record {
  new = λ endpoint access secret secure. ok tt;
  presigned_get_object = λ c bucket key expiry. ok ("http://minio/");
  list_objects = λ c bucket p w. under p w;
  remove_object = λ c bucket k w. (false, remove k w);
}

abbrev client : MinioClient (Unit {0})
client = record { client = tt; presign = none; bucket = "videos" }

listed-under :
    (k p : String) (w : List String)
    → listed k (under p w) ≡ (if has_prefix k p then member k w else false)
unfolding under member
listed-under k p [] = ground arith
listed-under k p (j ∷ w) = elim (Bool-cases (has_prefix j p)) [
  | inl e ↦ rw e (ground (arith, e, listed-under k p w, eq_iff j k))
  | inr e ↦ rw e (ground (arith, e, listed-under k p w, eq_iff j k))
]

keys_store-IsStore : IsStore keys_store client member
unfolding keys_store
keys_store-IsStore = record {
  others = λ j k w n. rw (member-remove j k w) (ground (arith, n, eq_iff k j));
  gone = λ k w h. rw (member-remove k k w) (ground (arith, eq_iff k k));
  stays_gone = λ k w h. rw (member-remove k k w) (ground (arith, eq_iff k k));
  listed_prefix = λ k p w h. rw (listed-under k p w, h) refl;
}

keys_store-Answers : Answers keys_store client member
unfolding keys_store
keys_store-Answers = record {
  removes = λ k w. refl;
  lists = λ k p w h m. rw (listed-under k p w, h) m;
}

abbrev request : Request
request = record {
  method = "DELETE";
  path = "/api/v1/videos/v1";
  headers = no_headers;
  query = λ _. "";
  param = λ k. if k == "id" then "v1" else "";
  remote_addr = "10.0.0.9:1";
  user = "ann";
}

abbrev objects : List String
objects = "raw/v1/original.mp4" ∷ "raw/v2/original.mp4" ∷ "renditions/v1/old.mp4" ∷ []

delete-gone_example :
    member "renditions/v1/old.mp4" (
      run_removals keys_store client
        (delete
          (λ s. s)
          (as_storage keys_store (λ u. none) client)
          no_faults
          no_faults
          request
          db).2
        objects)
    ≡ false
unfolding delete Repository.delete Repository.get_by_id has_prefix
delete-gone_example =
    delete-gone keys_store client member keys_store-IsStore (λ s. s) (λ u. none) no_faults no_faults
      request db refl objects keys_store-Answers refl "renditions/v1/old.mp4" refl

delete-others_example :
    member "raw/v2/original.mp4" (
      run_removals keys_store client
        (delete
          (λ s. s)
          (as_storage keys_store (λ u. none) client)
          no_faults
          no_faults
          request
          db).2
        objects)
    ≡ member "raw/v2/original.mp4" objects
unfolding delete Repository.delete Repository.get_by_id has_prefix member
delete-others_example =
    delete-others keys_store client member keys_store-IsStore (λ s. s) (λ u. none) no_faults
      no_faults request db refl objects "raw/v2/original.mp4" refl refl
