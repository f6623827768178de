-- ===== src/Metadata/Storage/Deleted.antt =====
-- The handler `Delete` with the object store behind it: which objects a delete takes away.
use flowix.Common.{
  ◌≡◌, inl, inr, refl, String, ◌<>◌, Bool, true, false, ◌||◌, Option, List, [], ◌∷◌, arith,
  Bool-cases,
}
use flowix.Common.Keys.{member}
use flowix.Common.Text.{has_prefix}
use flowix.Http.{Request}
use flowix.Metadata.Database.{Database, Faults}
use flowix.Metadata.Repository
use flowix.Metadata.Repository.{
  Result, ok, err, RepoError, not_found, forbidden, invalid_visibility, no_rows, db_error,
}
use flowix.Metadata.Handler.{Storage}
use flowix.Metadata.Handler.Delete.{delete, delete_reply, keys_of, removals, clean_up}
use flowix.Metadata.Storage.{
  Minio, MinioClient, remove_keys, remove_under, run_removals, as_storage,
}
use flowix.Metadata.Storage.Removed.{
  IsStore, Answers, remove_keys-others, remove_under-others, remove_under_absent, remove_under-gone,
}

-- Whether the key is under one of the three folders of a video.
abbrev pub in_folder : String → String → Bool
in_folder id k =
    has_prefix k ("renditions/" <> id <> "/")
    || has_prefix k ("raw/" <> id <> "/")
    || has_prefix k ("thumbnails/" <> id <> "/")

-- The keys that the handler reads from the tables before the delete.
abbrev pub read_keys : (String → String) → Faults → String → Database → List String
read_keys uuid f id db = keys_of id (Repository.get_by_id f (uuid id) db)

reply-removals :
    (s : Storage) (id : String) (keys : List String) (p : Result (Unit {0}) × Database)
    → (delete_reply s id keys p).0.status ≡ 204
    → (delete_reply s id keys p).2 ≡ clean_up s id keys
reply-removals s id keys (err not_found, db) h = absurd (omega (arith, h))
reply-removals s id keys (err forbidden, db) h = absurd (omega (arith, h))
reply-removals s id keys (err invalid_visibility, db) h = absurd (omega (arith, h))
reply-removals s id keys (err no_rows, db) h = absurd (omega (arith, h))
reply-removals s id keys (err db_error, db) h = absurd (omega (arith, h))
reply-removals s id keys (ok u, db) h = refl

module _ {C W : Type 0} (lib : Minio C W) (m : MinioClient C) (holds : String → W → Bool)
    (st : IsStore lib m holds) where
  removals-others :
      (id j : String) (keys : List String) (w : W)
      → in_folder id j ≡ false
      → member j keys ≡ false
      → holds j (run_removals lib m (removals id keys) w) ≡ holds j w
  unfolding run_removals
  removals-others id j [] w h n =
      rw
        (
          remove_under-others lib m holds st j ("thumbnails/" <> id <> "/") _ (ground (arith, h)),
          remove_under-others lib m holds st j ("raw/" <> id <> "/") _ (ground (arith, h)),
          remove_under-others lib m holds st j ("renditions/" <> id <> "/") _ (ground (arith, h)),
        )
        refl
  removals-others id j (k ∷ ks) w h n =
      rw
        (
          remove_under-others lib m holds st j ("thumbnails/" <> id <> "/") _ (ground (arith, h)),
          remove_under-others lib m holds st j ("raw/" <> id <> "/") _ (ground (arith, h)),
          remove_under-others lib m holds st j ("renditions/" <> id <> "/") _ (ground (arith, h)),
        )
        (remove_keys-others lib m holds st j (k ∷ ks) w n)

  folders-gone :
      Answers lib m holds
      → (id j : String) (w : W) → in_folder id j ≡ true
      → holds j (
          remove_under lib m ("thumbnails/" <> id <> "/") (
            remove_under lib m
              ("raw/" <> id <> "/")
              (remove_under lib m ("renditions/" <> id <> "/") w)))
        ≡ false
  folders-gone up id j w h = elim (Bool-cases (has_prefix j ("thumbnails/" <> id <> "/"))) [
    | inl t ↦ remove_under-gone lib m holds st up j ("thumbnails/" <> id <> "/") _ t
    | inr t ↦
        remove_under_absent lib m holds st j ("thumbnails/" <> id <> "/") _
          (elim (Bool-cases (has_prefix j ("raw/" <> id <> "/"))) [
            | inl r ↦ remove_under-gone lib m holds st up j ("raw/" <> id <> "/") _ r
            | inr r ↦ remove_under_absent lib m holds st j ("raw/" <> id <> "/") _ (
                remove_under-gone lib m holds st up j ("renditions/" <> id <> "/") w
                  (ground (arith, h, t, r)))
          ])
  ]

  removals-gone :
      Answers lib m holds
      → (id j : String) (keys : List String) (w : W) → in_folder id j ≡ true
      → holds j (run_removals lib m (removals id keys) w) ≡ false
  unfolding run_removals
  removals-gone up id j [] w h = folders-gone up id j w h
  removals-gone up id j (k ∷ ks) w h = folders-gone up id j (remove_keys lib m (k ∷ ks) w) h

  module _ (uuid : String → String) (raw_query : String → Option String) (f g : Faults)
      (r : Request) (db : Database)
      (done : (delete uuid (as_storage lib raw_query m) f g r db).0.status ≡ 204) (w : W) where
    calls :
        (delete uuid (as_storage lib raw_query m) f g r db).2
        ≡ removals (r.param "id") (read_keys uuid f (r.param "id") db)
    unfolding delete as_storage
    calls =
        reply-removals (as_storage lib raw_query m) (r.param "id")
          (read_keys uuid f (r.param "id") db) (Repository.delete g (uuid (r.param "id")) r.user db)
          done

    -- After a delete that is answered by 204, with a store that answers every call and keeps its
    -- promises (IsStore, Answers), no object is left in the folders of the video that was deleted. The
    -- condition: the path has the video's id in the spelling that Postgres prints; with another
    -- spelling of the same id the folders that are emptied are not the video's.
    pub delete-gone :
        Answers lib m holds
        → uuid (r.param "id") ≡ r.param "id"
        → (j : String) → in_folder (uuid (r.param "id")) j ≡ true
        → holds j (run_removals lib m (delete uuid (as_storage lib raw_query m) f g r db).2 w)
          ≡ false
    delete-gone up printed j t = rw calls (removals-gone up (r.param "id") j _ w (rw printed at t))

    -- After a delete that is answered by 204, whether the store's calls fail or not, an object outside
    -- the folders named by the id in the path is as it was, if its key is none of those that the handler read from
    -- the video's row and renditions; the store keeps its promises (IsStore).
    pub delete-others :
        (j : String)
        → in_folder (r.param "id") j ≡ false
        → member j (read_keys uuid f (r.param "id") db) ≡ false
        → holds j (run_removals lib m (delete uuid (as_storage lib raw_query m) f g r db).2 w)
          ≡ holds j w
    delete-others j t n = rw calls (removals-others (r.param "id") j _ w t n)
