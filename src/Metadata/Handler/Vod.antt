-- ===== src/Metadata/Handler/Vod.antt =====
-- The mapping for nginx-vod: `GetVODMapping` of services/metadata/internal/handler/video.go.
use mathlib.Core.List.{Perm}
use flowix.Common.{
  ◌≤◌, All, ◌≡◌, ◌≢◌, refl, ap, ◌∙◌, String, ◌<>◌, Bool, true, false, ◌||◌, not, Option, none, some,
  List, [], ◌∷◌, map, ◌==◌, eq_iff, arith, ltb, if◌then◌else◌, Bool-cases, inl, inr,
}
use flowix.Common.Int.{ℤ, pos, negsuc}
use flowix.Common.Sort.{sort, sort-perm, sort-IsSorted, IsSorted}
use flowix.Http.{Request}
use flowix.Metadata.Model.{Rendition, Video}
use flowix.Metadata.Database.{Database, Faults}
use flowix.Metadata.Repository
use flowix.Metadata.Repository.{
  Result, ok, err, RepoError, not_found, forbidden, invalid_visibility, no_rows, db_error,
}
use flowix.Metadata.Handler.{
  Url, Storage, no_storage, remover, presigner, Reply, write_json, write_error, mapping,
}

-- The order of Go's `int`.
abbrev is_less : ℤ → ℤ → Bool
is_less (pos m) (pos n) = ltb m n
is_less (pos m) (negsuc n) = false
is_less (negsuc m) (pos n) = true
is_less (negsuc m) (negsuc n) = ltb n m

abbrev by_bitrate : Rendition → Rendition → Bool
by_bitrate a b = is_less a.bitrate b.bitrate

abbrev with_query : String → Option String → String
with_query key none = "/" <> key
with_query key (some q) = if not (q == "") then "/" <> key <> "?" <> q else "/" <> key

abbrev url_path : String → Option Url → Option String
url_path key none = none
url_path key (some u) = some (with_query key u.raw_query)

-- The path of a rendition, or `none` where it cannot be signed.
unfoldable pub rendition_path : Storage → Rendition → Option String
rendition_path no_storage rn = some ("/" <> rn.s3_key)
rendition_path remover rn = some ("/" <> rn.s3_key)
rendition_path (presigner internal public) rn = url_path rn.s3_key (internal rn.s3_key)

abbrev cons? : Option String → Option (List String) → Option (List String)
cons? none rest = none
cons? (some p) none = none
cons? (some p) (some ps) = some (p ∷ ps)

-- The loop over the renditions: the first that cannot be signed ends it.
unfoldable pub rendition_paths : Storage → List Rendition → Option (List String)
unfolding rendition_path
rendition_paths s [] = some []
rendition_paths s (rn ∷ rns) = cons? (rendition_path s rn) (rendition_paths s rns)

abbrev mapping_reply : Option (List String) → Reply
mapping_reply none = write_error 502 "presign failed"
mapping_reply (some paths) = write_json 200 (mapping paths)

abbrev is_empty : List Rendition → Bool
is_empty [] = true
is_empty (x ∷ xs) = false

abbrev vod_error : RepoError → Reply
vod_error not_found = write_error 404 "video not ready"
vod_error _ = write_error 500 "internal error"

abbrev vod_reply : Storage → Result Video → Reply
vod_reply s (err e) = vod_error e
vod_reply s (ok v) =
    if not (v.status == "ready") || is_empty v.renditions
    then write_error 404 "video not ready"
    else mapping_reply (rendition_paths s (sort by_bitrate v.renditions))

-- `GetVODMapping`
unfoldable pub get_vod_mapping : (String → String) → Storage → Faults → Request → Database → Reply
unfolding rendition_paths sort
get_vod_mapping uuid s f r db = vod_reply s (Repository.get_by_id f (uuid (r.param "id")) db)

rendition_paths-map :
    (s : Storage) (rns : List Rendition) (paths : List String)
    → rendition_paths s rns ≡ some paths
    → map (rendition_path s) rns ≡ map some paths
unfolding rendition_paths
rendition_paths-map s [] paths h = ground arith
rendition_paths-map s (rn ∷ rns) paths h =
    go (rendition_path s rn) (rendition_paths s rns) (rendition_paths-map s rns) h
  where
    go :
        (p : Option String) (ps : Option (List String))
        → ((qs : List String) → ps ≡ some qs → map (rendition_path s) rns ≡ map some qs)
        → cons? p ps ≡ some paths
        → p ∷ map (rendition_path s) rns ≡ map some paths
    go none ps ih e = cc
    go (some p) none ih e = cc
    go (some p) (some ps) ih e =
        let q : p ∷ ps ≡ paths = cc e in
        ap (λ (o : List (Option String)). some p ∷ o) (ih ps refl) ∙ ap (map some) q

mapped :
    (s : Storage) (vs : List Rendition) (rns : List Rendition) (o : Option (List String))
    → rendition_paths s rns ≡ o
    → rns ≡ sort by_bitrate vs
    → (mapping_reply o).status ≡ 200
    → (paths : List String) × ((mapping_reply o ≡ write_json 200 (mapping paths))
        × (map (rendition_path s) rns ≡ map some paths))
mapped s vs rns none e q h = absurd (ground arith)
mapped s vs rns (some paths) e q h = (paths, (refl, rendition_paths-map s rns paths e))

-- a ≤ b
abbrev pub AtMost : ℤ → ℤ → Type 0
AtMost (pos m) (pos n) = m ≤ n
AtMost (pos m) (negsuc n) = ⊥
AtMost (negsuc m) (pos n) = Unit
AtMost (negsuc m) (negsuc n) = n ≤ m

-- No bitrate is above one that stands behind it.
abbrev pub Ascending : List Rendition → Type 0
Ascending [] = Unit
Ascending (x ∷ xs) = All (λ (y : Rendition). AtMost x.bitrate y.bitrate) xs × Ascending xs

is_less-AtMost : (a b : ℤ) → is_less b a ≡ false → AtMost a b
is_less-AtMost (pos m) (pos n) h = ground arith
is_less-AtMost (pos m) (negsuc n) h = absurd (ground arith)
is_less-AtMost (negsuc m) (pos n) h = tt
is_less-AtMost (negsuc m) (negsuc n) h = ground arith

is_less-eq-false : (a b : ℤ) → AtMost a b → is_less b a ≡ false
is_less-eq-false (pos m) (pos n) h = ground arith
is_less-eq-false (pos m) (negsuc n) h = absurd h
is_less-eq-false (negsuc m) (pos n) h = refl
is_less-eq-false (negsuc m) (negsuc n) h = ground arith

AtMost-trans : (a b c : ℤ) → AtMost a b → AtMost b c → AtMost a c
AtMost-trans (pos l) (pos m) (pos n) h k = omega arith
AtMost-trans (pos l) (pos m) (negsuc n) h k = absurd k
AtMost-trans (pos l) (negsuc m) c h k = absurd h
AtMost-trans (negsuc l) b (pos n) h k = tt
AtMost-trans (negsuc l) (pos m) (negsuc n) h k = absurd k
AtMost-trans (negsuc l) (negsuc m) (negsuc n) h k = omega arith

less_asym : (a b : ℤ) → is_less a b ≡ true → is_less b a ≡ false
less_asym (pos m) (pos n) h = ground arith
less_asym (pos m) (negsuc n) h = absurd (ground arith)
less_asym (negsuc m) (pos n) h = refl
less_asym (negsuc m) (negsuc n) h = ground arith

by_bitrate-AtMost :
    (x : Rendition) (xs : List Rendition)
    → All (λ y. by_bitrate y x ≡ false) xs
    → All (λ (y : Rendition). AtMost x.bitrate y.bitrate) xs
by_bitrate-AtMost x [] h = tt
by_bitrate-AtMost x (y ∷ ys) (h, hs) =
    (is_less-AtMost x.bitrate y.bitrate h, by_bitrate-AtMost x ys hs)

IsSorted-Ascending : (rns : List Rendition) → IsSorted by_bitrate rns → Ascending rns
IsSorted-Ascending [] h = tt
IsSorted-Ascending (x ∷ xs) (h, hs) = (by_bitrate-AtMost x xs h, IsSorted-Ascending xs hs)

-- The videos that nginx-vod may serve, with all their renditions in the order of their bitrates.
pub record IsServed (s : Storage) (f : Faults) (id : String) (db : Database) (reply : Reply)
    : Type 0 where
  pub served : Video
  pub stored : Repository.get_by_id f id db ≡ ok served
  pub ready : served.status ≡ "ready"
  pub order : List Rendition
  pub all : Perm order served.renditions
  pub ascending : Ascending order
  pub paths : List String
  pub answer : reply ≡ write_json 200 (mapping paths)
  pub signed : map (rendition_path s) order ≡ map some paths

by_bitrate_trans :
    (a b c : Rendition) → by_bitrate b a ≡ false → by_bitrate c b ≡ false → by_bitrate c a ≡ false
by_bitrate_trans a b c h k = is_less-eq-false a.bitrate c.bitrate (
    AtMost-trans a.bitrate b.bitrate c.bitrate (is_less-AtMost a.bitrate b.bitrate h)
      (is_less-AtMost b.bitrate c.bitrate k))

by_bitrate_asym : (a b : Rendition) → by_bitrate a b ≡ true → by_bitrate b a ≡ false
by_bitrate_asym a b h = less_asym a.bitrate b.bitrate h

refused-status :
    (b : Bool) (reply : Reply)
    → b ≡ true
    → (if b then write_error 404 "video not ready" else reply).status ≢ 200
refused-status b reply e h = ground arith

passed-status :
    (b : Bool) (reply : Reply)
    → b ≡ false
    → (if b then write_error 404 "video not ready" else reply).status ≡ 200
    → reply.status ≡ 200
passed-status b reply e h = ground arith

vod_reply-IsServed :
    (s : Storage) (f : Faults) (id : String) (db : Database) (res : Result Video)
    → Repository.get_by_id f id db ≡ res
    → (vod_reply s res).status ≡ 200
    → IsServed s f id db (vod_reply s res)
vod_reply-IsServed s f id db (err not_found) q h = absurd (ground arith)
vod_reply-IsServed s f id db (err forbidden) q h = absurd (ground arith)
vod_reply-IsServed s f id db (err invalid_visibility) q h = absurd (ground arith)
vod_reply-IsServed s f id db (err no_rows) q h = absurd (ground arith)
vod_reply-IsServed s f id db (err db_error) q h = absurd (ground arith)
vod_reply-IsServed s f id db (ok v) q h =
    elim (Bool-cases (not (v.status == "ready") || is_empty v.renditions)) [
      | inl e ↦ absurd (refused-status _ _ e h)
      | inr e ↦ rw e (
          let (paths, (answer, signed)) =
            mapped s v.renditions (sort by_bitrate v.renditions)
              (rendition_paths s (sort by_bitrate v.renditions)) refl refl
              (passed-status _ _ e h) in
          record {
            served = v;
            stored = q;
            ready = ground (arith, eq_iff v.status "ready");
            order = sort by_bitrate v.renditions;
            all = sort-perm by_bitrate v.renditions;
            ascending =
                IsSorted-Ascending _
                  (sort-IsSorted by_bitrate by_bitrate_asym by_bitrate_trans v.renditions);
            paths = paths;
            answer = answer;
            signed = signed;
          })
    ]

-- A mapping is only answered for a ready video. It has one path for each rendition that was read,
-- in ascending order of their bitrates, each signed where the store signs.
pub get_vod_mapping-IsServed :
    (uuid : String → String) (s : Storage) (f : Faults) (r : Request) (db : Database)
    → (get_vod_mapping uuid s f r db).status ≡ 200
    → IsServed s f (uuid (r.param "id")) db (get_vod_mapping uuid s f r db)
unfolding get_vod_mapping
get_vod_mapping-IsServed uuid s f r db h =
    vod_reply-IsServed s f (uuid (r.param "id")) db
      (Repository.get_by_id f (uuid (r.param "id")) db) refl h
