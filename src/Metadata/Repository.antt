-- ===== src/Metadata/Repository.antt =====
-- services/metadata/internal/repository/video.go. An operation takes the faults of its statements
-- and the tables, and gives its result and the tables after it.
pub mod Status
pub mod Redelivery
pub mod Owner
pub mod Listing
pub mod Valid
pub mod Created
use flowix.Common.{
  ℕ, zero, suc, ◌+◌, ◌-◌, ◌/◌, leb, String, ◌<>◌, Bool, true, false, ◌||◌, ◌&&◌, not, Option, none,
  some, List, [], ◌∷◌, map, ◌==◌, eqb, ltb, select, any, find?, take, drop, if◌then◌else◌,
}
use flowix.Common.Int.{ℤ, pos, negsuc}
use flowix.Common.Sort.{sort}
use flowix.Metadata.Model.{Rendition, Video, StaleUpload, UpdateVideoRequest, valid}
use flowix.Metadata.Database.{
  VideoRow, Database, Faults, coalesce, row_of, email_of, update_where, delete_video, upsert, scan,
}

-- `no_rows` is the driver's `ErrNoRows` where the repository hands it on, `db_error` any other
-- error.
pub data RepoError : Type 0 where
  not_found forbidden invalid_visibility no_rows db_error : RepoError

pub data Result {ℓ} (A : Type ℓ) : Type ℓ where
  ok : A → Result A
  err : RepoError → Result A

abbrev pub bad_visibility : Option String → Bool
bad_visibility none = false
bad_visibility (some v) = not (valid v)

abbrev has_owner : String → List (String × String) → Option String → Bool
has_owner k us none = false
has_owner k us (some email) = true

-- The row that `Create` inserts.
abbrev pub new_row : String → ℕ → String → String → String → Option String → VideoRow
new_row id now owner title description visibility = record {
  id = id;
  owner_id = owner;
  title = title;
  description = description;
  duration = none;
  status = "uploaded";
  visibility = coalesce visibility "public";
  thumbnail_s3_key = none;
  created_at = now;
  updated_at = now;
}

abbrev is_taken : Option VideoRow → Bool
is_taken none = false
is_taken (some r) = true

-- `Create`, with the id that `uuid.New` gives. The keys of the table refuse an id that is taken and
-- an owner who is no user.
unfoldable pub create :
    Faults → String → String → String → String → Option String → Database → Result Video × Database
unfolding row_of email_of valid
create f id owner title description visibility db =
    if bad_visibility visibility
    then (err invalid_visibility, db)
    else if f 0
        || is_taken (row_of id db.videos)
        || not (has_owner owner db.users (email_of owner db.users))
    then (err db_error, db)
    else (
      ok (scan none (new_row id db.now owner title description visibility)),
      record db { videos = new_row id db.now owner title description visibility ∷ db.videos },
    )

abbrev pub renditions_of : String → List Rendition → List Rendition
renditions_of id rns = select (λ (rn : Rendition). rn.video_id == id) rns

abbrev pub read_video : Faults → Database → Option VideoRow → Result Video
read_video f db none = err not_found
read_video f db (some r) =
    if f 1
    then ok (scan (email_of r.owner_id db.users) r)
    else ok (record (scan (email_of r.owner_id db.users) r) {
      renditions = renditions_of r.id db.renditions;
    })

-- `GetByID`. A failure to read the renditions is no error: the video comes without them.
unfoldable pub get_by_id : Faults → String → Database → Result Video
unfolding row_of email_of
get_by_id f id db = if f 0 then err db_error else read_video f db (row_of id db.videos)

-- The condition of the list: public and ready, or the viewer's own.
unfoldable pub visible_to : String → VideoRow → Bool
visible_to viewer r =
    (r.visibility == "public" && r.status == "ready")
    || (not (viewer == "") && r.owner_id == viewer)

abbrev pub newer : VideoRow → VideoRow → Bool
newer a b = ltb b.created_at a.created_at

-- The rows of a page, newest first (`ORDER BY created_at DESC LIMIT … OFFSET …`); rows of the same
-- time, whose order Postgres leaves open, come in the order of the table.
unfoldable pub page_rows : ℕ → ℕ → String → List VideoRow → List VideoRow
unfolding sort visible_to
page_rows limit offset viewer rows =
    take limit (drop offset (sort newer (select (visible_to viewer) rows)))

-- `List`
unfoldable pub list : Faults → ℕ → ℕ → String → Database → Result (List Video)
unfolding page_rows email_of
list f limit offset viewer db =
    if f 0
    then err db_error
    else ok (
        map (λ (r : VideoRow). scan (email_of r.owner_id db.users) r)
          (page_rows limit offset viewer db.videos))

abbrev pub owned_by : String → String → VideoRow → Bool
owned_by id owner r = r.id == id && r.owner_id == owner

-- The columns that `Update` sets, and the trigger on `updated_at`.
abbrev pub patch_row : ℕ → UpdateVideoRequest → VideoRow → VideoRow
patch_row now req r = record r {
  title = coalesce req.title r.title;
  description = coalesce req.description r.description;
  visibility = coalesce req.visibility r.visibility;
  updated_at = now;
}

abbrev pub update_missed : Faults → Option VideoRow → Result Video
update_missed f o =
    if f 1 then err db_error else elim o [ none ↦ err not_found | some r ↦ err forbidden ]

abbrev pub update_hit :
    Faults
    → String
    → String
    → UpdateVideoRequest
    → Database
    → Option VideoRow
    → Result Video × Database
update_hit f id owner req db none = (update_missed f (row_of id db.videos), db)
update_hit f id owner req db (some r) = (
  ok (scan (email_of r.owner_id db.users) (patch_row db.now req r)),
  record db { videos = update_where (owned_by id owner) (patch_row db.now req) db.videos },
)

-- `Update`: one statement, and a second one to tell a foreign video from a missing one.
unfoldable pub update :
    Faults → String → String → UpdateVideoRequest → Database → Result Video × Database
unfolding valid row_of email_of update_where
update f id owner req db =
    if bad_visibility req.visibility
    then (err invalid_visibility, db)
    else if f 0
    then (err db_error, db)
    else update_hit f id owner req db (find? (owned_by id owner) db.videos)

abbrev pub delete_read :
    Faults → String → String → Database → Result Video → Result (Unit {0}) × Database
delete_read f id owner db (err e) = (err e, db)
delete_read f id owner db (ok v) =
    if not (v.owner_id == owner)
    then (err forbidden, db)
    else if f 2
    then (err db_error, db)
    else (ok tt, delete_video id db)

-- `Delete`
unfoldable pub delete : Faults → String → String → Database → Result (Unit {0}) × Database
unfolding get_by_id delete_video
delete f id owner db = delete_read f id owner db (get_by_id f id db)

-- `UpdateThumbnail`: a missing row is no error.
unfoldable pub update_thumbnail : Faults → String → String → Database → Result (Unit {0}) × Database
unfolding update_where
update_thumbnail f id key db = if f 0 then (err db_error, db) else (
  ok tt,
  record db {
    videos =
        update_where (λ (r : VideoRow). r.id == id)
          (λ (r : VideoRow). record r { thumbnail_s3_key = some key; updated_at = db.now })
          db.videos;
  },
)

-- Nanoseconds as whole seconds, toward zero, for `int(olderThan.Seconds())`; that a float64 rounds
-- a fraction just below one up is left out.
unfoldable pub whole_seconds : ℤ → ℤ
whole_seconds (pos n) = pos (n / 1000000000)
whole_seconds (negsuc n) = let q = (n + 1) / 1000000000 in if eqb q 0 then pos 0 else negsuc (q - 1)

-- Whether a number is a Postgres `int`.
abbrev pub fits_int4 : ℤ → Bool
fits_int4 (pos n) = leb n 2147483647
fits_int4 (negsuc n) = leb n 2147483647

-- `created_at < now() - $1::int * interval '1 second'`
abbrev pub created_before : ℕ → ℤ → ℕ → Bool
created_before now (pos n) at = ltb (at + n) now
created_before now (negsuc n) at = ltb at (now + n + 1)

abbrev pub is_stale : ℕ → ℤ → VideoRow → Bool
is_stale now older r = r.status == "uploaded" && created_before now older r.created_at

abbrev pub older_first : VideoRow → VideoRow → Bool
older_first a b = ltb a.created_at b.created_at

-- `ListStaleUploaded`, with the age in nanoseconds; the statement fails for seconds that are no
-- Postgres `int`.
unfoldable pub list_stale_uploaded : Faults → ℤ → ℕ → Database → Result (List StaleUpload)
unfolding sort whole_seconds
list_stale_uploaded f older limit db =
    let rows = if eqb limit 0 || ltb 500 limit then 100 else limit in
    if f 0 || not (fits_int4 (whole_seconds older))
    then err db_error
    else ok (
        map (λ (r : VideoRow). record { id = r.id; owner_id = r.owner_id })
          (take rows (sort older_first (select (is_stale db.now (whole_seconds older)) db.videos))))

-- The loop over the renditions; the n-th statement may fail.
upsert_all : Faults → ℕ → String → List Rendition → List Rendition → Option (List Rendition)
upsert_all f n id [] table = some table
upsert_all f n id (rn ∷ rns) table =
    let rest = upsert_all f (n + 1) id rns (upsert (record rn { video_id = id }) table) in
    if f n then none else rest

abbrev pub set_status : String → String → Database → List VideoRow
set_status id status db =
    update_where (λ (r : VideoRow). r.id == id)
      (λ (r : VideoRow). record r { status = status; updated_at = db.now }) db.videos

-- The commit is the statement after the last one. One that fails is taken to have kept nothing: that
-- the server commits and only the answer is lost is outside the model.
abbrev commit : Bool → Database → Database → Result (Unit {0}) × Database
commit fails before after = if fails then (err db_error, before) else (ok tt, after)

abbrev store_renditions :
    Faults → ℕ → String → String → Database → Option (List Rendition) → Result (Unit {0}) × Database
store_renditions f last id status db none = (err db_error, db)
store_renditions f last id status db (some table) =
    commit (f last) db (record db { videos = set_status id status db; renditions = table })

abbrev count {ℓ} : {A : Type ℓ} → List A → ℕ
count [] = 0
count (x ∷ xs) = suc (count xs)

abbrev change_status :
    Faults
    → String
    → String
    → List Rendition
    → Database
    → Option VideoRow
    → Result (Unit {0}) × Database
change_status f id status rns db none = (err no_rows, db)
change_status f id status rns db (some r) =
    if r.status == "ready" && (status == "processing" || status == "uploaded")
    then commit (f 2) db db
    else if f 2
    then (err db_error, db)
    else store_renditions f (count rns + 3) id status db (upsert_all f 3 id rns db.renditions)

-- `UpdateStatus`: one transaction, rolled back on every error.
unfoldable pub update_status :
    Faults → String → String → List Rendition → Database → Result (Unit {0}) × Database
unfolding row_of update_where upsert_all upsert
update_status f id status rns db =
    if f 0 || f 1
    then (err db_error, db)
    else change_status f id status rns db (row_of id db.videos)
