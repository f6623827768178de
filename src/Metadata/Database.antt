-- ===== src/Metadata/Database.antt =====
-- The tables of deploy/migrations and the SQL statements that the repository sends, as functions on
-- them. That a statement fails for a reason outside the tables (a lost connection, an id that is no
-- UUID) is a fault, which the repository's operations take as an argument. Ids are texts in the
-- spelling that Postgres prints; which of them a text in a path stands for is a parameter of the
-- handlers.
pub mod Rows
pub mod Invariant
use flowix.Common.{
  ℕ, ◌+◌, ◌-◌, String, ◌<>◌, Bool, true, false, ◌||◌, ◌&&◌, not, Option, none, some, List, [], ◌∷◌,
  ◌==◌, ltb, select, any, find?, if◌then◌else◌,
}
use flowix.Metadata.Model.{Rendition, Video}

pub record VideoRow : Type 0 where
  pub id : String
  pub owner_id : String
  pub title : String
  pub description : String
  pub duration : Option ℕ
  pub status : String
  pub visibility : String
  pub thumbnail_s3_key : Option String
  pub created_at : ℕ
  pub updated_at : ℕ

-- `users` holds ids with emails; `now` is the time of the current transaction in seconds.
pub record Database : Type 0 where
  pub videos : List VideoRow
  pub users : List (String × String)
  pub renditions : List Rendition
  pub now : ℕ

-- Whether the n-th statement of an operation fails.
abbrev pub Faults : Type 0
Faults = ℕ → Bool

abbrev pub coalesce {ℓ} : {A : Type ℓ} → Option A → A → A
coalesce none a = a
coalesce (some b) a = b

-- `WHERE id=$1`
unfoldable pub row_of : String → List VideoRow → Option VideoRow
row_of k [] = none
row_of k (v ∷ vs) = if v.id == k then some v else row_of k vs

unfoldable pub email_of : String → List (String × String) → Option String
email_of k [] = none
email_of k ((j, email) ∷ us) = if j == k then some email else email_of k us

-- `UPDATE videos SET … WHERE …`
unfoldable pub update_where :
    (VideoRow → Bool) → (VideoRow → VideoRow) → List VideoRow → List VideoRow
update_where p f [] = []
update_where p f (v ∷ vs) = (if p v then f v else v) ∷ update_where p f vs

-- `DELETE FROM videos WHERE id=$1`, and the deletes that cascade to the renditions.
unfoldable pub delete_row : String → List VideoRow → List VideoRow
delete_row k [] = []
delete_row k (v ∷ vs) = let rest = delete_row k vs in if v.id == k then rest else v ∷ rest

unfoldable pub delete_video : String → Database → Database
unfolding delete_row
delete_video k db = record db {
  videos = delete_row k db.videos;
  renditions = select (λ (rn : Rendition). not (rn.video_id == k)) db.renditions;
}

-- `INSERT INTO video_renditions … ON CONFLICT (video_id, quality) DO UPDATE`
unfoldable pub upsert : Rendition → List Rendition → List Rendition
upsert rn [] = rn ∷ []
upsert rn (x ∷ xs) =
    if x.video_id == rn.video_id && x.quality == rn.quality then rn ∷ xs else x ∷ upsert rn xs

-- The thumbnail's path at the gateway, for a row that has a thumbnail.
abbrev thumbnail_path : String → Option String → Option String
thumbnail_path id none = none
thumbnail_path id (some key) = some ("/thumbnails/" <> id <> "/thumb.jpg")

-- A row as the repository scans it, without its renditions.
abbrev pub scan : Option String → VideoRow → Video
scan email r = record {
  id = r.id;
  owner_id = r.owner_id;
  owner_email = email;
  title = r.title;
  description = r.description;
  duration = r.duration;
  status = r.status;
  visibility = r.visibility;
  thumbnail_s3_key = r.thumbnail_s3_key;
  thumbnail_url = thumbnail_path r.id r.thumbnail_s3_key;
  created_at = r.created_at;
  updated_at = r.updated_at;
  renditions = [];
}
