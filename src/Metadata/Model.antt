-- ===== src/Metadata/Model.antt =====
-- services/metadata/internal/model/video.go. Statuses and visibilities are texts, as in the source.
use flowix.Common.{ℕ, String, Bool, ◌||◌, Option, List, ◌==◌}
use flowix.Common.Int.{ℤ}

-- `Visibility.Valid`
unfoldable pub valid : String → Bool
valid v = v == "public" || v == "private" || v == "unlisted"

pub record Rendition : Type 0 where
  pub video_id : String
  pub quality : String
  pub bitrate : ℤ
  pub width : ℤ
  pub height : ℤ
  pub s3_key : String

pub record Video : Type 0 where
  pub id : String
  pub owner_id : String
  pub owner_email : Option String
  pub title : String
  pub description : String
  pub duration : Option ℕ
  pub status : String
  pub visibility : String
  pub thumbnail_s3_key : Option String
  pub thumbnail_url : Option String
  pub created_at : ℕ
  pub updated_at : ℕ
  pub renditions : List Rendition

pub record StaleUpload : Type 0 where
  pub id : String
  pub owner_id : String

pub record CreateVideoRequest : Type 0 where
  pub title : String
  pub description : String
  pub visibility : Option String

pub record UpdateVideoRequest : Type 0 where
  pub title : Option String
  pub description : Option String
  pub visibility : Option String

pub record UpdateStatusRequest : Type 0 where
  pub status : String
  pub renditions : List Rendition
  pub thumbnail_s3_key : Option String
  pub thumbnail_url : Option String
