-- ===== src/Metadata/Database/Invariant.antt =====
-- The constraints of deploy/migrations on the tables: the keys, the foreign keys and the enums.
use flowix.Common.{
  ◌≡◌, ◌≢◌, refl, String, Bool, true, ◌&&◌, ◌||◌, not, none, List, [], ◌∷◌, ◌==◌, eq_iff, arith,
  select, All, String-cases, Bool-cases, inl, inr,
}
use flowix.Common.Keys.{member, Nodup, remove, member-remove, remove-Nodup}
use flowix.Metadata.Model.{Rendition, valid}
use flowix.Metadata.Database.{
  VideoRow, Database, email_of, update_where, delete_row, delete_video, upsert,
}
use flowix.Metadata.Database.Rows.{
  ids, ids-update_where, ids-delete_row, rendition_of, rendition_of-upsert, rendition_of-delete,
}

-- The values of the enum `video_status`.
unfoldable pub status_enum : String → Bool
status_enum s = s == "uploaded" || s == "processing" || s == "ready" || s == "failed"

-- A row's owner is a user, its status and its visibility are values of their enums.
abbrev pub Fits : List (String × String) → VideoRow → Type 0
Fits users r =
    (email_of r.owner_id users ≢ none) × (status_enum r.status ≡ true) × (valid r.visibility ≡ true)

-- No two renditions of one video have one quality.
abbrev pub Unique : List Rendition → Type 0
Unique [] = Unit
Unique (rn ∷ rns) = (rendition_of rn.video_id rn.quality rns ≡ none) × Unique rns

abbrev pub Owned : List String → Rendition → Type 0
Owned keys rn = member rn.video_id keys ≡ true

pub record IsValid (db : Database) : Type 0 where
  pub keyed : Nodup (ids db.videos)
  pub fitting : All (Fits db.users) db.videos
  pub owned : All (Owned (ids db.videos)) db.renditions
  pub unique : Unique db.renditions

module _ {ℓ} (P : VideoRow → Type ℓ) where
  pub All-update_where :
      (p : VideoRow → Bool) (f : VideoRow → VideoRow) (rows : List VideoRow)
      → ((r : VideoRow) → P r → P (f r))
      → All P rows
      → All P (update_where p f rows)
  unfolding update_where
  All-update_where p f [] keeps h = tt
  All-update_where p f (r ∷ rows) keeps (h, hs) = elim (Bool-cases (p r)) [
    | inl e ↦ rw e (keeps r h, All-update_where p f rows keeps hs)
    | inr e ↦ rw e (h, All-update_where p f rows keeps hs)
  ]

  pub All-delete_row : (k : String) (rows : List VideoRow) → All P rows → All P (delete_row k rows)
  unfolding delete_row
  All-delete_row k [] h = tt
  All-delete_row k (r ∷ rows) (h, hs) = elim (Bool-cases (r.id == k)) [
    | inl e ↦ rw e (All-delete_row k rows hs)
    | inr e ↦ rw e (h, All-delete_row k rows hs)
  ]

pub All-upsert {ℓ} :
    (P : Rendition → Type ℓ) (rn : Rendition) (table : List Rendition)
    → P rn
    → All P table
    → All P (upsert rn table)
unfolding upsert
All-upsert P rn [] p h = (p, tt)
All-upsert P rn (x ∷ table) p (h, hs) =
    elim (Bool-cases (x.video_id == rn.video_id && x.quality == rn.quality)) [
      | inl e ↦ rw e (p, hs)
      | inr e ↦ rw e (h, All-upsert P rn table p hs)
    ]

pub upsert-Unique :
    (rn : Rendition) (table : List Rendition) → Unique table → Unique (upsert rn table)
unfolding upsert rendition_of
upsert-Unique rn [] h = (refl, tt)
upsert-Unique rn (x ∷ table) (h, hs) =
    elim (Bool-cases (x.video_id == rn.video_id && x.quality == rn.quality)) [
      | inl e ↦
          rw e (ground (arith, h, eq_iff x.video_id rn.video_id, eq_iff x.quality rn.quality), hs)
      | inr e ↦ rw e (
        rw rendition_of-upsert (
            ground (
              arith,
              h,
              e,
              eq_iff x.video_id rn.video_id,
              eq_iff x.quality rn.quality,
              eq_iff rn.video_id x.video_id,
              eq_iff rn.quality x.quality,
            )),
        upsert-Unique rn table hs,
      )
    ]

abbrev others : String → List Rendition → List Rendition
others k rns = select (λ (rn : Rendition). not (rn.video_id == k)) rns

others-Unique : (k : String) (table : List Rendition) → Unique table → Unique (others k table)
others-Unique k [] h = tt
others-Unique k (x ∷ table) (h, hs) = elim (Bool-cases (x.video_id == k)) [
  | inl e ↦ rw e (others-Unique k table hs)
  | inr e ↦ rw e (
    rw (rendition_of-delete x.video_id x.quality k table) (ground (arith, h)),
    others-Unique k table hs,
  )
]

others-Owned :
    (k : String) (keys : List String) (table : List Rendition)
    → All (Owned keys) table
    → All (Owned (remove k keys)) (others k table)
others-Owned k keys [] h = tt
others-Owned k keys (x ∷ table) (h, hs) = elim (String-cases x.video_id k) [
  | inl (e, t) ↦ rw t (others-Owned k keys table hs)
  | inr (n, t) ↦ rw t (
    rw (member-remove x.video_id k keys) (ground (arith, h, n, eq_iff k x.video_id)),
    others-Owned k keys table hs,
  )
]

-- A delete leaves the keys and the foreign keys in order.
pub delete_video-IsValid : (k : String) (db : Database) → IsValid db → IsValid (delete_video k db)
unfolding delete_video
delete_video-IsValid k db v = record {
  keyed = rw ids-delete_row (remove-Nodup k (ids db.videos) v.keyed);
  fitting = All-delete_row (Fits db.users) k db.videos v.fitting;
  owned = rw ids-delete_row (others-Owned k (ids db.videos) db.renditions v.owned);
  unique = others-Unique k db.renditions v.unique;
}

-- So does a change of columns other than the key, to values that fit.
pub update_where-IsValid :
    (p : VideoRow → Bool) (f : VideoRow → VideoRow) (db : Database)
    → ((r : VideoRow) → (f r).id ≡ r.id)
    → ((r : VideoRow) → Fits db.users r → Fits db.users (f r))
    → IsValid db
    → IsValid (record db { videos = update_where p f db.videos })
update_where-IsValid p f db keeps fits v = record {
  keyed = rw (ids-update_where p f keeps db.videos) v.keyed;
  fitting = All-update_where (Fits db.users) p f db.videos fits v.fitting;
  owned = rw (ids-update_where p f keeps db.videos) v.owned;
  unique = v.unique;
}
