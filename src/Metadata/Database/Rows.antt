-- ===== src/Metadata/Database/Rows.antt =====
-- What the statements do to the row of an id.
use mathlib.Core.Option
use flowix.Common.{
  ◌≡◌, refl, String, Bool, false, ◌&&◌, not, Option, none, some, List, [], ◌∷◌, map, ◌==◌, eq_iff,
  arith, select, if◌then◌else◌, String-cases, Bool-cases, inl, inr,
}
use flowix.Common.Keys.{member, remove}
use flowix.Metadata.Model.{Rendition}
use flowix.Metadata.Database.{VideoRow, row_of, update_where, delete_row, upsert}

abbrev pub ids : List VideoRow → List String
ids rows = map (λ (r : VideoRow). r.id) rows

pub row_of-id :
    (k : String) (rows : List VideoRow) {r : VideoRow} → row_of k rows ≡ some r → r.id ≡ k
unfolding row_of
row_of-id k [] h = cc
row_of-id k (x ∷ rows) h = elim (String-cases x.id k) [
  | inl (e, t) ↦ ground (arith, e, t)
  | inr (n, t) ↦ row_of-id k rows (rw t at h)
]

pub row_of_fresh :
    (k : String) (rows : List VideoRow) → row_of k rows ≡ none → member k (ids rows) ≡ false
unfolding row_of member
row_of_fresh k [] h = refl
row_of_fresh k (x ∷ rows) h = ground (arith, row_of_fresh k rows)

module _ (p : VideoRow → Bool) (f : VideoRow → VideoRow)
    (keeps : (r : VideoRow) → (f r).id ≡ r.id) where
  pub row_of-update_where :
      (j : String) (rows : List VideoRow)
      → row_of j (update_where p f rows) ≡ Option.map (λ r. if p r then f r else r) (row_of j rows)
  unfolding row_of update_where
  row_of-update_where j [] = refl
  row_of-update_where j (x ∷ rows) = elim (Bool-cases (p x)) [
    | inl hit ↦ rw hit (ground (arith, keeps x, hit, row_of-update_where j rows))
    | inr miss ↦ rw miss (ground (arith, miss, row_of-update_where j rows))
  ]

  pub ids-update_where : (rows : List VideoRow) → ids (update_where p f rows) ≡ ids rows
  unfolding update_where
  ids-update_where [] = refl
  ids-update_where (x ∷ rows) = elim (Bool-cases (p x)) [
    | inl hit ↦ rw (hit, keeps x, ids-update_where rows)
    | inr miss ↦ rw (miss, ids-update_where rows)
  ]

pub row_of-delete_row :
    (j k : String) (rows : List VideoRow)
    → row_of j (delete_row k rows) ≡ (if k == j then none else row_of j rows)
unfolding row_of delete_row
row_of-delete_row j k [] = ground arith
row_of-delete_row j k (x ∷ rows) =
    ground (arith, eq_iff x.id j, eq_iff x.id k, eq_iff k j, row_of-delete_row j k rows)

pub ids-delete_row :
    (k : String) (rows : List VideoRow) → ids (delete_row k rows) ≡ remove k (ids rows)
unfolding delete_row remove
ids-delete_row k [] = refl
ids-delete_row k (x ∷ rows) = ground (arith, ids-delete_row k rows)

-- The rendition of a video in one quality.
unfoldable pub rendition_of : String → String → List Rendition → Option Rendition
rendition_of k q [] = none
rendition_of k q (x ∷ xs) =
    if x.video_id == k && x.quality == q then some x else rendition_of k q xs

pub rendition_of-upsert :
    (k q : String) (rn : Rendition) (table : List Rendition)
    → rendition_of k q (upsert rn table)
      ≡ (if rn.video_id == k && rn.quality == q then some rn else rendition_of k q table)
unfolding rendition_of upsert
rendition_of-upsert k q rn [] = refl
rendition_of-upsert k q rn (x ∷ table) = ground (
  arith,
  eq_iff x.video_id rn.video_id,
  eq_iff x.video_id k,
  eq_iff rn.video_id k,
  eq_iff x.quality rn.quality,
  eq_iff x.quality q,
  eq_iff rn.quality q,
  rendition_of-upsert k q rn table,
)

pub rendition_of-delete :
    (k q id : String) (table : List Rendition)
    → rendition_of k q (select (λ (rn : Rendition). not (rn.video_id == id)) table)
      ≡ (if id == k then none else rendition_of k q table)
unfolding rendition_of
rendition_of-delete k q id [] = ground arith
rendition_of-delete k q id (x ∷ table) = ground (
  arith,
  eq_iff x.video_id id,
  eq_iff x.video_id k,
  eq_iff id k,
  rendition_of-delete k q id table,
)
