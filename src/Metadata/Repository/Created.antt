-- ===== src/Metadata/Repository/Created.antt =====
-- A video that was created, read back.
use flowix.Common.{
  ◌≡◌, refl, ap, String, false, not, ◌||◌, Option, none, some, List, [], ◌∷◌, ◌==◌, arith, All,
  if◌then◌else◌, Bool-cases, String-cases, inl, inr,
}
use flowix.Common.Keys.{member}
use flowix.Metadata.Model.{Rendition, Video}
use flowix.Metadata.Database.{VideoRow, Database, Faults, row_of, email_of, scan}
use flowix.Metadata.Database.Rows.{ids, row_of_fresh}
use flowix.Metadata.Database.Invariant.{Owned, IsValid}
use flowix.Metadata.Repository.{
  ok, err, not_found, bad_visibility, has_owner, is_taken, new_row, create, get_by_id, read_video,
  renditions_of,
}

-- A key that is no video's has no renditions.
no_renditions :
    (id : String) (keys : List String) (table : List Rendition)
    → All (Owned keys) table
    → member id keys ≡ false
    → renditions_of id table ≡ []
no_renditions id keys [] h n = refl
no_renditions id keys (x ∷ table) (h, hs) n = elim (String-cases x.video_id id) [
  | inl (e, t) ↦ absurd (ground (arith, h, n, ap (λ k. member k keys) e))
  | inr (m, t) ↦ rw t (no_renditions id keys table hs n)
]

free_of_taken : (o : Option VideoRow) → is_taken o ≡ false → o ≡ none
free_of_taken none h = refl
free_of_taken (some r) h = cc

module _ (f : Faults) (id owner title description : String) (vis : Option String)
    (db : Database) where
  abbrev pub row : VideoRow
  row = new_row id db.now owner title description vis

  -- What a success says of the tables before and after.
  pub create-ok :
      (v : Video)
      → (create f id owner title description vis db).0 ≡ ok v
      → (row_of id db.videos ≡ none)
        × (v ≡ scan none row)
        × ((create f id owner title description vis db).1 ≡ record db { videos = row ∷ db.videos })
  unfolding create
  create-ok v h = elim (Bool-cases (bad_visibility vis)) [
    | inl bad ↦ absurd (ground (arith, rw bad at h))
    | inr good ↦
        elim (Bool-cases (
          f 0
          || is_taken (row_of id db.videos)
          || not (has_owner owner db.users (email_of owner db.users)))) [
            | inl refused ↦ absurd (ground (arith, rw (good, refused) at h))
            | inr taken ↦
                rw (good, taken)
                  (
                    free_of_taken (row_of id db.videos) (ground (arith, taken)),
                    ground (arith, rw (good, taken) at h),
                    refl,
                  )
          ]
  ]

  read_new :
      (g : Faults)
      → renditions_of id db.renditions ≡ []
      → read_video g (record db { videos = row ∷ db.videos }) (some row)
        ≡ ok (scan (email_of owner db.users) row)
  read_new g none_yet = elim (Bool-cases (g 1)) [
    | inl fails ↦ rw fails refl
    | inr fine ↦ rw (fine, none_yet) refl
  ]

  read_other :
      (g : Faults) (o : Option VideoRow)
      → read_video g (record db { videos = row ∷ db.videos }) o ≡ read_video g db o
  read_other g none = refl
  read_other g (some r) = refl

  -- A video that was created in tables that meet their constraints is read back as it was answered,
  -- with the email of its owner and without renditions, where the read's first statement does not
  -- fail; there was no video of its id before, and every other id is read as before.
  pub get_by_id-create :
      (v : Video) (g : Faults) (j : String)
      → IsValid db
      → (create f id owner title description vis db).0 ≡ ok v
      → g 0 ≡ false
      → (get_by_id g id db ≡ err not_found)
        × (get_by_id g j (create f id owner title description vis db).1 ≡ (
            if id == j
            then ok (record v { owner_email = email_of owner db.users })
            else get_by_id g j db))
  unfolding get_by_id row_of
  get_by_id-create v g j valid done fine =
      let (free, same, after) = create-ok v done in
      rw (after, fine, same)
        (
          rw free refl,
          elim (String-cases id j) [
            | inl (e, t) ↦ rw t (
                read_new g (
                  no_renditions id (ids db.videos) db.renditions valid.owned
                    (row_of_fresh id db.videos free)))
            | inr (n, t) ↦ rw t (read_other g (row_of j db.videos))
          ],
        )
