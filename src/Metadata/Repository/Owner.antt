-- ===== src/Metadata/Repository/Owner.antt =====
-- Changes and deletes by owners, and by others.
use mathlib.Core.Option
use flowix.Common.{
  ℕ, ◌≡◌, refl, ap, ◌∙◌, String, false, Option, none, some, List, [], ◌∷◌, ◌==◌, eq_iff, arith,
  find?, if◌then◌else◌, String-cases, Bool-cases, Option-cases, inl, inr,
}
use flowix.Common.Keys.{member, Nodup}
use flowix.Metadata.Model.{Video, UpdateVideoRequest}
use flowix.Metadata.Database.{
  VideoRow, Database, Faults, row_of, email_of, delete_video, scan, coalesce,
}
use flowix.Metadata.Database.Rows.{
  ids, row_of-id, row_of-update_where, row_of-delete_row, rendition_of, rendition_of-delete,
}
use flowix.Metadata.Repository.{
  Result, ok, err, RepoError, not_found, forbidden, invalid_visibility, bad_visibility, owned_by,
  patch_row, update, delete, delete_read, get_by_id, read_video,
}

-- The video if it belongs to the owner.
abbrev pub of_owner : String → Option VideoRow → Option VideoRow
of_owner owner none = none
of_owner owner (some r) = if r.owner_id == owner then some r else none

-- The error for a video that is not the caller's.
abbrev pub refusal : Option VideoRow → RepoError
refusal none = not_found
refusal (some r) = forbidden

refusal_lem :
    (o : Option VideoRow)
    → elim o as (λ x. Result Video) [ none ↦ err not_found | some r ↦ err forbidden ]
      ≡ err (refusal o)
refusal_lem none = refl
refusal_lem (some r) = refl

find?-owned_by_of_fresh :
    (id owner : String) (rows : List VideoRow)
    → member id (ids rows) ≡ false
    → find? (owned_by id owner) rows ≡ none
unfolding member
find?-owned_by_of_fresh id owner [] h = refl
find?-owned_by_of_fresh id owner (x ∷ rows) h =
    ground (arith, find?-owned_by_of_fresh id owner rows)

-- The condition on id and owner finds what a look at the row and a look at its owner would find.
find?-owned_by :
    (id owner : String) (rows : List VideoRow)
    → Nodup (ids rows)
    → find? (owned_by id owner) rows ≡ of_owner owner (row_of id rows)
unfolding row_of
find?-owned_by id owner [] d = refl
find?-owned_by id owner (x ∷ rows) d = elim (String-cases x.id id) [
  | inl (e, t) ↦ rw (t, find?-owned_by_of_fresh id owner rows (rw e at d.0)) (ground arith)
  | inr (n, t) ↦ rw t (find?-owned_by id owner rows d.1)
]

-- A field that is given replaces the one before, and one that is not given leaves it.
abbrev pub IsChanged : Option String → String → String → Type 0
IsChanged none before after = after ≡ before
IsChanged (some t) before after = after ≡ t

coalesce-IsChanged : (o : Option String) (a : String) → IsChanged o a (coalesce o a)
coalesce-IsChanged none a = refl
coalesce-IsChanged (some t) a = refl

-- What an update makes of a row, column by column.
pub record IsPatched (now : ℕ) (req : UpdateVideoRequest) (before after : VideoRow) : Type 0 where
  pub title : IsChanged req.title before.title after.title
  pub description : IsChanged req.description before.description after.description
  pub visibility : IsChanged req.visibility before.visibility after.visibility
  pub updated : after.updated_at ≡ now
  pub same_id : after.id ≡ before.id
  pub same_owner : after.owner_id ≡ before.owner_id
  pub same_status : after.status ≡ before.status
  pub same_duration : after.duration ≡ before.duration
  pub same_thumbnail : after.thumbnail_s3_key ≡ before.thumbnail_s3_key
  pub same_created : after.created_at ≡ before.created_at

-- A video that shows the columns of a row.
pub record Shows (r : VideoRow) (v : Video) : Type 0 where
  pub id : v.id ≡ r.id
  pub owner : v.owner_id ≡ r.owner_id
  pub title : v.title ≡ r.title
  pub description : v.description ≡ r.description
  pub visibility : v.visibility ≡ r.visibility
  pub status : v.status ≡ r.status
  pub duration : v.duration ≡ r.duration
  pub thumbnail : v.thumbnail_s3_key ≡ r.thumbnail_s3_key
  pub created : v.created_at ≡ r.created_at
  pub updated : v.updated_at ≡ r.updated_at

module _ (f : Faults) (id owner : String) (req : UpdateVideoRequest) (db : Database) where
  patched :
      (r : VideoRow)
      → Nodup (ids db.videos)
      → f 0 ≡ false
      → bad_visibility req.visibility ≡ false
      → row_of id db.videos ≡ some r
      → r.owner_id ≡ owner
      → ((update f id owner req db).0
          ≡ ok (scan (email_of r.owner_id db.users) (patch_row db.now req r)))
        × ((j : String)
            → row_of j (update f id owner req db).1.videos
              ≡ (if id == j then some (patch_row db.now req r) else row_of j db.videos))
  unfolding update
  patched r d fine good here mine =
      let hit : find? (owned_by id owner) db.videos ≡ some r =
        rw (find?-owned_by id owner db.videos d, here)
          (ground (arith, mine, eq_iff r.owner_id owner)) in
      rw (good, fine, hit)
        (
          refl,
          λ j.
              row_of-update_where (owned_by id owner) (patch_row db.now req) (λ s. refl) j db.videos
              ∙ go j (row_of j db.videos) refl,
        )
    where
      go :
          (j : String) (o : Option VideoRow)
          → row_of j db.videos ≡ o
          → Option.map (λ s. if owned_by id owner s then patch_row db.now req s else s) o
            ≡ (if id == j then some (patch_row db.now req r) else o)
      go j none there = elim (String-cases id j) [
        | inl (e, t) ↦ absurd (cc (here, there, ap (λ k. row_of k db.videos) e))
        | inr (n, t) ↦ rw t refl
      ]
      go j (some s) there =
          let key = row_of-id j db.videos there in
          elim (String-cases id j) [
            | inl (e, t) ↦
                let same : s ≡ r = ground (arith, here, there, ap (λ k. row_of k db.videos) e) in
                rw (t, same)
                  (ground (
                    arith,
                    row_of-id id db.videos here,
                    mine,
                    eq_iff r.id id,
                    eq_iff r.owner_id owner,
                  ))
            | inr (n, t) ↦ rw t (ground (arith, key, n, eq_iff s.id id))
          ]

  -- The owner's update returns the video as its row is then: title, description and visibility are
  -- replaced where they are given and kept where not, `updated_at` is the time of the transaction,
  -- and every other column is kept. It changes no other row. The conditions: the statement does not
  -- fail, the given visibility is valid, and no two rows have one id.
  pub update_of_owner :
      (r : VideoRow)
      → Nodup (ids db.videos)
      → f 0 ≡ false
      → bad_visibility req.visibility ≡ false
      → row_of id db.videos ≡ some r
      → r.owner_id ≡ owner
      → (s : VideoRow) × ((v : Video) × (((update f id owner req db).0 ≡ ok v)
            × Shows s v
            × IsPatched db.now req r s
            × ((j : String)
                → row_of j (update f id owner req db).1.videos
                  ≡ (if id == j then some s else row_of j db.videos))))
  update_of_owner r d fine good here mine =
      let (answer, rows) = patched r d fine good here mine in
      (
        patch_row db.now req r,
        (
          scan (email_of r.owner_id db.users) (patch_row db.now req r),
          (
            answer,
            record {
              id = refl;
              owner = refl;
              title = refl;
              description = refl;
              visibility = refl;
              status = refl;
              duration = refl;
              thumbnail = refl;
              created = refl;
              updated = refl;
            },
            record {
              title = coalesce-IsChanged req.title r.title;
              description = coalesce-IsChanged req.description r.description;
              visibility = coalesce-IsChanged req.visibility r.visibility;
              updated = refl;
              same_id = refl;
              same_owner = refl;
              same_status = refl;
              same_duration = refl;
              same_thumbnail = refl;
              same_created = refl;
            },
            rows,
          ),
        ),
      )

  -- Unless a statement fails, the answer is that the
  -- visibility is invalid, or else that the video is forbidden or, if there is none, not found.
  other_update :
      Nodup (ids db.videos)
      → of_owner owner (row_of id db.videos) ≡ none
      → ((update f id owner req db).1 ≡ db)
        × (f 0 ≡ false
            → f 1 ≡ false
            → (update f id owner req db).0
              ≡ err (
                  if bad_visibility req.visibility
                  then invalid_visibility
                  else refusal (row_of id db.videos)))
  unfolding update
  other_update d other =
      let miss = find?-owned_by id owner db.videos d ∙ other in
      rw miss (
        ground arith,
        λ fine fine1. rw (fine, fine1) (ground (arith, refusal_lem (row_of id db.videos))),
      )

  -- An update by anyone but the owner changes no table, also where statements fail, provided no two
  -- rows have one id.
  pub update_of_other :
      Nodup (ids db.videos)
      → of_owner owner (row_of id db.videos) ≡ none
      → (update f id owner req db).1 ≡ db
  update_of_other n h = (other_update n h).0

  -- Where no statement fails, such an update is answered by: the visibility is invalid, or else the
  -- video is forbidden or, if there is none, not found.
  pub update_of_other_refused :
      Nodup (ids db.videos)
      → of_owner owner (row_of id db.videos) ≡ none
      → f 0 ≡ false
      → f 1 ≡ false
      → (update f id owner req db).0
        ≡ err (
            if bad_visibility req.visibility
            then invalid_visibility
            else refusal (row_of id db.videos))
  update_of_other_refused n h a b = (other_update n h).1 a b

module _ (f : Faults) (id owner : String) (db : Database) where
  -- The owner's delete succeeds where its statements do not fail; it takes the video and its
  -- renditions away, and nothing of another video.
  pub delete_of_owner :
      (r : VideoRow)
      → f 0 ≡ false
      → f 2 ≡ false
      → row_of id db.videos ≡ some r
      → r.owner_id ≡ owner
      → ((delete f id owner db).0 ≡ ok tt)
        × ((j : String)
            → row_of j (delete f id owner db).1.videos
              ≡ (if id == j then none else row_of j db.videos))
        × ((j q : String)
            → rendition_of j q (delete f id owner db).1.renditions
              ≡ (if id == j then none else rendition_of j q db.renditions))
  unfolding delete
  delete_of_owner r fine fine2 here mine =
      let gone : delete_read f id owner db (read_video f db (some r))
          ≡ (ok tt, delete_video id db) =
        ground (arith, mine, fine2, eq_iff r.owner_id owner) in
      rw (fine, here, gone)
        (
          refl,
          λ j. row_of-delete_row j id db.videos,
          λ j q. rendition_of-delete j q id db.renditions,
        )

  -- Unless the read fails, the answer is that the video is
  -- forbidden or, if there is none, not found.
  other_delete :
      of_owner owner (row_of id db.videos) ≡ none
      → ((delete f id owner db).1 ≡ db)
        × (f 0 ≡ false → (delete f id owner db).0 ≡ err (refusal (row_of id db.videos)))
  unfolding delete
  other_delete other = elim (Bool-cases (f 0)) [
    | inl fails ↦ rw fails (refl, λ fine. cc)
    | inr fine ↦ rw fine (elim (Option-cases (row_of id db.videos)) [
      | inl absent ↦ rw absent (refl, λ _. refl)
      | inr (r, here) ↦
          let foreign : (r.owner_id == owner) ≡ false = ground (arith, here, other) in
          let left : delete_read f id owner db (read_video f db (some r)) ≡ (err forbidden, db) =
            ground (arith, foreign) in
          rw (here, left) (refl, λ _. refl)
    ])
  ]

  delete_read-err :
      (o : Result Video) (e : RepoError)
      → (delete_read f id owner db o).0 ≡ err e
      → (delete_read f id owner db o).1 ≡ db
  delete_read-err (err x) e h = refl
  delete_read-err (ok v) e h = ground arith

  -- A delete that gives an error has deleted nothing.
  pub delete-err :
      (e : RepoError) → (delete f id owner db).0 ≡ err e → (delete f id owner db).1 ≡ db
  delete-err e h = unfold delete in delete_read-err (get_by_id f id db) e (unfold delete in h)

  -- A delete by anyone but the owner changes no table, also where statements fail.
  pub delete_of_other : of_owner owner (row_of id db.videos) ≡ none → (delete f id owner db).1 ≡ db
  delete_of_other h = (other_delete h).0
