-- ===== src/Metadata/Repository/Valid.antt =====
-- Every operation of the repository keeps the constraints of the tables.
use flowix.Common.{
  ℕ, ◌+◌, ◌≡◌, ◌≢◌, refl, String, Bool, true, false, ◌&&◌, ◌||◌, not, Option, none, some, List, [],
  ◌∷◌, ◌==◌, arith, find?, All, Bool-cases, inl, inr,
}
use flowix.Common.Keys.{member}
use flowix.Metadata.Model.{Rendition, Video, UpdateVideoRequest, valid}
use flowix.Metadata.Database.{VideoRow, Database, Faults, coalesce, row_of, email_of, upsert}
use flowix.Metadata.Database.Rows.{ids, row_of_fresh, ids-update_where}
use flowix.Metadata.Database.Invariant.{
  status_enum, Unique, Owned, IsValid, All-upsert, upsert-Unique, delete_video-IsValid,
  update_where-IsValid,
}
use flowix.Metadata.Repository
use flowix.Metadata.Repository.{
  Result, ok, err, bad_visibility, has_owner, is_taken, new_row, owned_by, patch_row, update_hit,
  delete_read, get_by_id, set_status, store_renditions, commit, count, change_status, upsert_all,
}

row_of-member :
    (k : String) (rows : List VideoRow) (r : VideoRow)
    → row_of k rows ≡ some r
    → member k (ids rows) ≡ true
unfolding row_of member
row_of-member k [] r h = cc
row_of-member k (x ∷ rows) r h = ground (arith, row_of-member k rows r)

given_visibility :
    (v : Option String) → bad_visibility v ≡ false → valid (coalesce v "public") ≡ true
given_visibility none h = unfold valid in refl
given_visibility (some v) h = ground arith

patched_visibility :
    (v : Option String) (old : String)
    → bad_visibility v ≡ false
    → valid old ≡ true
    → valid (coalesce v old) ≡ true
patched_visibility none old h k = k
patched_visibility (some v) old h k = ground arith

known_owner :
    (k : String) (us : List (String × String)) (o : Option String)
    → has_owner k us o ≡ true
    → o ≢ none
known_owner k us none h = cc
known_owner k us (some e) h = λ q. cc

All-Owned_cons :
    (k : String) (keys : List String) (table : List Rendition)
    → All (Owned keys) table
    → All (Owned (k ∷ keys)) table
unfolding member
All-Owned_cons k keys [] h = tt
All-Owned_cons k keys (x ∷ table) (h, hs) = (ground (arith, h), All-Owned_cons k keys table hs)

fresh_of_taken :
    (id : String) (rows : List VideoRow) (o : Option VideoRow)
    → row_of id rows ≡ o
    → is_taken o ≡ false
    → member id (ids rows) ≡ false
fresh_of_taken id rows none q h = row_of_fresh id rows q
fresh_of_taken id rows (some r) q h = cc

module _ (f : Faults) (db : Database) (v : IsValid db) where
  -- A new row has a key that was free, an owner who is a user, and values of the enums.
  new_row-IsValid :
      (id owner title description : String) (vis : Option String)
      → bad_visibility vis ≡ false
      → is_taken (row_of id db.videos) ≡ false
      → has_owner owner db.users (email_of owner db.users) ≡ true
      → IsValid (record db { videos = new_row id db.now owner title description vis ∷ db.videos })
  new_row-IsValid id owner title description vis good free known = record {
    keyed = (fresh_of_taken id db.videos (row_of id db.videos) refl free, v.keyed);
    fitting = (
      (
        known_owner owner db.users (email_of owner db.users) known,
        unfold status_enum in refl,
        given_visibility vis good,
      ),
      v.fitting,
    );
    owned = All-Owned_cons id (ids db.videos) db.renditions v.owned;
    unique = v.unique;
  }

  pub create-IsValid :
      (id owner title description : String) (vis : Option String)
      → IsValid (Repository.create f id owner title description vis db).1
  unfolding Repository.create
  create-IsValid id owner title description vis = elim (Bool-cases (bad_visibility vis)) [
    | inl bad ↦ rw bad v
    | inr good ↦
        rw good
          (elim (Bool-cases (
            f 0
            || is_taken (row_of id db.videos)
            || not (has_owner owner db.users (email_of owner db.users)))) [
              | inl refused ↦ rw refused v
              | inr taken ↦ rw taken (
                  new_row-IsValid id owner title description vis good (ground (arith, taken))
                    (ground (arith, taken)))
            ])
  ]

  hit-IsValid :
      (id owner : String) (req : UpdateVideoRequest) (o : Option VideoRow)
      → bad_visibility req.visibility ≡ false
      → IsValid (update_hit f id owner req db o).1
  hit-IsValid id owner req none good = v
  hit-IsValid id owner req (some x) good =
      update_where-IsValid (owned_by id owner) (patch_row db.now req) db (λ r. refl)
        (λ r (o, s, w). (o, s, patched_visibility req.visibility r.visibility good w)) v

  pub update-IsValid :
      (id owner : String) (req : UpdateVideoRequest)
      → IsValid (Repository.update f id owner req db).1
  unfolding Repository.update
  update-IsValid id owner req = elim (Bool-cases (bad_visibility req.visibility)) [
    | inl bad ↦ rw bad v
    | inr good ↦ rw good (elim (Bool-cases (f 0)) [
      | inl fails ↦ rw fails v
      | inr fine ↦ rw fine (hit-IsValid id owner req (find? (owned_by id owner) db.videos) good)
    ])
  ]

  read-IsValid : (id owner : String) (p : Result Video) → IsValid (delete_read f id owner db p).1
  read-IsValid id owner (err e) = v
  read-IsValid id owner (ok x) = elim (Bool-cases (x.owner_id == owner)) [
    | inr other ↦ rw other v
    | inl mine ↦ rw mine (elim (Bool-cases (f 2)) [
      | inl fails ↦ rw fails v
      | inr fine ↦ rw fine (delete_video-IsValid id db v)
    ])
  ]

  pub delete-IsValid : (id owner : String) → IsValid (Repository.delete f id owner db).1
  unfolding Repository.delete
  delete-IsValid id owner = read-IsValid id owner (get_by_id f id db)

  pub update_thumbnail-IsValid :
      (id key : String) → IsValid (Repository.update_thumbnail f id key db).1
  unfolding Repository.update_thumbnail
  update_thumbnail-IsValid id key = elim (Bool-cases (f 0)) [
    | inl fails ↦ rw fails v
    | inr fine ↦ rw fine (
        update_where-IsValid (λ r. r.id == id)
          (λ r. record r { thumbnail_s3_key = some key; updated_at = db.now }) db (λ r. refl)
          (λ r h. h) v)
  ]

-- The renditions that a list of them leads to, where no statement fails, belong to videos that are
-- there, and no two have one quality.
upsert_all-fits :
    (f : Faults) (n : ℕ) (id : String) (keys : List String) (rns table after : List Rendition)
    → member id keys ≡ true
    → All (Owned keys) table
    → Unique table
    → upsert_all f n id rns table ≡ some after
    → All (Owned keys) after × Unique after
unfolding upsert_all
upsert_all-fits f n id keys [] table after here o u h =
    let same : table ≡ after = ground arith in rw (← same) (o, u)
upsert_all-fits f n id keys (rn ∷ rns) table after here o u h = elim (Bool-cases (f n)) [
  | inl fails ↦ absurd (ground (arith, rw fails at h))
  | inr fine ↦
      upsert_all-fits f (n + 1) id keys rns (upsert (record rn { video_id = id }) table) after here
        (All-upsert (Owned keys) (record rn { video_id = id }) table here o)
        (upsert-Unique (record rn { video_id = id }) table u) (rw fine at h)
]

module _ (f : Faults) (id status : String) (named : status_enum status ≡ true) (db : Database)
    (v : IsValid db) where
  set_status-IsValid : IsValid (record db { videos = set_status id status db })
  set_status-IsValid =
      update_where-IsValid (λ r. r.id == id)
        (λ r. record r { status = status; updated_at = db.now }) db (λ r. refl)
        (λ r (o, s, w). (o, named, w)) v

  store-IsValid :
      (last : ℕ) (rns : List Rendition)
      → member id (ids db.videos) ≡ true
      → IsValid (store_renditions f last id status db (upsert_all f 3 id rns db.renditions)).1
  store-IsValid last rns here = go (upsert_all f 3 id rns db.renditions) refl
    where
      go :
          (o : Option (List Rendition))
          → upsert_all f 3 id rns db.renditions ≡ o
          → IsValid (store_renditions f last id status db o).1
      go none q = v
      go (some table) q = elim (Bool-cases (f last)) [
        | inl fails ↦ rw fails v
        | inr fine ↦
            let fits =
              upsert_all-fits f 3 id (ids db.videos) rns db.renditions table here v.owned v.unique
                q in
            let w = set_status-IsValid in
            rw fine (record {
              keyed = w.keyed;
              fitting = w.fitting;
              owned =
                  rw
                    (ids-update_where (λ r. r.id == id)
                      (λ r. record r { status = status; updated_at = db.now }) (λ r. refl)
                      db.videos)
                    fits.0;
              unique = fits.1;
            })
      ]

  commit_same : (fails : Bool) → IsValid (commit fails db db).1
  commit_same true = v
  commit_same false = v

  change-IsValid :
      (rns : List Rendition) (o : Option VideoRow)
      → row_of id db.videos ≡ o
      → IsValid (change_status f id status rns db o).1
  change-IsValid rns none q = v
  change-IsValid rns (some r) q =
      elim (Bool-cases (r.status == "ready" && (status == "processing" || status == "uploaded"))) [
        | inl back ↦ rw back (commit_same (f 2))
        | inr timely ↦ rw timely (elim (Bool-cases (f 2)) [
          | inl fails ↦ rw fails v
          | inr fine ↦ rw fine (store-IsValid (count rns + 3) rns (row_of-member id db.videos r q))
        ])
      ]

  -- An update to a status of the enum.
  pub update_status-IsValid :
      (rns : List Rendition) → IsValid (Repository.update_status f id status rns db).1
  unfolding Repository.update_status
  update_status-IsValid rns = elim (Bool-cases (f 0 || f 1)) [
    | inl fails ↦ rw fails v
    | inr fine ↦ rw fine (change-IsValid rns (row_of id db.videos) refl)
  ]
