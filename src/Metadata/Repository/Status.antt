-- ===== src/Metadata/Repository/Status.antt =====
-- The status of a video: transactions are all or nothing, and ready is not undone by a redelivery.
use flowix.Common.{
  ℕ, ◌+◌, ◌≡◌, ◌≢◌, refl, ◌∙◌, String, false, ◌||◌, ◌&&◌, Option, none, some, List, [], ◌∷◌, ◌==◌,
  eq_iff, arith, if◌then◌else◌, Bool-cases, inl, inr, ◌⊎◌,
}
use flowix.Metadata.Model.{Rendition}
use flowix.Metadata.Database.{VideoRow, Database, Faults, row_of, upsert}
use flowix.Metadata.Database.Rows.{
  row_of-id, row_of-update_where, rendition_of, rendition_of-upsert,
}
use flowix.Metadata.Repository.{
  ok, err, RepoError, set_status, store_renditions, change_status, upsert_all, update_status, count,
}

store_renditions-err :
    (f : Faults) (last : ℕ) (id status : String) (db : Database) (o : Option (List Rendition))
    (e : RepoError)
    → (store_renditions f last id status db o).0 ≡ err e
    → (store_renditions f last id status db o).1 ≡ db
store_renditions-err f last id status db none e h = refl
store_renditions-err f last id status db (some table) e h = ground arith

change_status-err :
    (f : Faults) (id status : String) (rns : List Rendition) (db : Database) (o : Option VideoRow)
    (e : RepoError)
    → (change_status f id status rns db o).0 ≡ err e
    → (change_status f id status rns db o).1 ≡ db
change_status-err f id status rns db none e h = refl
change_status-err f id status rns db (some r) e h =
    elim (Bool-cases (r.status == "ready" && (status == "processing" || status == "uploaded"))) [
      | inl late ↦ rw late (ground (arith, late))
      | inr timely ↦ rw timely (elim (Bool-cases (f 2)) [
        | inl fails ↦ rw fails refl
        | inr fine ↦ rw fine (
            store_renditions-err f (count rns + 3) id status db
              (upsert_all f 3 id rns db.renditions) e (rw (timely, fine) at h))
      ])
    ]

-- A status update that gives an error, at whatever statement, leaves every table as it was. A commit
-- that fails is one that has kept nothing.
pub update_status-err :
    (f : Faults) (id status : String) (rns : List Rendition) (db : Database) (e : RepoError)
    → (update_status f id status rns db).0 ≡ err e
    → (update_status f id status rns db).1 ≡ db
unfolding update_status
update_status-err f id status rns db e h = elim (Bool-cases (f 0 || f 1)) [
  | inl fails ↦ rw fails refl
  | inr fine ↦ rw fine (change_status-err f id status rns db (row_of id db.videos) e (rw fine at h))
]

-- A video that is ready does not go back: an update to `processing` or `uploaded` changes no table.
pub update_status_of_ready :
    (f : Faults) (id status : String) (rns : List Rendition) (db : Database) (r : VideoRow)
    → row_of id db.videos ≡ some r
    → r.status ≡ "ready"
    → (status ≡ "processing") ⊎ (status ≡ "uploaded")
    → (update_status f id status rns db).1 ≡ db
unfolding update_status
update_status_of_ready f id status rns db r here ready back = ground (
  arith,
  here,
  ready,
  back,
  eq_iff r.status "ready",
  eq_iff status "processing",
  eq_iff status "uploaded",
)

-- The rendition in a quality after a list of them was stored: the last one of that quality wins.
abbrev pub latest : String → String → List Rendition → Option Rendition → Option Rendition
latest id q [] old = old
latest id q (rn ∷ rns) old =
    latest id q rns (if rn.quality == q then some (record rn { video_id = id }) else old)

upsert_all_lem :
    (f : Faults) (n : ℕ) (id : String) (rns table after : List Rendition)
    → upsert_all f n id rns table ≡ some after
    → (k q : String)
    → rendition_of k q after
      ≡ (if id == k then latest id q rns (rendition_of k q table) else rendition_of k q table)
unfolding upsert_all
upsert_all_lem f n id [] table after h k q = ground arith
upsert_all_lem f n id (rn ∷ rns) table after h k q =
    upsert_all_lem f (n + 1) id rns (upsert (record rn { video_id = id }) table) after
      (ground arith) k q
    ∙ rw (rendition_of-upsert k q (record rn { video_id = id }) table) (ground arith)

store_renditions-ok :
    (f : Faults) (last : ℕ) (id status : String) (db : Database) (o : Option (List Rendition))
    → (store_renditions f last id status db o).0 ≡ ok tt
    → (table : List Rendition) × (o ≡ some table)
      × ((store_renditions f last id status db o).1
          ≡ record db { videos = set_status id status db; renditions = table })
store_renditions-ok f last id status db none h = cc
store_renditions-ok f last id status db (some table) h = (table, refl, ground arith)

pub set_status_lem :
    (id status : String) (db : Database) (j : String) {r : VideoRow}
    → row_of j db.videos ≡ some r
    → row_of j (set_status id status db)
      ≡ some (if id == j then record r { status = status; updated_at = db.now } else r)
set_status_lem id status db j {r} here =
    let key = row_of-id j db.videos here in
    row_of-update_where (λ (r : VideoRow). r.id == id)
      (λ (r : VideoRow). record r { status = status; updated_at = db.now }) (λ r. refl) j db.videos
    ∙ rw here (ground (arith, key, eq_iff r.id id, eq_iff id j))

-- What a successful update does where it is not a step back from ready: the row of the video gets
-- the status, each quality has its last rendition of the list, and every other row and every
-- other video's renditions stay.
update_status-ok :
    (f : Faults) (id status : String) (rns : List Rendition) (db : Database) (r : VideoRow)
    → row_of id db.videos ≡ some r
    → (r.status ≢ "ready") ⊎ ((status ≢ "processing") × (status ≢ "uploaded"))
    → (update_status f id status rns db).0 ≡ ok tt
    → ((j : String) (s : VideoRow)
        → row_of j db.videos ≡ some s
        → row_of j (update_status f id status rns db).1.videos
          ≡ some (if id == j then record s { status = status; updated_at = db.now } else s))
      × ((k q : String)
          → rendition_of k q (update_status f id status rns db).1.renditions ≡ (
              if id == k
              then latest id q rns (rendition_of k q db.renditions)
              else rendition_of k q db.renditions))
unfolding update_status
update_status-ok f id status rns db r here forward done =
    let timely : (r.status == "ready" && (status == "processing" || status == "uploaded")) ≡ false =
      ground (
        arith,
        forward,
        eq_iff r.status "ready",
        eq_iff status "processing",
        eq_iff status "uploaded",
      ) in
    let fine : (f 0 || f 1) ≡ false = ground arith in
    let fine2 : f 2 ≡ false = ground (arith, timely) in
    let (table, stored, after) =
      store_renditions-ok f (count rns + 3) id status db (upsert_all f 3 id rns db.renditions)
        (rw (fine, here, timely, fine2) at done) in
    rw (fine, here, timely, fine2, after)
      (
        λ j s there. set_status_lem id status db j there,
        λ k q. upsert_all_lem f 3 id rns db.renditions table stored k q,
      )

-- A successful update that is not a step back from ready sets the status of its video's row, and
-- leaves every other row as it was.
pub update_status-row :
    (f : Faults) (id status : String) (rns : List Rendition) (db : Database) (r s : VideoRow)
    (j : String)
    → row_of id db.videos ≡ some r
    → (r.status ≢ "ready") ⊎ ((status ≢ "processing") × (status ≢ "uploaded"))
    → (update_status f id status rns db).0 ≡ ok tt
    → row_of j db.videos ≡ some s
    → row_of j (update_status f id status rns db).1.videos
      ≡ some (if id == j then record s { status = status; updated_at = db.now } else s)
update_status-row f id status rns db r s j a b c =
    (update_status-ok f id status rns db r a b c).0 j s

-- After a successful update that is not a step back from ready, each quality of the video has its
-- last rendition of the given list, or else the one it had, and the renditions of every other video
-- stay.
pub update_status-renditions :
    (f : Faults) (id status : String) (rns : List Rendition) (db : Database) (r : VideoRow)
    (k q : String)
    → row_of id db.videos ≡ some r
    → (r.status ≢ "ready") ⊎ ((status ≢ "processing") × (status ≢ "uploaded"))
    → (update_status f id status rns db).0 ≡ ok tt
    → rendition_of k q (update_status f id status rns db).1.renditions ≡ (
        if id == k
        then latest id q rns (rendition_of k q db.renditions)
        else rendition_of k q db.renditions)
update_status-renditions f id status rns db r k q a b c =
    (update_status-ok f id status rns db r a b c).1 k q
