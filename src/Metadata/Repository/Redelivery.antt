-- ===== src/Metadata/Repository/Redelivery.antt =====
-- Runs of status updates: nothing but `failed` takes a video out of ready.
use flowix.Common.{
  ℕ, ◌+◌, ◌≡◌, refl, String, Bool, false, ◌||◌, ◌&&◌, Option, none, some, List, [], ◌∷◌, ◌==◌,
  eq_iff, arith, String-cases, Bool-cases, inl, inr, ◌⊎◌, All,
}
use flowix.Metadata.Model.{Rendition}
use flowix.Metadata.Database.{VideoRow, Database, Faults, row_of}
use flowix.Metadata.Repository.{
  set_status, store_renditions, change_status, upsert_all, update_status, count,
}
use flowix.Metadata.Repository.Status.{set_status_lem}

-- A call of `UpdateStatus`.
pub record StatusUpdate : Type 0 where
  pub faults : Faults
  pub id : String
  pub status : String
  pub renditions : List Rendition

abbrev apply : StatusUpdate → Database → Database
apply u db = (update_status u.faults u.id u.status u.renditions db).1

-- The calls one after the other, each in a transaction of its own.
abbrev pub run : List StatusUpdate → Database → Database
run [] db = db
run (u ∷ us) db = run us (apply u db)

abbrev pub is_back : String → VideoRow → Bool
is_back status r = r.status == "ready" && (status == "processing" || status == "uploaded")

abbrev pub Outcome : String → String → Database → Option VideoRow → List VideoRow → Type 0
Outcome id status db o videos =
    (videos ≡ db.videos)
    ⊎ ((videos ≡ set_status id status db)
        × ((r : VideoRow) → o ≡ some r → is_back status r ≡ false))

store_renditions_outcome :
    (f : Faults) (last : ℕ) (id status : String) (db : Database) (o : Option (List Rendition))
    → ((store_renditions f last id status db o).1.videos ≡ db.videos)
      ⊎ ((store_renditions f last id status db o).1.videos ≡ set_status id status db)
store_renditions_outcome f last id status db none = inl refl
store_renditions_outcome f last id status db (some table) = elim (Bool-cases (f last)) [
  | inl e ↦ inl (rw e)
  | inr e ↦ inr (rw e)
]

change_status_outcome :
    (f : Faults) (id status : String) (rns : List Rendition) (db : Database) (o : Option VideoRow)
    → Outcome id status db o (change_status f id status rns db o).1.videos
change_status_outcome f id status rns db none = inl refl
change_status_outcome f id status rns db (some r) = elim (Bool-cases (is_back status r)) [
  | inl back ↦ inl (rw back (ground arith))
  | inr timely ↦ rw timely (elim (Bool-cases (f 2)) [
    | inl fails ↦ inl (rw fails)
    | inr fine ↦
        rw fine
          (elim (store_renditions_outcome f (count rns + 3) id status db
            (upsert_all f 3 id rns db.renditions)) [
              | inl same ↦ inl same
              | inr changed ↦ inr (changed, λ s e. ground (arith, timely))
            ])
  ])
]

pub update_status_outcome :
    (f : Faults) (id status : String) (rns : List Rendition) (db : Database)
    → Outcome id status db (row_of id db.videos) (update_status f id status rns db).1.videos
unfolding update_status
update_status_outcome f id status rns db = elim (Bool-cases (f 0 || f 1)) [
  | inl fails ↦ inl (rw fails)
  | inr fine ↦ rw fine (change_status_outcome f id status rns db (row_of id db.videos))
]

abbrev IsReady : String → Database → Type 0
IsReady id db = (r : VideoRow) × (row_of id db.videos ≡ some r) × (r.status ≡ "ready")

-- An update that does not fail the video.
abbrev pub Spares : String → StatusUpdate → Type 0
Spares id u = u.id ≡ id → (u.status ≡ "processing") ⊎ (u.status ≡ "uploaded") ⊎ (u.status ≡ "ready")

apply-IsReady :
    (id : String) (u : StatusUpdate) (db : Database)
    → Spares id u
    → IsReady id db
    → IsReady id (apply u db)
apply-IsReady id u db spares (r, here, ready) =
    elim (update_status_outcome u.faults u.id u.status u.renditions db) [
      | inl same ↦ (r, rw same here, ready)
      | inr (changed, timely) ↦ elim (String-cases u.id id) [
        | inl (e, t) ↦ (
          record r { status = u.status; updated_at = db.now },
          rw (changed, set_status_lem u.id u.status db id here) (rw t refl),
          ground (
            arith,
            spares e,
            timely r (rw e here),
            ready,
            eq_iff r.status "ready",
            eq_iff u.status "processing",
            eq_iff u.status "uploaded",
          ),
        )
        | inr (n, t) ↦ (r, rw (changed, set_status_lem u.id u.status db id here) (rw t refl), ready)
      ]
    ]

-- A video that is ready is still ready after any run of updates, of this and of other videos, in
-- which none sets its status to anything but `processing`, `uploaded` or `ready`.
pub run-IsReady :
    (id : String) (us : List StatusUpdate) (db : Database) (r : VideoRow)
    → All (Spares id) us
    → row_of id db.videos ≡ some r
    → r.status ≡ "ready"
    → (s : VideoRow) × (row_of id (run us db).videos ≡ some s) × (s.status ≡ "ready")
run-IsReady id [] db r h here ready = (r, here, ready)
run-IsReady id (u ∷ us) db r (spares, h) here ready =
    let (s, there, still) = apply-IsReady id u db spares (r, here, ready) in
    run-IsReady id us (apply u db) s h there still
