-- ===== src/Platform/Stale/Listed.antt =====
-- The list of stale uploads names no video that is not stale.
use flowix.Common.{
  ℕ, ◌≡◌, ◌≢◌, inl, inr, refl, sym, String, false, ◌||◌, not, some, List, [], ◌∷◌, map, eq_iff, ltb,
  eqb, arith, Bool, select, take, All, All-take, if◌then◌else◌, Bool-cases, String-cases,
}
use flowix.Common.Int.{ℤ}
use flowix.Common.Keys.{member, Nodup}
use flowix.Common.Sort.{sort, All-sort}
use flowix.Metadata.Model.{StaleUpload as StaleVideo}
use flowix.Metadata.Database.{VideoRow, Database, Faults, row_of}
use flowix.Metadata.Database.Rows.{ids}
use flowix.Metadata.Repository
use flowix.Metadata.Repository.{whole_seconds, fits_int4, Result, is_stale, older_first, set_status}
use flowix.Metadata.Handler.{stale_reply}
use flowix.Metadata.Server.{replied}
use flowix.Upload.{ok}
use flowix.Upload.Client
use flowix.Upload.Client.{StaleUpload}
use flowix.Platform.Ownership.{answered}

fresh-apart :
    (id : String) (now : ℕ) (older : ℤ) (rows : List VideoRow)
    → member id (ids rows) ≡ false
    → All (λ (x : VideoRow). id ≢ x.id) (select (is_stale now older) rows)
unfolding member
fresh-apart id now older [] h = tt
fresh-apart id now older (x ∷ rows) h = elim (Bool-cases (is_stale now older x)) [
  | inl e ↦
      rw e (
        λ q. ground (arith, h, q, eq_iff x.id id),
        fresh-apart id now older rows (ground (arith, h)),
      )
  | inr e ↦ rw e (fresh-apart id now older rows (ground (arith, h)))
]

-- In a table without a repeated id, a video that is not stale is none of the stale ones.
pub stale-apart :
    (id : String) (now : ℕ) (older : ℤ) (rows : List VideoRow)
    → Nodup (ids rows)
    → ((r : VideoRow) → row_of id rows ≡ some r → is_stale now older r ≡ false)
    → All (λ (x : VideoRow). id ≢ x.id) (select (is_stale now older) rows)
unfolding row_of
stale-apart id now older [] d h = tt
stale-apart id now older (x ∷ rows) d h = elim (String-cases x.id id) [
  | inl (p, t) ↦
      let kept : is_stale now older x ≡ false = h x (rw t refl) in
      rw kept (fresh-apart id now older rows (rw p at d.0))
  | inr (p, t) ↦
      let rest = stale-apart id now older rows d.1 (λ r q. h r (rw t q)) in
      elim (Bool-cases (is_stale now older x)) [
        | inl e ↦ rw e (λ q. p (sym q), rest)
        | inr e ↦ rw e rest
      ]
]

abbrev listed : List VideoRow → List StaleUpload
listed rows =
    map (λ (u : StaleVideo). record { id = u.id; owner_id = u.owner_id })
      (map (λ (r : VideoRow). record { id = r.id; owner_id = r.owner_id }) rows)

listed-All :
    (P : String → Type 0) (rows : List VideoRow)
    → All (λ (x : VideoRow). P x.id) rows
    → All (λ (v : StaleUpload). P v.id) (listed rows)
listed-All P [] h = tt
listed-All P (x ∷ rows) (h, hs) = (h, listed-All P rows hs)

pub All-select :
    (p : VideoRow → Bool) (P : VideoRow → Type 0) (rows : List VideoRow)
    → All P rows
    → All P (select p rows)
All-select p P [] h = tt
All-select p P (x ∷ rows) (h, hs) = elim (Bool-cases (p x)) [
  | inl e ↦ rw e (h, All-select p P rows hs)
  | inr e ↦ rw e (All-select p P rows hs)
]

-- What holds of the ids of all stale rows holds of the ids in the answer.
pub answer-All :
    (P : String → Type 0) (f : Faults) (db : Database) (older : ℤ) (limit : ℕ)
    (vs : List StaleUpload)
    → All (λ (x : VideoRow). P x.id) (select (is_stale db.now (whole_seconds older)) db.videos)
    → Client.list_stale_uploaded
        (ok (answered (replied (stale_reply (Repository.list_stale_uploaded f older limit db)))))
      ≡ ok vs
    → All (λ (u : StaleUpload). P u.id) vs
unfolding Client.list_stale_uploaded Repository.list_stale_uploaded
answer-All P f db older limit vs k h =
    elim (Bool-cases (f 0 || not (fits_int4 (whole_seconds older)))) [
      | inl e ↦ absurd (ground (arith, rw e at h))
      | inr e ↦
          let rows =
            take (if eqb limit 0 || ltb 500 limit then 100 else limit)
              (sort older_first (select (is_stale db.now (whole_seconds older)) db.videos)) in
          let same : vs ≡ listed rows = ground (arith, rw e at h) in
          rw same (listed-All P rows (All-take _ _ _ (All-sort older_first _ _ k)))
    ]
