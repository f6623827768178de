-- ===== src/Metadata/Repository/Listing.antt =====
-- What the list of videos shows to whom, in which order, and page by page.
use mathlib.Core.List.{Perm}
use flowix.Common.{
  ℕ, zero, suc, ◌+◌, ◌≤◌, ◌≡◌, ◌≢◌, ◌⊎◌, refl, ap, String, Bool, true, Option, List, [], ◌∷◌, ◌++◌,
  map, eq_iff, arith, select, length, take, drop, All, All-take, All-drop, Bool-cases, inl, inr,
}
use flowix.Common.Sort.{sort, sort-perm, sort-IsSorted, length-sort, All-sort, IsSorted}
use flowix.Metadata.Model.{Video}
use flowix.Metadata.Database.{VideoRow, Database, Faults, email_of, scan}
use flowix.Metadata.Repository.{ok, visible_to, newer, page_rows, list}

-- Public and ready, or a video of the viewer, who is not anonymous.
abbrev pub MaySee : String → Video → Type 0
MaySee viewer v =
    ((v.visibility ≡ "public") × (v.status ≡ "ready")) ⊎ ((viewer ≢ "") × (v.owner_id ≡ viewer))

All-select : (p : VideoRow → Bool) (rows : List VideoRow) → All (λ r. p r ≡ true) (select p rows)
All-select p [] = tt
All-select p (r ∷ rows) = elim (Bool-cases (p r)) [
  | inl e ↦ rw e (e, All-select p rows)
  | inr e ↦ rw e (All-select p rows)
]

visible_to-MaySee :
    (viewer : String) (email : Option String) (r : VideoRow)
    → visible_to viewer r ≡ true
    → MaySee viewer (scan email r)
unfolding visible_to
visible_to-MaySee viewer email r h = ground (
  arith,
  eq_iff r.visibility "public",
  eq_iff r.status "ready",
  eq_iff viewer "",
  eq_iff r.owner_id viewer,
)

-- Whatever page is asked for, every video on it is public and ready, or the viewer's own.
pub list-MaySee :
    (f : Faults) (limit offset : ℕ) (viewer : String) (db : Database) (vs : List Video)
    → list f limit offset viewer db ≡ ok vs
    → All (MaySee viewer) vs
unfolding list page_rows
list-MaySee f limit offset viewer db vs h =
    let rows = page_rows limit offset viewer db.videos in
    let shown : vs ≡ map (λ (r : VideoRow). scan (email_of r.owner_id db.users) r) rows =
      ground arith in
    rw shown (
      go rows (
        All-take _ limit _
          (All-drop _ offset _ (All-sort newer _ _ (All-select (visible_to viewer) db.videos)))))
  where
    go :
        (rows : List VideoRow)
        → All (λ r. visible_to viewer r ≡ true) rows
        → All (MaySee viewer) (map (λ (r : VideoRow). scan (email_of r.owner_id db.users) r) rows)
    go [] k = tt
    go (r ∷ rows) (k, ks) =
        (visible_to-MaySee viewer (email_of r.owner_id db.users) r k, go rows ks)

take-nil : (n : ℕ) → take {A = VideoRow} n [] ≡ []
take-nil zero = refl
take-nil (suc n) = refl

take-append-take :
    (m n : ℕ) (rows : List VideoRow) → take m rows ++ take n (drop m rows) ≡ take (m + n) rows
take-append-take zero n rows = let e : 0 + n ≡ n = omega arith in rw e refl
take-append-take (suc m) n [] = rw (take-nil n, take-nil (suc m + n)) refl
take-append-take (suc m) n (r ∷ rows) =
    let e : suc m + n ≡ suc (m + n) = omega arith in
    rw e (ap (λ l. r ∷ l) (take-append-take m n rows))

drop-nil : (n : ℕ) → drop {A = VideoRow} n [] ≡ []
drop-nil zero = refl
drop-nil (suc n) = refl

drop-drop : (o m : ℕ) (rows : List VideoRow) → drop m (drop o rows) ≡ drop (o + m) rows
drop-drop zero m rows = let e : 0 + m ≡ m = omega arith in rw e refl
drop-drop (suc o) m [] = rw (drop-nil m, drop-nil (suc o + m)) refl
drop-drop (suc o) m (r ∷ rows) =
    let e : suc o + m ≡ suc (o + m) = omega arith in rw e (drop-drop o m rows)

-- Two pages that follow one another are one larger page.
pub page_rows-append :
    (m n offset : ℕ) (viewer : String) (rows : List VideoRow)
    → page_rows m offset viewer rows ++ page_rows n (offset + m) viewer rows
      ≡ page_rows (m + n) offset viewer rows
unfolding page_rows
page_rows-append m n offset viewer rows =
    rw (← drop-drop offset m (sort newer (select (visible_to viewer) rows)))
      (take-append-take m n (drop offset (sort newer (select (visible_to viewer) rows))))

take_all : (n : ℕ) (rows : List VideoRow) → length rows ≤ n → take n rows ≡ rows
take_all zero [] h = refl
take_all zero (r ∷ rows) h = absurd (omega arith)
take_all (suc n) [] h = refl
take_all (suc n) (r ∷ rows) h = ap (λ l. r ∷ l) (take_all n rows (omega arith))

-- A page that is large enough has each row that the viewer may see exactly as often as the table,
-- and has them newest first.
pub page_rows-perm :
    (limit : ℕ) (viewer : String) (rows : List VideoRow)
    → length (select (visible_to viewer) rows) ≤ limit
    → Perm (page_rows limit 0 viewer rows) (select (visible_to viewer) rows)
      × IsSorted newer (page_rows limit 0 viewer rows)
unfolding page_rows
page_rows-perm limit viewer rows h =
    rw
      (take_all limit (sort newer (select (visible_to viewer) rows))
        (rw (length-sort newer (select (visible_to viewer) rows)) h))
      (
        sort-perm newer (select (visible_to viewer) rows),
        sort-IsSorted newer (λ a b e. ground arith) (λ a b c e f. ground arith)
            (select (visible_to viewer) rows),
      )
