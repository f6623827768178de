-- ===== src/Upload/Sessions.antt =====
-- services/upload/internal/storage/minio.go: the multipart sessions of the object store. Its
-- answers are parameters: the sessions of a listing, and a page of the parts behind a marker.
use mathlib.Core.Path.{subst}
use flowix.Common.{
  ℕ, zero, suc, ◌≤◌, ◌<◌, ◌≡◌, ◌≢◌, ◌⊎◌, inl, inr, refl, sym, ap, ◌∙◌, String, ◌<>◌, Bool, true,
  false, ◌||◌, not, List, [], ◌∷◌, ◌++◌, length, length-append, All, map, ◌==◌, eq_iff, ltb, arith,
  if◌then◌else◌, Bool-cases, String-cases,
}
use flowix.Common.Outcome.{about}
use flowix.Upload.{Outcome, ok, fail, MultipartPart}

-- An upload in progress, as `ListMultipartUploads` gives it.
pub record Session : Type 0 where
  pub key : String
  pub upload_id : String
  pub initiated : ℕ

-- The loop of `FindUploadID`: the latest session so far and its time.
unfoldable pub latest : String → String × ℕ → List Session → String × ℕ
latest key acc [] = acc
latest key acc (s ∷ ss) =
    let here = latest key (s.upload_id, s.initiated) ss in
    let skip = latest key acc ss in
    if not (s.key == key) then skip else if acc.0 == "" || ltb acc.1 s.initiated then here else skip

abbrev found : String → String × ℕ → Outcome String
found key (id, t) = if id == "" then fail ("multipart upload not found for " <> key) else ok id

-- `FindUploadID`
unfoldable pub find_upload_id : String → Outcome (List Session) → Outcome String
unfolding latest
find_upload_id key (fail e) = fail ("list multipart uploads " <> key <> ": " <> e)
find_upload_id key (ok sessions) = found key (latest key ("", 0) sessions)

-- `CreateMultipartUpload` over the store's `NewMultipartUpload`.
unfoldable pub create_multipart_upload :
    {W : Type 0}
    → (String → String → W → Outcome String × W)
    → String
    → String
    → W
    → Outcome String × W
create_multipart_upload new key ct w =
    let p = new key (if ct == "" then "video/mp4" else ct) w in
    (about ("create multipart upload " <> key) p.0, p.1)

-- A page of `ListObjectParts`.
pub record Page : Type 0 where
  pub object_parts : List MultipartPart
  pub is_truncated : Bool
  pub next_part_number_marker : ℕ

abbrev is_empty : List MultipartPart → Bool
is_empty [] = true
is_empty (p ∷ ps) = false

abbrev prepend : List MultipartPart → Outcome (List MultipartPart) → Outcome (List MultipartPart)
prepend ps (fail e) = fail e
prepend ps (ok qs) = ok (ps ++ qs)

abbrev page_or :
    String → Outcome Page → (ℕ → Outcome (List MultipartPart)) → Outcome (List MultipartPart)
page_or key (fail e) rest = fail ("list parts " <> key <> ": " <> e)
page_or key (ok page) rest =
    let more = rest page.next_part_number_marker in
    if not page.is_truncated || is_empty page.object_parts
    then ok page.object_parts
    else prepend page.object_parts more

-- The loop of `ListParts` from a marker, with fuel for the pages; the loop starts at 0.
unfoldable pub list_parts : (ℕ → Outcome Page) → String → ℕ → ℕ → Outcome (List MultipartPart)
list_parts pages key zero marker = fail "out of fuel"
list_parts pages key (suc fuel) marker = page_or key (pages marker) (list_parts pages key fuel)

-- `CompleteMultipartUpload` over that of the store, which takes the numbers and the etags.
unfoldable pub complete_multipart_upload :
    {W : Type 0}
    → (String → String → List (ℕ × String) → W → Outcome ℕ × W)
    → String
    → String
    → List MultipartPart
    → W
    → Outcome ℕ × W
complete_multipart_upload complete key id [] w = (fail ("no parts uploaded for " <> key), w)
complete_multipart_upload complete key id (p ∷ ps) w =
    let q = complete key id (map (λ (q : MultipartPart). (q.part_number, q.etag)) (p ∷ ps)) w in
    (about ("complete multipart upload " <> key) q.0, q.1)

-- A session of the key, with this id and this time, is in the list.
abbrev pub IsOneOf : String → String → ℕ → List Session → Type 0
IsOneOf key id t [] = ⊥
IsOneOf key id t (s ∷ ss) =
    ((s.key ≡ key) × ((s.upload_id ≡ id) × (s.initiated ≡ t))) ⊎ IsOneOf key id t ss

abbrev pub IsLatest : String → ℕ → List Session → Type 0
IsLatest key t ss = All (λ (s : Session). s.key ≡ key → s.initiated ≤ t) ss

-- What the loop gives: a session no earlier than the one it has and than those of the list.
abbrev Chosen : String → String × ℕ → List Session → String × ℕ → Type 0
Chosen key acc ss out =
    (acc.1 ≤ out.1) × (IsLatest key out.1 ss × ((out ≡ acc) ⊎ IsOneOf key out.0 out.1 ss))

latest_other :
    (key : String) (acc : String × ℕ) (s : Session) (ss : List Session)
    → (s.key == key) ≡ false
    → latest key acc (s ∷ ss) ≡ latest key acc ss
unfolding latest
latest_other key acc s ss e = rw e refl

latest_here :
    (key : String) (acc : String × ℕ) (s : Session) (ss : List Session)
    → (s.key == key) ≡ true
    → (acc.0 == "" || ltb acc.1 s.initiated) ≡ true
    → latest key acc (s ∷ ss) ≡ latest key (s.upload_id, s.initiated) ss
unfolding latest
latest_here key acc s ss e f = rw (e, f) refl

latest_earlier :
    (key : String) (acc : String × ℕ) (s : Session) (ss : List Session)
    → (s.key == key) ≡ true
    → (acc.0 == "" || ltb acc.1 s.initiated) ≡ false
    → latest key acc (s ∷ ss) ≡ latest key acc ss
unfolding latest
latest_earlier key acc s ss e f = rw (e, f) refl

skipped :
    (key : String) (acc out : String × ℕ) (s : Session) (ss : List Session)
    → (s.key ≡ key → s.initiated ≤ acc.1)
    → Chosen key acc ss out
    → Chosen key acc (s ∷ ss) out
skipped key acc out s ss h (a, (b, c)) =
    (a, ((λ k. omega (arith, h k, a), b), elim c [ inl e ↦ inl e | inr m ↦ inr (inr m) ]))

taken :
    (key : String) (acc out : String × ℕ) (s : Session) (ss : List Session)
    → s.key ≡ key
    → acc.1 ≤ s.initiated
    → Chosen key (s.upload_id, s.initiated) ss out
    → Chosen key acc (s ∷ ss) out
taken key acc out s ss k h (a, (b, c)) = (
  omega (arith, a, h),
  (
    (λ _. a, b),
    elim c [
      | inl e ↦
          inr
            (inl (k, (ap (λ (p : String × ℕ). p.0) (sym e), ap (λ (p : String × ℕ). p.1) (sym e))))
      | inr m ↦ inr (inr m)
    ],
  ),
)

latest-Chosen :
    (key : String) (acc : String × ℕ) (ss : List Session)
    → (acc.0 ≡ "" → acc.1 ≡ 0)
    → All (λ (s : Session). s.upload_id ≢ "") ss
    → Chosen key acc ss (latest key acc ss)
unfolding latest
latest-Chosen key acc [] z h = (omega arith, (tt, inl refl))
latest-Chosen key acc (s ∷ ss) z (m, h) = elim (String-cases s.key key) [
  | inr (p, q) ↦
      subst (Chosen key acc (s ∷ ss)) (sym (latest_other key acc s ss q))
        (skipped key acc _ s ss (λ k. absurd (p k)) (latest-Chosen key acc ss z h))
  | inl (p, q) ↦ elim (Bool-cases (acc.0 == "" || ltb acc.1 s.initiated)) [
    | inl e ↦ subst (Chosen key acc (s ∷ ss)) (sym (latest_here key acc s ss q e)) (
        taken key acc _ s ss p (ground (arith, z, eq_iff acc.0 ""))
          (latest-Chosen key (s.upload_id, s.initiated) ss (λ k. absurd (m k)) h))
    | inr e ↦
        subst (Chosen key acc (s ∷ ss)) (sym (latest_earlier key acc s ss q e))
          (skipped key acc _ s ss (λ k. ground arith) (latest-Chosen key acc ss z h))
  ]
]

found-eq-ok :
    (key : String) (p : String × ℕ) (id : String) → found key p ≡ ok id → (p.0 ≡ id) × (id ≢ "")
found-eq-ok key (i, t) id h = go (i == "") refl h
  where
    go :
        (b : Bool)
        → (i == "") ≡ b
        → (if b then fail ("multipart upload not found for " <> key) else ok i) ≡ ok id
        → (i ≡ id) × (id ≢ "")
    go true e k = absurd (ground arith)
    go false e k = ground (arith, eq_iff i "")

-- The upload id that is found is that of a session of this very key, and no session of the key was
-- begun later. The hypothesis: upload ids are not empty.
pub find_upload_id-IsLatest :
    (key id : String) (ss : List Session)
    → All (λ (s : Session). s.upload_id ≢ "") ss
    → find_upload_id key (ok ss) ≡ ok id
    → (t : ℕ) × (IsOneOf key id t ss × IsLatest key t ss)
unfolding find_upload_id
find_upload_id-IsLatest key id ss h e =
    let (a, (b, c)) = latest-Chosen key ("", 0) ss (λ _. refl) h in
    let (i, n) = found-eq-ok key (latest key ("", 0) ss) id e in
    (
      (latest key ("", 0) ss).1,
      (
        elim c [
          | inl q ↦ absurd (n (sym i ∙ ap (λ (p : String × ℕ). p.0) q))
          | inr m ↦ subst (λ x. IsOneOf key x (latest key ("", 0) ss).1 ss) i m
        ],
        b,
      ),
    )

-- The store's pages from a marker on serve these parts: a truncated page has parts, and its marker
-- leads to the rest of them.
pub data Serves (pages : ℕ → Outcome Page) : ℕ → List MultipartPart → Type 0 where
  last :
      {m n : ℕ} {ps : List MultipartPart}
      → pages m
        ≡ ok (record { object_parts = ps; is_truncated = false; next_part_number_marker = n })
      → Serves pages m ps
  more :
      {m n : ℕ} {p : MultipartPart} {ps qs : List MultipartPart}
      → pages m
        ≡ ok (record { object_parts = p ∷ ps; is_truncated = true; next_part_number_marker = n })
      → Serves pages n qs
      → Serves pages m (p ∷ ps ++ qs)

-- The loop ends and gives all parts, in the order of the pages, when it has more fuel than there
-- are parts.
pub list_parts-eq-ok :
    (pages : ℕ → Outcome Page) (key : String) (fuel m : ℕ) (ps : List MultipartPart)
    → Serves pages m ps
    → length ps < fuel
    → list_parts pages key fuel m ≡ ok ps
unfolding list_parts
list_parts-eq-ok pages key zero m ps s h = absurd (omega arith)
list_parts-eq-ok pages key (suc fuel) m ps (last e) h = rw e refl
list_parts-eq-ok pages key (suc fuel) m _ (more {n = n} {p = p} {ps = ps} {qs = qs} e s) h =
    let ih = list_parts-eq-ok pages key fuel n qs s (omega (arith, length-append ps qs)) in
    rw (e, ih) refl
