-- ===== src/Upload/Resumable/Append.antt =====
-- What a chunk does to the object: `ResumableHandler.Upload` with a Content-Range.
use mathlib.Core.Path.{subst}
use flowix.Common.{
  ℕ, ◌+◌, ◌-◌, ◌≤◌, ◌≡◌, ◌≢◌, ◌⊎◌, inl, inr, refl, sym, ap, ◌∙◌, String, Bool, true, false, not,
  Option, none, some, List, [], ◌∷◌, ◌++◌, length, take, ◌==◌, eq_iff, eqb, ltb, leb, arith,
  if◌then◌else◌, Bool-cases,
}
use flowix.Common.Int.{pos, negsuc, int64, max_int64}
use flowix.Http.{Request}
use flowix.Upload.{ObjectInfo, Outcome, ok, fail, Services, Env, Reply, raw_key, guarded, max_bytes}
use flowix.Upload.Owner.{guarded_cases}
use flowix.Upload.Resumable.{
  Body, whole, broken, Read, too_large, failed, chunk, bytes_of, after_eof, read_limited,
  ContentRange, parse_content_range, size_or_zero, stored_as, put_reply, put_appended, with_chunk,
  is_size, exceeds, upload_range, upload_ranged, upload,
}

module _ {W : Type 0} (sv : Services W) where
  -- 200 or 308.
  abbrev pub Succeeded : Reply × W → Type 0
  Succeeded p = (p.0.status ≡ 200) ⊎ (p.0.status ≡ 308)

  -- Where the object ends by what the store reports; a store that cannot tell counts as 0, as for no
  -- object, whatever is stored.
  abbrev pub EndsAt : Outcome ObjectInfo → ℕ → Type 0
  EndsAt (fail e) n = n ≡ 0
  EndsAt (ok info) n = n ≡ info.size

  EndsAt_lem : (o : Outcome ObjectInfo) (n : ℕ) → size_or_zero o ≡ n → EndsAt o n
  EndsAt_lem (fail e) n h = sym h
  EndsAt_lem (ok info) n h = sym h

  -- The range starts where the store reports the end, and what is put in place of the object is what
  -- was read of it, nothing where the range starts at 0, followed by the whole body.
  pub record IsAppended (most : ℕ) (r : Request) (body : Body) (w : W) (cr : ContentRange)
      (p : Reply × W) : Type 0 where
    pub old : List ℕ
    pub bytes : List ℕ
    pub at_end : EndsAt (sv.stat_object_info (raw_key (r.param "id")) w) cr.start
    pub fetched :
        ((cr.start ≡ 0) × (old ≡ [])) ⊎ (sv.get_object (raw_key (r.param "id")) w ≡ ok old)
    pub entire : body ≡ whole bytes
    pub size : cr.start + length bytes ≡ cr.end + 1
    pub limit : cr.start + length bytes ≤ most
    pub put : sv.put_object (raw_key (r.param "id")) (old ++ bytes) (stored_as r) w ≡ (ok tt, p.1)

eof_exact : (b : Body) (bs : List ℕ) → after_eof b ≡ chunk bs → b ≡ whole bs
eof_exact (whole cs) bs h = ground arith
eof_exact (broken cs) bs h = ground arith

read_cases :
    (a b : Bool) (got bs : List ℕ) (body : Body)
    → (if a then too_large else if b then chunk got else after_eof body) ≡ chunk bs
    → ((b ≡ true) × (got ≡ bs)) ⊎ (body ≡ whole bs)
read_cases true b got bs body h = absurd (ground arith)
read_cases false true got bs body h = inl (refl, ground arith)
read_cases false false got bs body h = inr (eof_exact body bs h)

-- A read of at most one byte more than wanted that gives just as many as wanted is the whole body.
read_pos :
    (most n : ℕ) (body : Body) (bs : List ℕ)
    → read_limited most (pos n) body ≡ chunk bs
    → length bs + 1 ≡ n
    → body ≡ whole bs
unfolding read_limited
read_pos most n body bs h k =
    let got = take n (bytes_of body) in
    elim (read_cases (ltb most (length got)) (eqb (length got) n) got bs body h) [
      | inl (e, q) ↦ absurd (ground (arith, ap length q))
      | inr q ↦ q
    ]

size_is :
    (b : Bool) (x y m : ℕ) → is_size (if b then pos x else negsuc y) m ≡ true → (b ≡ true) × (m ≡ x)
size_is true x y m h = (refl, ground arith)
size_is false x y m h = absurd (ground arith)

read_wrapped :
    (b : Bool) (most n y : ℕ) (body : Body) (bs : List ℕ)
    → read_limited most (if b then pos n else negsuc y) body ≡ chunk bs
    → 1 ≤ length bs
    → length bs + 1 ≡ n
    → body ≡ whole bs
unfolding read_limited
read_wrapped true most n y body bs h one k = read_pos most n body bs h k
read_wrapped false most n y body [] h one k = absurd (ground arith)
read_wrapped false most n y body (x ∷ xs) h one k = absurd (ground arith)

-- This holds with the wrap-around of the sizes, too.
read_exact :
    (most x : ℕ) (body : Body) (bs : List ℕ)
    → 1 ≤ x
    → read_limited most (int64 (x + 1)) body ≡ chunk bs
    → is_size (int64 x) (length bs) ≡ true
    → (body ≡ whole bs) × (length bs ≡ x)
read_exact most x body bs one h k =
    let (small, size) = size_is (leb x max_int64) x _ (length bs) k in
    (
      read_wrapped (leb (x + 1) max_int64) most (x + 1) _ body bs h (omega (arith, size, one))
          (omega (arith, size)),
      size,
    )

within :
    (b : Bool) (n y most : ℕ)
    → b ≡ true
    → exceeds (if b then pos n else negsuc y) most ≡ false
    → n ≤ most
within true n y most e h = ground arith
within false n y most e h = absurd (ground arith)

first_of :
    {W : Type 0} (sv : Services W) (b : Bool) (x y : Reply × W)
    → (Succeeded sv x → ⊥)
    → Succeeded sv (if b then x else y)
    → (b ≡ false) × Succeeded sv y
first_of sv true x y n h = absurd (n h)
first_of sv false x y n h = (refl, h)

module _ {W : Type 0} (sv : Services W) where
  kept :
      (b : Bool) (x y : Reply × W) → b ≡ true → Succeeded sv (if b then x else y) → Succeeded sv x
  kept true x y e h = h
  kept false x y e h = absurd (ground arith)

  dropped :
      (b : Bool) (x y : Reply × W)
      → b ≡ false
      → (Succeeded sv y → ⊥)
      → Succeeded sv (if b then x else y)
      → ⊥
  dropped true x y e n h = ground arith
  dropped false x y e n h = n h

  kept_other :
      (b : Bool) (x y : Reply × W) → b ≡ false → Succeeded sv (if b then x else y) → Succeeded sv y
  kept_other true x y e h = absurd (ground arith)
  kept_other false x y e h = h

  kept_error :
      (b : Bool) (x y : Reply × W)
      → b ≡ true
      → (Succeeded sv x → ⊥)
      → Succeeded sv (if b then x else y)
      → ⊥
  kept_error b x y e n h = n (kept b x y e h)

  passed :
      (a b : Bool) (x y z : Reply × W)
      → (Succeeded sv x → ⊥)
      → (Succeeded sv y → ⊥)
      → Succeeded sv (if a then x else if b then y else z)
      → (a ≡ false) × ((b ≡ false) × ((if a then x else if b then y else z) ≡ z))
  passed true b x y z n m h = absurd (n h)
  passed false true x y z n m h = absurd (m h)
  passed false false x y z n m h = (refl, (refl, refl))

  put_succeeded :
      (reply : Reply) (q : Outcome (Unit {0}) × W)
      → Succeeded sv (put_reply reply q)
      → q ≡ (ok tt, (put_reply reply q).1)
  put_succeeded reply (fail e, w) h = absurd (ground arith)
  put_succeeded reply (ok tt, w) h = refl

  appended_succeeded :
      (key ct : String) (total : Option ℕ) (bs : List ℕ) (o : Outcome (List ℕ)) (w : W)
      → Succeeded sv (put_appended sv key ct total bs o w)
      → (old : List ℕ) × ((o ≡ ok old)
          × (sv.put_object key (old ++ bs) ct w ≡ (ok tt, (put_appended sv key ct total bs o w).1)))
  appended_succeeded key ct total bs (fail e) w h = absurd (ground arith)
  appended_succeeded key ct total bs (ok old) w h =
      (old, (refl, put_succeeded _ (sv.put_object key (old ++ bs) ct w) h))

  fetched_from :
      (b : Bool) (n : ℕ) (o : Outcome (List ℕ)) (old : List ℕ)
      → (b ≡ true → n ≡ 0)
      → (if b then ok [] else o) ≡ ok old
      → ((n ≡ 0) × (old ≡ [])) ⊎ (o ≡ ok old)
  fetched_from true n o old z h = inl (z refl, ground arith)
  fetched_from false n o old z h = inr h

  chunk_succeeded :
      (most : ℕ) (r : Request) (body : Body) (w : W) (cr : ContentRange) (n : ℕ) (read : Read)
      → cr.start ≡ n
      → size_or_zero (sv.stat_object_info (raw_key (r.param "id")) w) ≡ n
      → cr.start ≤ cr.end
      → read_limited most (int64 (cr.end - cr.start + 1 + 1)) body ≡ read
      → (length (bytes_of body) + n ≤ max_int64)
      → exceeds (int64 (n + (cr.end - cr.start + 1))) most ≡ false
      → Succeeded sv (with_chunk sv (raw_key (r.param "id")) (stored_as r) cr n read w)
      → IsAppended sv most r body w cr
          (with_chunk sv (raw_key (r.param "id")) (stored_as r) cr n read w)
  chunk_succeeded most r body w cr n too_large same at le rd fits ex h = absurd (ground arith)
  chunk_succeeded most r body w cr n failed same at le rd fits ex h = absurd (ground arith)
  chunk_succeeded most r body w cr n (chunk bs) same at le rd fits ex h =
      let key = raw_key (r.param "id") in
      let x : ℕ = cr.end - cr.start + 1 in
      elim (Bool-cases (is_size (int64 x) (length bs))) [
        | inl e ↦
            let g = kept (is_size (int64 x) (length bs)) _ _ e h in
            let (old, (fetched, put)) =
              appended_succeeded key (stored_as r) cr.total bs
                (if eqb n 0 then ok [] else sv.get_object key w) w g in
            let (entire, size) = read_exact most x body bs (omega arith) rd e in
            let room : length bs + n ≤ max_int64 =
              rw (sym (ap (λ b. length (bytes_of b)) entire)) fits in
            rw e (record {
              old = old;
              bytes = bs;
              at_end = EndsAt_lem sv _ _ (at ∙ sym same);
              fetched =
                  fetched_from (eqb n 0) cr.start (sv.get_object key w) old (λ k. ground arith)
                    fetched;
              entire = entire;
              size = omega (arith, size, le);
              limit = omega (
                arith,
                size,
                same,
                within (leb (n + x) max_int64) (n + x) _ most (ground (arith, size, room)) ex,
              );
              put = put;
            })
        | inr e ↦ absurd (dropped (is_size (int64 x) (length bs)) _ _ e (λ k. ground arith) h)
      ]

  range_succeeded :
      (most : ℕ) (r : Request) (body : Body) (w : W) (cr : ContentRange) (n : ℕ)
      → size_or_zero (sv.stat_object_info (raw_key (r.param "id")) w) ≡ n
      → cr.start ≤ cr.end
      → length (bytes_of body) + n ≤ max_int64
      → Succeeded sv (upload_range sv most r body cr n w)
      → IsAppended sv most r body w cr (upload_range sv most r body cr n w)
  unfolding upload_range
  range_succeeded most r body w cr n at le fits h =
      let (same, (room, q)) =
        passed (not (eqb cr.start n)) (exceeds (int64 (n + (cr.end - cr.start + 1))) most) _ _ _
          (λ k. ground arith) (λ k. ground arith) h in
      let e : cr.start ≡ n = ground (arith, same) in
      subst (IsAppended sv most r body w cr) (sym q)
        (chunk_succeeded most r body w cr n _ e at le refl fits room (subst (Succeeded sv) q h))

  ranged_succeeded :
      (most : ℕ) (r : Request) (body : Body) (w : W) (o : Option ContentRange)
      → length (bytes_of body) + size_or_zero (sv.stat_object_info (raw_key (r.param "id")) w)
        ≤ max_int64
      → Succeeded sv (upload_ranged sv most r body o w)
      → (cr : ContentRange) × ((o ≡ some cr)
          × IsAppended sv most r body w cr (upload_ranged sv most r body o w))
  unfolding upload_ranged
  ranged_succeeded most r body w none fits h = absurd (ground arith)
  ranged_succeeded most r body w (some cr) fits h = elim (Bool-cases (ltb cr.end cr.start)) [
    | inl e ↦ absurd (kept_error (ltb cr.end cr.start) _ _ e (λ k. ground arith) h)
    | inr e ↦ rw e (
      cr,
      (
        refl,
        range_succeeded most r body w cr _ refl (ground arith) fits
            (kept_other (ltb cr.end cr.start) _ _ e h),
      ),
    )
  ]

  other_of : (b : Bool) (x y : Reply × W) → b ≡ false → (if b then x else y) ≡ y
  other_of true x y e = absurd (ground arith)
  other_of false x y e = refl

  guarded_succeeded :
      (id user : String) (w : W) (rest other : Reply × W)
      → rest ≡ other
      → Succeeded sv (guarded sv id user w rest)
      → (sv.get_video_owner id w ≡ ok user) × (guarded sv id user w rest ≡ other)
  guarded_succeeded id user w rest other e h = elim (guarded_cases sv id user w rest) [
    | inl (owner, q) ↦ (owner, q ∙ e)
    | inr bad ↦ absurd (ground arith)
  ]

  -- A request with a Content-Range is answered by 200 or 308 only if the user is the video's owner,
  -- the range parses and it starts at the size that the store reports for the object, or at 0 if the
  -- store gives an error instead. The whole body is then as long as the range says, and what the last
  -- call put in place of the object is the body alone where the range starts at 0, or else what a
  -- read of the object gave, followed by the body, in size within the limit. A range from 0 so
  -- replaces an object whose size the store failed to tell. The hypothesis: the reported size and the
  -- body together have fewer than 2^63 bytes.
  pub upload-IsAppended :
      (env : Env) (body : Body) (r : Request) (w : W)
      → r.headers "Content-Range" ≢ ""
      → length (bytes_of body) + size_or_zero (sv.stat_object_info (raw_key (r.param "id")) w)
        ≤ max_int64
      → Succeeded sv (upload sv env body r w)
      → (sv.get_video_owner (r.param "id") w ≡ ok r.user)
        × ((cr : ContentRange) × ((parse_content_range (r.headers "Content-Range") ≡ some cr)
              × IsAppended sv (max_bytes env) r body w cr (upload sv env body r w)))
  unfolding upload
  upload-IsAppended env body r w n fits h =
      let e : (r.headers "Content-Range" == "") ≡ false =
        ground (arith, eq_iff (r.headers "Content-Range") "") in
      let ranged =
        upload_ranged sv (max_bytes env) r body (parse_content_range (r.headers "Content-Range"))
          w in
      let (owner, q) =
        guarded_succeeded (r.param "id") r.user w _ ranged
          (other_of (r.headers "Content-Range" == "") _ _ e) h in
      let (cr, (parsed, appended)) =
        ranged_succeeded (max_bytes env) r body w (parse_content_range (r.headers "Content-Range"))
          fits (subst (Succeeded sv) q h) in
      (owner, (cr, (parsed, subst (IsAppended sv (max_bytes env) r body w cr) (sym q) appended)))
