-- ===== src/Upload/Resumable/Sequence.antt =====
-- The chunks of one video, one after another: any of them may fail, be sent again or come at the
-- wrong place.
use mathlib.Core.List.{append_assoc, append-nil}
use mathlib.Core.Path.{subst}
use flowix.Common.{
  ℕ, zero, suc, ◌+◌, ◌-◌, ◌≡◌, ◌≢◌, ◌⊎◌, inl, inr, refl, sym, ap, ◌∙◌, String, false, Option, none,
  some, List, [], ◌∷◌, ◌++◌, length, take, ◌==◌, eq_iff, eqb, ltb, arith, All, if◌then◌else◌,
  Bool-cases,
}
use flowix.Common.Int.{ℤ, pos, negsuc, int64}
use flowix.Http.{Request}
use flowix.Upload.{
  Outcome, ok, fail, Services, Env, Reply, raw_key, guarded, guarded_by, require_ownership,
  max_bytes,
}
use flowix.Upload.Resumable.{
  Body, whole, broken, Read, too_large, failed, chunk, bytes_of, after_eof, read_limited,
  ContentRange, parse_content_range, size_or_zero, stored_as, put_reply, put_appended, with_chunk,
  is_size, exceeds, upload_range, upload_ranged, upload,
}

abbrev pub IsPrefix : List ℕ → List ℕ → Type 0
IsPrefix xs ys = (rest : List ℕ) × (xs ++ rest ≡ ys)

take-IsPrefix : (n : ℕ) (xs : List ℕ) → IsPrefix (take n xs) xs
take-IsPrefix zero xs = (xs, refl)
take-IsPrefix (suc n) [] = ([], refl)
take-IsPrefix (suc n) (x ∷ xs) = let (r, e) = take-IsPrefix n xs in (r, ap (λ l. x ∷ l) e)

eof_bytes : (b : Body) (bs : List ℕ) → after_eof b ≡ chunk bs → bytes_of b ≡ bs
eof_bytes (whole cs) bs h = ground arith
eof_bytes (broken cs) bs h = absurd (ground arith)

-- What is read of a body is a beginning of it.
read-IsPrefix :
    (most : ℕ) (n : ℤ) (b : Body) (bs : List ℕ)
    → read_limited most n b ≡ chunk bs
    → IsPrefix bs (bytes_of b)
unfolding read_limited
read-IsPrefix most (negsuc n) b bs h =
    let e : [] ≡ bs = ground (arith, h) in subst (λ l. IsPrefix l (bytes_of b)) e (bytes_of b, refl)
read-IsPrefix most (pos n) b bs h =
    let got = take n (bytes_of b) in
    elim (Bool-cases (ltb most (length got))) [
      | inl e ↦ absurd (ground (arith, e, h))
      | inr e ↦ elim (Bool-cases (eqb (length got) n)) [
        | inl f ↦
            let same : got ≡ bs = ground (arith, e, f, h) in
            subst (λ l. IsPrefix l (bytes_of b)) same (take-IsPrefix n (bytes_of b))
        | inr f ↦
            let same : bytes_of b ≡ bs = eof_bytes b bs (ground (arith, e, f, h)) in
            subst (λ l. IsPrefix l (bytes_of b)) same ([], append-nil (bytes_of b))
      ]
    ]

-- Two beginnings of one list that are equally long are equal.
prefix_unique : (xs ys a b : List ℕ) → xs ++ a ≡ ys ++ b → length xs ≡ length ys → xs ≡ ys
prefix_unique [] [] a b e h = refl
prefix_unique [] (y ∷ ys) a b e h = absurd (omega (arith, h))
prefix_unique (x ∷ xs) [] a b e h = absurd (omega (arith, h))
prefix_unique (x ∷ xs) (y ∷ ys) a b e h =
    let first : x ≡ y = ground (arith, e) in
    let others : xs ≡ ys = prefix_unique xs ys a b (ground (arith, e)) (omega (arith, h)) in
    rw (first, others) refl

-- The body is what the file has from some byte on.
abbrev pub Follows : List ℕ → ℕ → List ℕ → Type 0
Follows file n bytes =
    (pre : List ℕ) × (rest : List ℕ) × (length pre ≡ n) × (pre ++ (bytes ++ rest) ≡ file)

-- A chunk of the file for this video: its body is what the file has from the start of its range on.
abbrev pub IsChunk : String → List ℕ → Body × Request → Type 0
IsChunk id file (body, r) =
    (r.param "id" ≡ id)
    × (r.headers "Content-Range" ≢ "")
    × ((cr : ContentRange)
        → parse_content_range (r.headers "Content-Range") ≡ some cr
        → Follows file cr.start (bytes_of body))

extended :
    (file old bytes bs : List ℕ) (n : ℕ)
    → IsPrefix old file
    → length old ≡ n
    → Follows file n bytes
    → IsPrefix bs bytes
    → IsPrefix (old ++ bs) file
extended file old bytes bs n (r, e) k (pre, rest, m, f) (t, g) =
    let same : old ≡ pre = prefix_unique old pre r (bytes ++ rest) (e ∙ sym f) (k ∙ sym m) in
    (
      t ++ rest,
      append_assoc old bs (t ++ rest)
          ∙ ap (λ l. old ++ l) (sym (append_assoc bs t rest) ∙ ap (λ l. l ++ rest) g)
          ∙ ap (λ l. l ++ (bytes ++ rest)) same
          ∙ f,
    )

-- Requests with their bodies, one after another.
abbrev pub run : {W : Type 0} → Services W → Env → List (Body × Request) → W → W
unfolding upload
run sv env [] w = w
run sv env ((body, r) ∷ cs) w = run sv env cs (upload sv env body r w).1

module _ {W : Type 0} (sv : Services W) (id : String) (content : W → List ℕ) where
  -- What the object store promises of the video's object, whose bytes are `content`: a size that is
  -- known is that of the object, a read that succeeds gives all of it, and a write puts its bytes
  -- in place of the object, or it fails and leaves it.
  pub record IsStore : Type 0 where
    pub stat :
        (w : W)
        → (size_or_zero (sv.stat_object_info (raw_key id) w) ≡ 0)
          ⊎ (size_or_zero (sv.stat_object_info (raw_key id) w) ≡ length (content w))
    pub get : (w : W) (bs : List ℕ) → sv.get_object (raw_key id) w ≡ ok bs → content w ≡ bs
    pub put :
        (bs : List ℕ) (ct : String) (w : W)
        → (content (sv.put_object (raw_key id) bs ct w).1 ≡ bs)
          ⊎ (content (sv.put_object (raw_key id) bs ct w).1 ≡ content w)

  module _ (law : IsStore) (file : List ℕ) where
    abbrev Kept : W → Type 0
    Kept w = IsPrefix (content w) file

    put_reply-Kept :
        (reply : Reply) (q : Outcome (Unit {0}) × W) → Kept q.1 → Kept (put_reply reply q).1
    put_reply-Kept reply (fail e, w) h = h
    put_reply-Kept reply (ok t, w) h = h

    put-Kept :
        (bs : List ℕ) (ct : String) (w : W)
        → IsPrefix bs file
        → Kept w
        → Kept (sv.put_object (raw_key id) bs ct w).1
    put-Kept bs ct w p h = elim (law.put bs ct w) [ inl e ↦ rw e p | inr e ↦ rw e h ]

    put_appended-Kept :
        (ct : String) (total : Option ℕ) (bs : List ℕ) (o : Outcome (List ℕ)) (w : W)
        → ((old : List ℕ) → o ≡ ok old → IsPrefix (old ++ bs) file)
        → Kept w
        → Kept (put_appended sv (raw_key id) ct total bs o w).1
    put_appended-Kept ct total bs (fail e) w p h = h
    put_appended-Kept ct total bs (ok old) w p h =
        put_reply-Kept _ (sv.put_object (raw_key id) (old ++ bs) ct w)
          (put-Kept (old ++ bs) ct w (p old refl) h)

    -- What the chunk is put behind.
    stored-IsPrefix :
        (n : ℕ) (old : List ℕ) (w : W)
        → size_or_zero (sv.stat_object_info (raw_key id) w) ≡ n
        → Kept w
        → (if eqb n 0 then ok [] else sv.get_object (raw_key id) w) ≡ ok old
        → IsPrefix old file × (length old ≡ n)
    stored-IsPrefix n old w s h e = elim (Bool-cases (eqb n 0)) [
      | inl z ↦
          let start : [] ≡ old = ground (arith, z, rw z at e) in
          (
            subst (λ l. IsPrefix l file) start (file, refl),
            sym (ap length start) ∙ ground (arith, z),
          )
      | inr z ↦
          let read : content w ≡ old = law.get w old (rw z at e) in
          (
            subst (λ l. IsPrefix l file) read h,
            elim (law.stat w) [
              | inl none_known ↦ absurd (ground (arith, z, s, none_known))
              | inr known ↦ sym (ap length read) ∙ sym known ∙ s
            ],
          )
    ]

    with_chunk-Kept :
        (ct : String) (cr : ContentRange) (n : ℕ) (read : Read) (bytes : List ℕ) (w : W)
        → size_or_zero (sv.stat_object_info (raw_key id) w) ≡ n
        → Follows file n bytes
        → ((bs : List ℕ) → read ≡ chunk bs → IsPrefix bs bytes)
        → Kept w
        → Kept (with_chunk sv (raw_key id) ct cr n read w).1
    with_chunk-Kept ct cr n too_large bytes w s f p h = h
    with_chunk-Kept ct cr n failed bytes w s f p h = h
    with_chunk-Kept ct cr n (chunk bs) bytes w s f p h =
        elim (Bool-cases (is_size (int64 (cr.end - cr.start + 1)) (length bs))) [
          | inr e ↦ rw e h
          | inl e ↦ rw e (
              put_appended-Kept ct cr.total bs _ w
                (λ old q.
                  let (begins, size) = stored-IsPrefix n old w s h q in
                  extended file old bytes bs n begins size f (p bs refl))
                h)
        ]

    upload_range-Kept :
        (most : ℕ) (r : Request) (body : Body) (cr : ContentRange) (n : ℕ) (w : W)
        → r.param "id" ≡ id
        → size_or_zero (sv.stat_object_info (raw_key id) w) ≡ n
        → Follows file cr.start (bytes_of body)
        → Kept w
        → Kept (upload_range sv most r body cr n w).1
    unfolding upload_range
    upload_range-Kept most r body cr n w i s f h = elim (Bool-cases (eqb cr.start n)) [
      | inr e ↦ rw e h
      | inl e ↦ elim (Bool-cases (exceeds (int64 (n + (cr.end - cr.start + 1))) most)) [
        | inl x ↦ rw (e, x) h
        | inr x ↦
            rw (e, x, i)
              (with_chunk-Kept (stored_as r) cr n _ (bytes_of body) w s
                (subst (λ k. Follows file k (bytes_of body)) (ground (arith, e)) f)
                (λ bs q. read-IsPrefix most (int64 (cr.end - cr.start + 1 + 1)) body bs q) h)
      ]
    ]

    upload_ranged-Kept :
        (most : ℕ) (r : Request) (body : Body) (o : Option ContentRange) (w : W)
        → r.param "id" ≡ id
        → ((cr : ContentRange) → o ≡ some cr → Follows file cr.start (bytes_of body))
        → Kept w
        → Kept (upload_ranged sv most r body o w).1
    unfolding upload_ranged
    upload_ranged-Kept most r body none w i f h = h
    upload_ranged-Kept most r body (some cr) w i f h = elim (Bool-cases (ltb cr.end cr.start)) [
      | inl e ↦ rw e h
      | inr e ↦ rw e (upload_range-Kept most r body cr _ w i (rw i refl) (f cr refl) h)
    ]

    guarded_by-Kept :
        (o : Option Reply) (w : W) (rest : Reply × W)
        → Kept w
        → Kept rest.1
        → Kept (guarded_by o w rest).1
    guarded_by-Kept none w rest h k = k
    guarded_by-Kept (some reply) w rest h k = h

    guarded-Kept :
        (v user : String) (w : W) (rest : Reply × W)
        → Kept w
        → Kept rest.1
        → Kept (guarded sv v user w rest).1
    unfolding guarded
    guarded-Kept v user w rest h k = elim (Bool-cases (v == "")) [
      | inl e ↦ rw e h
      | inr e ↦ rw e (guarded_by-Kept (require_ownership (sv.get_video_owner v w) user) w rest h k)
    ]

    upload-Kept :
        (env : Env) (body : Body) (r : Request) (w : W)
        → IsChunk id file (body, r)
        → Kept w
        → Kept (upload sv env body r w).1
    unfolding upload
    upload-Kept env body r w (i, n, f) h = guarded-Kept (r.param "id") r.user w _ h (
        let e : (r.headers "Content-Range" == "") ≡ false =
          ground (arith, n, eq_iff (r.headers "Content-Range") "") in
        rw e (
          upload_ranged-Kept (max_bytes env) r body
            (parse_content_range (r.headers "Content-Range")) w i f h))

    run-Kept :
        (env : Env) (cs : List (Body × Request)) (w : W)
        → All (IsChunk id file) cs
        → Kept w
        → Kept (run sv env cs w)
    unfolding run
    run-Kept env [] w c h = h
    run-Kept env ((body, r) ∷ cs) w (c, d) h =
        run-Kept env cs (upload sv env body r w).1 d (upload-Kept env body r w c h)

    -- After any chunks of a file, in any order, with any repetitions and failures, the object is a
    -- beginning of the file, and it is the file if it is as long; the object was a beginning of the
    -- file before, an empty one say. The conditions are what the object store promises, and that
    -- every body is what the file has from the start of its range on.
    pub run-IsPrefix :
        (env : Env) (cs : List (Body × Request)) (w : W)
        → All (IsChunk id file) cs
        → IsPrefix (content w) file
        → IsPrefix (content (run sv env cs w)) file
          × (length (content (run sv env cs w)) ≡ length file → content (run sv env cs w) ≡ file)
    run-IsPrefix env cs w c h =
        let (rest, e) = run-Kept env cs w c h in
        (
          (rest, e),
          λ k. prefix_unique (content (run sv env cs w)) file rest [] (e ∙ sym (append-nil file)) k,
        )
