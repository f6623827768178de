-- ===== src/Gateway/HlsAuth/Caching.antt =====
-- When the guard asks the metadata service, and when it answers from its cache.
use flowix.Common.{
  ℕ, ◌+◌, ◌≤◌, ◌<◌, ◌≡◌, ◌≢◌, refl, String, Option, none, some, arith, inl, inr, ◌⊎◌,
}
use flowix.Gateway.MetaCache.{VideoMeta, Entry, MetaCache, get, put, fresh_entry}
use flowix.Gateway.MetaCache.Invariant.{IsValid, get-IsValid, put-IsValid}
use flowix.Gateway.MetaCache.Lookup.{get-put_self, get-limits}
use flowix.Gateway.HlsToken.{Fetched, found, status_error, failed}
use flowix.Gateway.HlsAuth.{of_entry, remember, get_meta_after, get_meta}

pub remember-IsValid :
    (now : ℕ) (id : String) (c : MetaCache) (f : Fetched)
    → IsValid c
    → IsValid (remember now id c f)
unfolding remember
remember-IsValid now id c (found meta) v = put-IsValid now id (some meta) 0 c v
remember-IsValid now id c (status_error code) v = ground (arith, put-IsValid now id none code c v)
remember-IsValid now id c failed v = v

-- A lookup keeps the cache valid, whatever the metadata service answers.
pub get_meta-IsValid :
    (now : ℕ) (fetch : String → Fetched) (id : String) (c : MetaCache)
    → IsValid c
    → IsValid (get_meta now fetch id c).1
unfolding get_meta_after
get_meta-IsValid now fetch id c v = unfold get_meta in go (get now id c) (get-IsValid now id c v)
  where
    go : (s : Option Entry × MetaCache) → IsValid s.1 → IsValid (get_meta_after now id fetch s).1
    go (none, d) h = remember-IsValid now id d (fetch id) h
    go (some e, d) h = h

module _ (now : ℕ) (fetch : String → Fetched) (id : String) (c : MetaCache) where
  -- What a cache miss leaves behind.
  pub get_meta_of_miss :
      (get now id c).0 ≡ none
      → get_meta now fetch id c ≡ (fetch id, remember now id (get now id c).1 (fetch id))
  get_meta_of_miss miss = unfold get_meta in go (get now id c) miss
    where
      go :
          (s : Option Entry × MetaCache)
          → s.0 ≡ none
          → get_meta_after now id fetch s ≡ (fetch id, remember now id s.1 (fetch id))
      go (none, d) e = unfold get_meta_after in refl
      go (some e, d) q = cc

  -- A hit leaves what the look into the cache leaves.
  pub get_meta_of_hit :
      (e : Entry) → (get now id c).0 ≡ some e → (get_meta now fetch id c).1 ≡ (get now id c).1
  get_meta_of_hit e hit = unfold get_meta in go (get now id c) hit
    where
      go : (s : Option Entry × MetaCache) → s.0 ≡ some e → (get_meta_after now id fetch s).1 ≡ s.1
      go (none, d) q = cc
      go (some x, d) q = unfold get_meta_after in refl

module _ (now : ℕ) (fetch : String → Fetched) (id : String) (c : MetaCache) (v : IsValid c) where
  hit_of :
      (later : ℕ) (fetch' : String → Fetched) (d : MetaCache) (e : Entry)
      → (get later id d).0 ≡ some e
      → (get_meta later fetch' id d).0 ≡ of_entry e e.meta
  hit_of later fetch' d e hit = unfold get_meta in go (get later id d) hit
    where
      go :
          (s : Option Entry × MetaCache)
          → s.0 ≡ some e
          → (get_meta_after later id fetch' s).0 ≡ of_entry e e.meta
      go (none, x) q = cc
      go (some x, y) q = unfold get_meta_after in ground arith

  cached_after_put :
      (later : ℕ) (fetch' : String → Fetched) (meta : Option VideoMeta) (err_status : ℕ)
      → 0 < c.max
      → later ≤ (fresh_entry now id meta err_status (get now id c).1).expires
      → (get_meta later fetch' id (put now id meta err_status (get now id c).1)).0
        ≡ of_entry (fresh_entry now id meta err_status (get now id c).1) meta
  cached_after_put later fetch' meta err_status pos in_time =
      hit_of later fetch' (put now id meta err_status (get now id c).1) _ (
        get-put_self now id meta err_status (get now id c).1 (get-IsValid now id c v) later
          (omega (arith, get-limits now id c)) in_time)

  -- After a miss, what the metadata service answered is what every lookup of the id gets within the
  -- time to live, whatever the service would say by then: a video for `ttl`, a 404 or 403 for
  -- `neg_ttl`. Any other error is not kept: the cache is what the miss left.
  pub get_meta_cached :
      (later : ℕ) (fetch' : String → Fetched)
      → 0 < c.max
      → (get now id c).0 ≡ none
      → ((meta : VideoMeta)
          → fetch id ≡ found meta
          → later ≤ now + c.ttl
          → (get_meta later fetch' id (get_meta now fetch id c).1).0 ≡ found meta)
        × ((code : ℕ)
            → fetch id ≡ status_error code
            → (code ≡ 404) ⊎ (code ≡ 403)
            → later ≤ now + c.neg_ttl
            → (get_meta later fetch' id (get_meta now fetch id c).1).0 ≡ status_error code)
        × ((fetch id ≡ failed)
              ⊎ ((code : ℕ) × (fetch id ≡ status_error code) × (code ≢ 404) × (code ≢ 403))
            → (get_meta now fetch id c).1 ≡ (get now id c).1)
  unfolding remember of_entry
  get_meta_cached later fetch' pos miss = (
    λ meta answer in_time.
        rw (get_meta_of_miss now fetch id c miss, answer)
          (cached_after_put later fetch' (some meta) 0 pos
            (omega (arith, in_time, get-limits now id c))),
    λ code answer negative in_time. elim negative [
      | inl e ↦
          rw (get_meta_of_miss now fetch id c miss, answer, e)
            (cached_after_put later fetch' none 404 pos
              (omega (arith, in_time, get-limits now id c)))
      | inr e ↦
          rw (get_meta_of_miss now fetch id c miss, answer, e)
            (cached_after_put later fetch' none 403 pos
              (omega (arith, in_time, get-limits now id c)))
    ],
    λ other. elim other [
      | inl e ↦ rw (get_meta_of_miss now fetch id c miss, e) refl
      | inr (code, e, n, m) ↦ rw (get_meta_of_miss now fetch id c miss, e) (ground arith)
    ],
  )

  -- After a miss, the video that the metadata service answered is what every lookup of the id gets
  -- while `ttl` has not passed, whatever the service would answer by then. The cache is valid and
  -- can hold an entry.
  pub get_meta_of_video :
      (later : ℕ) (fetch' : String → Fetched) (meta : VideoMeta)
      → 0 < c.max
      → (get now id c).0 ≡ none
      → fetch id ≡ found meta
      → later ≤ now + c.ttl
      → (get_meta later fetch' id (get_meta now fetch id c).1).0 ≡ found meta
  get_meta_of_video later fetch' meta room miss = (get_meta_cached later fetch' room miss).0 meta

  -- After a miss, an answer 404 or 403 is what every lookup of the id gets while `neg_ttl` has not
  -- passed. The cache is valid and can hold an entry.
  pub get_meta_of_refusal :
      (later : ℕ) (fetch' : String → Fetched) (code : ℕ)
      → 0 < c.max
      → (get now id c).0 ≡ none
      → fetch id ≡ status_error code
      → (code ≡ 404) ⊎ (code ≡ 403)
      → later ≤ now + c.neg_ttl
      → (get_meta later fetch' id (get_meta now fetch id c).1).0 ≡ status_error code
  get_meta_of_refusal later fetch' code room miss =
      let (a, b, c) = get_meta_cached later fetch' room miss in b code
