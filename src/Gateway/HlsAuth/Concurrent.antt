-- ===== src/Gateway/HlsAuth/Concurrent.antt =====
-- Requests that share the guard's cache. `getMeta` holds the lock in `get` and in `put` alone, so
-- the steps of several requests interleave: the look into the cache, the answer of the metadata
-- service, the write to the cache.
use mathlib.Core.Path.{subst}
use flowix.Common.{
  sym, Option-cases, ℕ, ◌≤◌, ◌≡◌, ◌⊎◌, inl, inr, refl, ap, String, none, some, List, [], ◌∷◌, ◌++◌,
  All, All-map, Bool-cases, eqb, ◌||◌,
}
use flowix.Gateway.MetaCache.{Entry, MetaCache, new_meta_cache, get}
use flowix.Gateway.MetaCache.Entries.{get-All, put-All, get-entry}
use flowix.Gateway.MetaCache.Lookup.{get-eq-some}
use flowix.Gateway.MetaCache.Invariant.{IsValid, new_meta_cache-IsValid, get-IsValid}
use flowix.Gateway.HlsToken.{Fetched, found, status_error, failed}
use flowix.Gateway.HlsAuth.{of_entry, remember, get_meta}
use flowix.Gateway.HlsAuth.Caching.{remember-IsValid, get_meta_of_miss, get_meta_of_hit}

-- The cache, the ids that requests wait for an answer to, the answers that are not yet written, and
-- all answers that the metadata service has given, latest first.
pub record Shared : Type 0 where
  pub cache : MetaCache
  pub waiting : List String
  pub answered : List (String × Fetched)
  pub said : List (String × Fetched)

-- A step of one of the requests, at any time and in any order.
pub data Step : Shared → Shared → Type 0 where
  -- The cache has an entry: the request is done.
  hit :
      {s : Shared} (now : ℕ) (id : String) (e : Entry)
      → (get now id s.cache).0 ≡ some e
      → Step s (record s { cache = (get now id s.cache).1 })
  -- The cache has none: the metadata service is asked.
  miss :
      {s : Shared} (now : ℕ) (id : String)
      → (get now id s.cache).0 ≡ none
      → Step s (record s { cache = (get now id s.cache).1; waiting = id ∷ s.waiting })
  -- The metadata service answers one of the requests that wait.
  answer :
      {s : Shared} (before after : List String) (id : String) (f : Fetched)
      → s.waiting ≡ before ++ id ∷ after
      → Step s (record s {
        waiting = before ++ after;
        answered = (id, f) ∷ s.answered;
        said = (id, f) ∷ s.said;
      })
  -- An answer is written, if it is one that is kept: the request is done.
  store :
      {s : Shared} (now : ℕ) (before after : List (String × Fetched)) (id : String) (f : Fetched)
      → s.answered ≡ before ++ (id, f) ∷ after
      → Step s (record s { cache = remember now id s.cache f; answered = before ++ after })

-- What the steps lead to from an empty cache.
pub data Reachable (max ttl neg_ttl : ℕ) : Shared → Type 0 where
  start :
      Reachable max ttl neg_ttl
        (record { cache = new_meta_cache max ttl neg_ttl; waiting = []; answered = []; said = [] })
  step : {s t : Shared} → Reachable max ttl neg_ttl s → Step s t → Reachable max ttl neg_ttl t

-- The metadata service has given this answer for the id.
abbrev pub Said : String → Fetched → List (String × Fetched) → Type 0
Said id f [] = ⊥
Said id f (p ∷ ps) = ((p.0 ≡ id) × (p.1 ≡ f)) ⊎ Said id f ps

abbrev Backed : List (String × Fetched) → Entry → Type 0
Backed said e = Said e.key (of_entry e e.meta) said

abbrev Given : List (String × Fetched) → String × Fetched → Type 0
Given said p = Said p.0 p.1 said

-- The cache is valid, and all that it holds and all that is to be written was said.
pub record Honest (s : Shared) : Type 0 where
  pub valid : IsValid s.cache
  pub backed : All (Backed s.said) s.cache.lru
  pub given : All (Given s.said) s.answered

remember-All :
    (now : ℕ) (id : String) (c : MetaCache) (said : List (String × Fetched)) (f : Fetched)
    → Said id f said
    → All (Backed said) c.lru
    → All (Backed said) (remember now id c f).lru
unfolding remember of_entry
remember-All now id c said (found meta) p h = put-All (Backed said) now id (some meta) 0 c p h
remember-All now id c said (status_error code) p h =
    elim (Bool-cases (eqb code 404 || eqb code 403)) [
      | inl kept ↦ rw kept (put-All (Backed said) now id none code c p h)
      | inr other ↦ rw other h
    ]
remember-All now id c said failed p h = h

module _ {ℓ κ} {A : Type ℓ} (P : A → Type κ) where
  All-without : (xs ys : List A) (x : A) → All P (xs ++ x ∷ ys) → P x × All P (xs ++ ys)
  All-without [] ys x (h, hs) = (h, hs)
  All-without (z ∷ xs) ys x (h, hs) = let (p, rest) = All-without xs ys x hs in (p, (h, rest))

-- Every step of a request keeps the state honest.
pub step-Honest : {s t : Shared} → Step s t → Honest s → Honest t
step-Honest {s} (hit now id e q) h = record {
  valid = get-IsValid now id s.cache h.valid;
  backed = get-All (Backed s.said) now id s.cache h.backed;
  given = h.given;
}
step-Honest {s} (miss now id q) h = record {
  valid = get-IsValid now id s.cache h.valid;
  backed = get-All (Backed s.said) now id s.cache h.backed;
  given = h.given;
}
step-Honest {s} (answer before after id f q) h = record {
  valid = h.valid;
  backed = All-map (λ e p. inr p) s.cache.lru h.backed;
  given = (inl (refl, refl), All-map (λ p k. inr k) s.answered h.given);
}
step-Honest {s} (store now before after id f q) h =
    let (p, rest) = All-without (Given s.said) before after (id, f) (rw q at h.given) in
    record {
      valid = remember-IsValid now id s.cache f h.valid;
      backed = remember-All now id s.cache s.said f p h.backed;
      given = rest;
    }

pub Reachable-Honest : {max ttl neg_ttl : ℕ} (s : Shared) → Reachable max ttl neg_ttl s → Honest s
Reachable-Honest {max} {ttl} {neg_ttl} _ start = record {
  valid = new_meta_cache-IsValid max ttl neg_ttl;
  backed = tt;
  given = tt;
}
Reachable-Honest _ (step {s} r m) = step-Honest m (Reachable-Honest s r)

-- Whatever requests ran before, and however their steps came between one another: the cache is
-- valid, and an entry that it gives out for an id is not past its time and holds an answer that the
-- metadata service has given for that id.
pub get-Said :
    {max ttl neg_ttl : ℕ} (s : Shared) (now : ℕ) (id : String) (e : Entry)
    → Reachable max ttl neg_ttl s
    → (get now id s.cache).0 ≡ some e
    → IsValid s.cache × (now ≤ e.expires) × Said id (of_entry e e.meta) s.said
get-Said s now id e r q =
    let h = Reachable-Honest s r in
    let (key, in_time) = get-eq-some now id s.cache e h.valid q in
    (
      h.valid,
      in_time,
      subst (λ k. Said k (of_entry e e.meta) s.said) key
          (get-entry (Backed s.said) now id s.cache e h.backed q),
    )

-- A request that no other comes between takes its steps one after the other, and leaves the cache
-- that `get_meta` leaves.
pub get_meta-Reachable :
    {max ttl neg_ttl : ℕ} (s : Shared) (now : ℕ) (fetch : String → Fetched) (id : String)
    → Reachable max ttl neg_ttl s
    → (t : Shared) × Reachable max ttl neg_ttl t × (t.cache ≡ (get_meta now fetch id s.cache).1)
get_meta-Reachable {max} {ttl} {neg_ttl} s now fetch id r =
    elim (Option-cases (get now id s.cache).0) [
      | inl missed ↦ (
        _,
        step (step (step r (miss now id missed)) (answer [] s.waiting id (fetch id) refl))
            (store now [] s.answered id (fetch id) refl),
        sym (ap (λ p. p.1) (get_meta_of_miss now fetch id s.cache missed)),
      )
      | inr (e, there) ↦
          (_, step r (hit now id e there), sym (get_meta_of_hit now fetch id s.cache e there))
    ]
