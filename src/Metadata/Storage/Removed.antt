-- ===== src/Metadata/Storage/Removed.antt =====
-- What the removals leave in the object store.
use flowix.Common.{
  ◌≡◌, ◌≢◌, refl, String, Bool, true, false, ◌||◌, List, [], ◌∷◌, ◌==◌, eq_iff, arith, Bool-cases,
  String-cases, inl, inr,
}
use flowix.Common.Keys.{member}
use flowix.Common.Text.{has_prefix}
use flowix.Common.Outcome.{Outcome, ok, fail}
use flowix.Metadata.Storage.{Minio, MinioClient, remove_keys, remove_listed, remove_under}

-- Whether a listing has the key.
abbrev pub listed : String → List (Outcome String) → Bool
listed k [] = false
listed k (ok j ∷ items) = j == k || listed k items
listed k (fail e ∷ items) = listed k items

-- What the store promises of the objects in a bucket, which `holds` tells: a removal takes no other
-- object away and brings none back; without an error the object is gone; a listing has no key that
-- does not begin with the prefix.
pub record IsStore {C W : Type 0} (lib : Minio C W) (m : MinioClient C) (holds : String → W → Bool)
    : Type 0 where
  pub others :
      (j k : String) (w : W)
      → j ≢ k
      → holds j (lib.remove_object m.client m.bucket k w).1 ≡ holds j w
  pub gone :
      (k : String) (w : W)
      → (lib.remove_object m.client m.bucket k w).0 ≡ false
      → holds k (lib.remove_object m.client m.bucket k w).1 ≡ false
  pub stays_gone :
      (k : String) (w : W)
      → holds k w ≡ false
      → holds k (lib.remove_object m.client m.bucket k w).1 ≡ false
  pub listed_prefix :
      (k p : String) (w : W)
      → has_prefix k p ≡ false
      → listed k (lib.list_objects m.client m.bucket p w) ≡ false

-- No call fails, and a listing has every object whose key begins with the prefix.
pub record Answers {C W : Type 0} (lib : Minio C W) (m : MinioClient C) (holds : String → W → Bool)
    : Type 0 where
  pub removes : (k : String) (w : W) → (lib.remove_object m.client m.bucket k w).0 ≡ false
  pub lists :
      (k p : String) (w : W)
      → has_prefix k p ≡ true
      → holds k w ≡ true
      → listed k (lib.list_objects m.client m.bucket p w) ≡ true

module _ {C W : Type 0} (lib : Minio C W) (m : MinioClient C) (holds : String → W → Bool)
    (st : IsStore lib m holds) where
  -- An object that is in no list of keys stays, whatever fails.
  pub remove_keys-others :
      (j : String) (ks : List String) (w : W)
      → member j ks ≡ false
      → holds j (remove_keys lib m ks w) ≡ holds j w
  unfolding remove_keys member
  remove_keys-others j [] w h = refl
  remove_keys-others j (k ∷ ks) w h = elim (String-cases k "") [
    | inl (e, t) ↦ rw t (remove_keys-others j ks w (ground (arith, h)))
    | inr (n, t) ↦
        rw
          (
            t,
            remove_keys-others j ks (lib.remove_object m.client m.bucket k w).1 (ground (arith, h)),
          )
          (st.others j k w (λ e. ground (arith, h, e, eq_iff k j)))
  ]

  remove_listed-others :
      (j : String) (items : List (Outcome String)) (w : W)
      → listed j items ≡ false
      → holds j (remove_listed lib m items w) ≡ holds j w
  unfolding remove_listed
  remove_listed-others j [] w h = refl
  remove_listed-others j (fail e ∷ items) w h = remove_listed-others j items w h
  remove_listed-others j (ok k ∷ items) w h =
      rw
        (remove_listed-others j items (lib.remove_object m.client m.bucket k w).1
          (ground (arith, h)))
        (st.others j k w (λ e. ground (arith, h, e, eq_iff k j)))

  -- An object whose key does not begin with the prefix stays, whatever fails.
  pub remove_under-others :
      (j p : String) (w : W) → has_prefix j p ≡ false → holds j (remove_under lib m p w) ≡ holds j w
  unfolding remove_under
  remove_under-others j p w h =
      remove_listed-others j (lib.list_objects m.client m.bucket p w) w (st.listed_prefix j p w h)

  remove_once :
      (j k : String) (w : W)
      → holds j w ≡ false
      → holds j (lib.remove_object m.client m.bucket k w).1 ≡ false
  remove_once j k w h = elim (String-cases j k) [
    | inl (e, t) ↦ rw e (st.stays_gone k w (rw e at h))
    | inr (n, t) ↦ rw (st.others j k w n) h
  ]

  -- An object that is not there does not come back.
  pub remove_keys_absent :
      (j : String) (ks : List String) (w : W)
      → holds j w ≡ false
      → holds j (remove_keys lib m ks w) ≡ false
  unfolding remove_keys
  remove_keys_absent j [] w h = h
  remove_keys_absent j (k ∷ ks) w h = elim (Bool-cases (k == "")) [
    | inl t ↦ rw t (remove_keys_absent j ks w h)
    | inr t ↦ rw t (remove_keys_absent j ks _ (remove_once j k w h))
  ]

  remove_listed_absent :
      (j : String) (items : List (Outcome String)) (w : W)
      → holds j w ≡ false
      → holds j (remove_listed lib m items w) ≡ false
  unfolding remove_listed
  remove_listed_absent j [] w h = h
  remove_listed_absent j (fail e ∷ items) w h = remove_listed_absent j items w h
  remove_listed_absent j (ok k ∷ items) w h = remove_listed_absent j items _ (remove_once j k w h)

  pub remove_under_absent :
      (j p : String) (w : W) → holds j w ≡ false → holds j (remove_under lib m p w) ≡ false
  unfolding remove_under
  remove_under_absent j p w h = remove_listed_absent j (lib.list_objects m.client m.bucket p w) w h

  module _ (up : Answers lib m holds) where
    remove_listed-gone :
        (j : String) (items : List (Outcome String)) (w : W)
        → listed j items ≡ true
        → holds j (remove_listed lib m items w) ≡ false
    unfolding remove_listed
    remove_listed-gone j [] w h = cc
    remove_listed-gone j (fail e ∷ items) w h = remove_listed-gone j items w h
    remove_listed-gone j (ok k ∷ items) w h = elim (String-cases k j) [
      | inl (e, t) ↦ remove_listed_absent j items _ (rw e (st.gone j w (up.removes j w)))
      | inr (n, t) ↦ remove_listed-gone j items _ (ground (arith, h, t))
    ]

    -- If the store answers, nothing under the prefix is left.
    pub remove_under-gone :
        (j p : String) (w : W) → has_prefix j p ≡ true → holds j (remove_under lib m p w) ≡ false
    unfolding remove_under
    remove_under-gone j p w h = elim (Bool-cases (holds j w)) [
      | inl here ↦
          remove_listed-gone j (lib.list_objects m.client m.bucket p w) w (up.lists j p w h here)
      | inr away ↦ remove_listed_absent j (lib.list_objects m.client m.bucket p w) w away
    ]

    -- If the store answers, none of the keys is left.
    pub remove_keys-gone :
        (j : String) (ks : List String) (w : W)
        → j ≢ ""
        → member j ks ≡ true
        → holds j (remove_keys lib m ks w) ≡ false
    unfolding remove_keys member
    remove_keys-gone j [] w n h = cc
    remove_keys-gone j (k ∷ ks) w n h = elim (String-cases k "") [
      | inl (e, t) ↦ rw t (remove_keys-gone j ks w n (ground (arith, h, e, n, eq_iff k j)))
      | inr (q, t) ↦ rw t (elim (String-cases k j) [
        | inl (e, u) ↦ remove_keys_absent j ks _ (rw e (st.gone j w (up.removes j w)))
        | inr (o, u) ↦ remove_keys-gone j ks _ n (ground (arith, h, u))
      ])
    ]
