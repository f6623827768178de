-- ===== src/Common/Sort.antt =====
-- Insertion sort by a Boolean test: what `sort.Slice` and `ORDER BY` give, with equal elements in
-- the order in which they came.
use mathlib.Core.List.{Perm}
use mathlib.Core.List.Perm
use flowix.Common.{
  ◌≡◌, ◌∙◌, refl, ap, suc, length, Bool, true, false, List, [], ◌∷◌, All, if◌then◌else◌, Bool-cases,
  inl, inr,
}

module _ {ℓ} {A : Type ℓ} (before : A → A → Bool) where
  -- The new element goes in front of the first one that is not before it.
  insert_sorted : A → List A → List A
  insert_sorted a [] = a ∷ []
  insert_sorted a (x ∷ xs) = if before x a then x ∷ insert_sorted a xs else a ∷ x ∷ xs

  unfoldable pub sort : List A → List A
  unfolding insert_sorted
  sort [] = []
  sort (x ∷ xs) = insert_sorted x (sort xs)

  -- No element is before one that stands in front of it.
  abbrev pub IsSorted : List A → Type ℓ
  IsSorted [] = Unit
  IsSorted (x ∷ xs) = All (λ y. before y x ≡ false) xs × IsSorted xs

  insert_sorted-perm : (a : A) (xs : List A) → Perm (insert_sorted a xs) (a ∷ xs)
  unfolding insert_sorted
  insert_sorted-perm a [] = Perm.refl _
  insert_sorted-perm a (x ∷ xs) = elim (Bool-cases (before x a)) [
    | inl e ↦ rw e (Perm.trans (Perm.cons x (insert_sorted-perm a xs)) (Perm.swap a x xs))
    | inr e ↦ rw e (Perm.refl _)
  ]

  pub sort-perm : (xs : List A) → Perm (sort xs) xs
  unfolding sort
  sort-perm [] = Perm.refl _
  sort-perm (x ∷ xs) = Perm.trans (insert_sorted-perm x (sort xs)) (Perm.cons x (sort-perm xs))

  length-insert_sorted : (a : A) (xs : List A) → length (insert_sorted a xs) ≡ suc (length xs)
  unfolding insert_sorted
  length-insert_sorted a [] = refl
  length-insert_sorted a (x ∷ xs) = elim (Bool-cases (before x a)) [
    | inl e ↦ rw e (ap suc (length-insert_sorted a xs))
    | inr e ↦ rw e refl
  ]

  pub length-sort : (xs : List A) → length (sort xs) ≡ length xs
  unfolding sort
  length-sort [] = refl
  length-sort (x ∷ xs) = length-insert_sorted x (sort xs) ∙ ap suc (length-sort xs)

  pub All-sort {κ} : (P : A → Type κ) (xs : List A) → All P xs → All P (sort xs)
  unfolding sort
  All-sort P [] h = h
  All-sort P (x ∷ xs) (p, h) = All-insert_sorted (sort xs) p (All-sort P xs h)
    where
      All-insert_sorted : (ys : List A) → P x → All P ys → All P (insert_sorted x ys)
      All-insert_sorted [] q k = (q, k)
      All-insert_sorted (y ∷ ys) q k = elim (Bool-cases (before y x)) [
        | inl e ↦ rw e (k.0, All-insert_sorted ys q k.1)
        | inr e ↦ rw e (q, k)
      ]

  module _ (asym : (a b : A) → before a b ≡ true → before b a ≡ false)
      (trans : (a b c : A) → before b a ≡ false → before c b ≡ false → before c a ≡ false) where
    All-trans :
        (a b : A) (xs : List A)
        → before b a ≡ false
        → All (λ y. before y b ≡ false) xs
        → All (λ y. before y a ≡ false) xs
    All-trans a b [] h k = k
    All-trans a b (x ∷ xs) h (k, ks) = (trans a b x h k, All-trans a b xs h ks)

    All-insert :
        (y a : A) (xs : List A)
        → before a y ≡ false
        → All (λ x. before x y ≡ false) xs
        → All (λ x. before x y ≡ false) (insert_sorted a xs)
    unfolding insert_sorted
    All-insert y a [] h k = (h, k)
    All-insert y a (x ∷ xs) h (k, ks) = elim (Bool-cases (before x a)) [
      | inl e ↦ rw e (k, All-insert y a xs h ks)
      | inr e ↦ rw e (h, (k, ks))
    ]

    insert_sorted-IsSorted : (a : A) (xs : List A) → IsSorted xs → IsSorted (insert_sorted a xs)
    unfolding insert_sorted
    insert_sorted-IsSorted a [] h = (tt, tt)
    insert_sorted-IsSorted a (x ∷ xs) (h, hs) = elim (Bool-cases (before x a)) [
      | inl e ↦ rw e (All-insert x a xs (asym x a e) h, insert_sorted-IsSorted a xs hs)
      | inr e ↦ rw e ((e, All-trans a x xs e h), (h, hs))
    ]

    pub sort-IsSorted : (xs : List A) → IsSorted (sort xs)
    unfolding sort
    sort-IsSorted [] = tt
    sort-IsSorted (x ∷ xs) = insert_sorted-IsSorted x (sort xs) (sort-IsSorted xs)
