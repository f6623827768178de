-- ===== src/Common/Keys.antt =====
-- Sets of keys as lists of texts.
use flowix.Common.{
  suc, ◌≡◌, refl, ap, String, Bool, true, false, ◌||◌, List, [], ◌∷◌, ◌==◌, eq_iff, arith, length,
  if◌then◌else◌, String-cases, inl, inr,
}

-- Whether a map has the key.
unfoldable pub member : String → List String → Bool
member k [] = false
member k (j ∷ js) = j == k || member k js

-- `delete` of a key from a map.
unfoldable pub remove : String → List String → List String
remove k [] = []
remove k (j ∷ js) = let rest = remove k js in if j == k then rest else j ∷ rest

abbrev pub Nodup : List String → Type 0
Nodup [] = Unit
Nodup (j ∷ js) = (member j js ≡ false) × Nodup js

pub member-remove :
    (k j : String) (js : List String)
    → member k (remove j js) ≡ (if j == k then false else member k js)
unfolding member remove
member-remove k j [] = ground arith
member-remove k j (i ∷ js) =
    ground (arith, eq_iff i j, eq_iff i k, eq_iff j k, member-remove k j js)

pub remove_of_absent : (k : String) (js : List String) → member k js ≡ false → remove k js ≡ js
unfolding member remove
remove_of_absent k [] h = refl
remove_of_absent k (j ∷ js) h = ground (arith, remove_of_absent k js)

pub remove-Nodup : (k : String) (js : List String) → Nodup js → Nodup (remove k js)
unfolding remove
remove-Nodup k [] h = tt
remove-Nodup k (j ∷ js) h = ground (arith, remove-Nodup k js, member-remove j k js)

pub length-remove :
    (k : String) (js : List String)
    → Nodup js
    → member k js ≡ true
    → suc (length (remove k js)) ≡ length js
unfolding member remove
length-remove k [] d h = cc
length-remove k (j ∷ js) d h = elim (String-cases j k) [
  | inl (e, t) ↦ rw t (ap (λ l. suc (length l)) (remove_of_absent k js (rw e at d.0)))
  | inr (n, t) ↦ rw t (ap suc (length-remove k js d.1 (ground arith)))
]
