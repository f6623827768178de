-- ===== src/Gateway/Docs/Refs.antt =====
-- What the rewriting does to the references of a document.
use text.Mathlib.TextLemmas.{cons-append}
use Prim.Native.String.{◌∷◌}
use flowix.Common.{
  ◌≡◌, ◌≢◌, refl, ap, ◌∙◌, String, ◌<>◌, true, false, ◌==◌, arith, eq_iff, Bool-cases, inl, inr,
}
use flowix.Common.Text.{has_prefix, trim_prefix}
use flowix.Gateway.Docs.Json.{
  Value, null, bool, number, string, array, object, Items, nil, item, Fields, end, field,
}
use flowix.Gateway.Docs.Rewrite.{moved, moved_value, rewrite_refs, rewrite_items, rewrite_fields}

-- The text stands under a key "$ref" of the value, which may lie inside others that are not under
-- such a key.
mutual
  pub data Points (s : String) : Value → Type 0 where
    in_array : {xs : Items} → PointsItems s xs → Points s (array xs)
    in_object : {fs : Fields} → PointsFields s fs → Points s (object fs)

  pub data PointsItems (s : String) : Items → Type 0 where
    first : {v : Value} {xs : Items} → Points s v → PointsItems s (item v xs)
    later : {v : Value} {xs : Items} → PointsItems s xs → PointsItems s (item v xs)

  pub data PointsFields (s : String) : Fields → Type 0 where
    here :
        {k : String} {v : Value} {fs : Fields}
        → k ≡ "$ref"
        → v ≡ string s
        → PointsFields s (field k v fs)
    inside :
        {k : String} {v : Value} {fs : Fields}
        → k ≢ "$ref"
        → Points s v
        → PointsFields s (field k v fs)
    after :
        {k : String} {v : Value} {fs : Fields} → PointsFields s fs → PointsFields s (field k v fs)

-- The text is what the rewriting makes of a reference of the value.
abbrev Comes : String → Value → Type 0
Comes s v = (t : String) × Points t v × (s ≡ moved t)

moved_text :
    (v : Value) (s : String)
    → moved_value v ≡ string s
    → (t : String) × (v ≡ string t) × (s ≡ moved t)
unfolding moved_value
moved_text (string t) s e = (t, refl, ground (arith, e))
moved_text null s e = absurd (ground (arith, e))
moved_text (bool b) s e = absurd (ground (arith, e))
moved_text (number n) s e = absurd (ground (arith, e))
moved_text (array xs) s e = absurd (ground (arith, e))
moved_text (object fs) s e = absurd (ground (arith, e))

mutual
  unfolding rewrite_refs

  source_of :
      (v : Value) (s : String)
      → Points s (rewrite_refs v)
      → (t : String) × Points t v × (s ≡ moved t)
  source_of null s p = elim p [ ]
  source_of (bool b) s p = elim p [ ]
  source_of (number n) s p = elim p [ ]
  source_of (string u) s p = elim p [ ]
  source_of (array xs) s (in_array p) = let (t, q, e) = source_of_items xs s p in (t, in_array q, e)
  source_of (object fs) s (in_object p) =
      let (t, q, e) = source_of_fields fs s p in (t, in_object q, e)

  source_of_items :
      (xs : Items) (s : String)
      → PointsItems s (rewrite_items xs)
      → (t : String) × PointsItems t xs × (s ≡ moved t)
  source_of_items nil s p = elim p [ ]
  source_of_items (item v xs) s (first p) = let (t, q, e) = source_of v s p in (t, first q, e)
  source_of_items (item v xs) s (later p) =
      let (t, q, e) = source_of_items xs s p in (t, later q, e)

  source_of_fields :
      (fs : Fields) (s : String)
      → PointsFields s (rewrite_fields fs)
      → (t : String) × PointsFields t fs × (s ≡ moved t)
  source_of_fields end s p = elim p [ ]
  source_of_fields (field k v fs) s (after p) =
      let (t, q, e) = source_of_fields fs s p in (t, after q, e)
  source_of_fields (field k v fs) s (here r e) =
      let under : (k == "$ref") ≡ true = ground (arith, r, eq_iff k "$ref") in
      let (t, q, f) = moved_text v s (rw under at e) in (t, here r q, f)
  source_of_fields (field k v fs) s (inside n p) =
      let other : (k == "$ref") ≡ false = ground (arith, n, eq_iff k "$ref") in
      let (t, q, e) = source_of v s (rw other at p) in (t, inside n q, e)

new_prefix : (t : String) → has_prefix ("#/components/schemas/" <> t) "#/definitions/" ≡ false
unfolding has_prefix
new_prefix t =
    let rest = "omponents/schemas/" <> t in
    let e : "#/components/schemas/" <> t ≡ "#" ∷ ("/" ∷ ("c" ∷ rest)) =
      cons-append "#" "/components/schemas/" t
      ∙ ap (λ u. "#" ∷ u)
          (cons-append "/" "components/schemas/" t
            ∙ ap (λ u. "/" ∷ u) (cons-append "c" "omponents/schemas/" t)) in
    rw e refl

moved-new : (s : String) → has_prefix (moved s) "#/definitions/" ≡ false
unfolding moved
moved-new s = elim (Bool-cases (has_prefix s "#/definitions/")) [
  | inl h ↦ rw h (new_prefix (trim_prefix s "#/definitions/"))
  | inr h ↦ rw h h
]

-- No reference of a rewritten document points to a definition of Swagger 2.0, and each is what a
-- reference of the document before points to, moved to where OpenAPI 3 keeps the schemas.
pub rewrite_refs-Points :
    (v : Value) (s : String)
    → Points s (rewrite_refs v)
    → (has_prefix s "#/definitions/" ≡ false) × ((t : String) × Points t v × (s ≡ moved t))
rewrite_refs-Points v s p = let (t, q, e) = source_of v s p in (rw e (moved-new t), (t, q, e))
