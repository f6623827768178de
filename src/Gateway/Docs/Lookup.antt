-- ===== src/Gateway/Docs/Lookup.antt =====
-- What the merged document has under a key.
use mathlib.Core.Option
use flowix.Common.{
  ◌≡◌, ◌≢◌, refl, sym, ap, ◌∙◌, String, true, false, ◌==◌, Option, none, some, arith, eq_iff,
  if◌then◌else◌, Bool-cases, String-cases, inl, inr,
}
use flowix.Gateway.Docs.{
  merge_components, merge_definitions, with_doc, Documents, merged_schemas, handle_merged,
}
use flowix.Gateway.Docs.Json.{
  Value, Fields, end, field, lookup, object_of, is_there, add, add_all, merge_option, member_of,
}
use flowix.Gateway.Docs.Rewrite.{rewrite_refs, rewrite_fields}

-- The first of two.
abbrev pub or_else : Option Value → Option Value → Option Value
or_else (some v) o = some v
or_else none o = o

-- A member of an object, if both are there.
abbrev pub found_in : String → Option Fields → Option Value
found_in k none = none
found_in k (some fs) = lookup k fs

or_else_assoc : (a b c : Option Value) → or_else (or_else a b) c ≡ or_else a (or_else b c)
or_else_assoc (some v) b c = refl
or_else_assoc none b c = refl

or_else-none : (a : Option Value) → or_else a none ≡ a
or_else-none (some v) = refl
or_else-none none = refl

or_else_of_there : (a b : Option Value) → is_there a ≡ true → or_else a b ≡ a
or_else_of_there (some v) b h = refl
or_else_of_there none b h = absurd (ground (arith, h))

or_else_of_absent : (a b : Option Value) → is_there a ≡ false → or_else a b ≡ b
or_else_of_absent (some v) b h = absurd (ground (arith, h))
or_else_of_absent none b h = refl

lookup-add :
    (k j : String) (v : Value) (dst : Fields)
    → lookup k (add j v dst) ≡ or_else (lookup k dst) (if j == k then some v else none)
unfolding add lookup
lookup-add k j v dst = elim (Bool-cases (is_there (lookup j dst))) [
  | inl h ↦ elim (String-cases j k) [
    | inl (p, t) ↦ rw (h, t) (sym (or_else_of_there (lookup k dst) _ (rw p at h)))
    | inr (p, t) ↦ rw (h, t) (sym (or_else-none (lookup k dst)))
  ]
  | inr h ↦ elim (String-cases j k) [
    | inl (p, t) ↦ rw (h, t) (sym (or_else_of_absent (lookup k dst) (some v) (rw p at h)))
    | inr (p, t) ↦ rw (h, t) (sym (or_else-none (lookup k dst)))
  ]
]

lookup-add_all :
    (k : String) (dst src : Fields)
    → lookup k (add_all dst src) ≡ or_else (lookup k dst) (lookup k src)
unfolding add_all lookup
lookup-add_all k dst end = sym (or_else-none (lookup k dst))
lookup-add_all k dst (field j v src) =
    lookup-add_all k (add j v dst) src
    ∙ ap (λ o. or_else o (lookup k src)) (lookup-add k j v dst)
    ∙ or_else_assoc (lookup k dst) _ (lookup k src)
    ∙ ap (or_else (lookup k dst))
        (elim (Bool-cases (j == k)) [ inl t ↦ rw t refl | inr t ↦ rw t refl ])

lookup-merge_option :
    (k : String) (dst : Fields) (o : Option Fields)
    → lookup k (merge_option dst o) ≡ or_else (lookup k dst) (found_in k o)
unfolding merge_option
lookup-merge_option k dst none = sym (or_else-none (lookup k dst))
lookup-merge_option k dst (some fs) = lookup-add_all k dst fs

-- What a document has as its schemas: OpenAPI 3 keeps them below "components", Swagger 2.0 as
-- definitions.
abbrev pub schemas_of : Option Fields → Option Fields
schemas_of d = member_of "schemas" (member_of "components" d)

abbrev pub definitions_of : Option Fields → Option Fields
definitions_of d = member_of "definitions" d

lookup-components :
    (k : String) (dst : Fields) (d : Option Fields)
    → lookup k (with_doc (merge_components "schemas") dst d)
      ≡ or_else (lookup k dst) (found_in k (schemas_of d))
unfolding merge_components
lookup-components k dst none = sym (or_else-none (lookup k dst))
lookup-components k dst (some src) = lookup-merge_option k dst (schemas_of (some src))

lookup-definitions :
    (k : String) (dst : Fields) (d : Option Fields)
    → lookup k (with_doc merge_definitions dst d)
      ≡ or_else (lookup k dst) (found_in k (definitions_of d))
unfolding merge_definitions
lookup-definitions k dst none = sym (or_else-none (lookup k dst))
lookup-definitions k dst (some src) = lookup-merge_option k dst (definitions_of (some src))

-- The schemas that come from the documents, without the rewriting.
merged_schemas-lookup :
    (k : String) (d : Documents)
    → lookup k (merged_schemas d)
      ≡ or_else
          (found_in k (schemas_of d.auth))
          (or_else (found_in k (definitions_of d.metadata)) (found_in k (definitions_of d.upload)))
unfolding merged_schemas lookup
merged_schemas-lookup k d =
    lookup-definitions k _ d.upload
    ∙ ap (λ o. or_else o (found_in k (definitions_of d.upload)))
        (lookup-definitions k _ d.metadata
          ∙ ap (λ o. or_else o (found_in k (definitions_of d.metadata)))
              (lookup-components k end d.auth))
    ∙ or_else_assoc (found_in k (schemas_of d.auth)) _ _

lookup-rewrite :
    (k : String) (fs : Fields)
    → k ≢ "$ref"
    → lookup k (rewrite_fields fs) ≡ Option.map rewrite_refs (lookup k fs)
unfolding lookup rewrite_fields
lookup-rewrite k end n = refl
lookup-rewrite k (field j v fs) n = elim (String-cases j k) [
  | inl (p, t) ↦
      let plain : (j == "$ref") ≡ false = ground (arith, p, n, eq_iff j "$ref") in
      rw (t, plain) refl
  | inr (p, t) ↦ rw t (lookup-rewrite k fs n)
]

-- A schema of the merged document, if it has one by that name.
abbrev pub merged_schema : String → Value → Option Value
merged_schema k v = found_in k (member_of "schemas" (member_of "components" (object_of (some v))))

-- The merged document has under a name, but for "$ref", the schema of the first document that has
-- one: of the auth service's schemas, then the metadata and then the upload service's definitions,
-- with its references rewritten. A document that could not be fetched has none.
pub handle_merged-schema :
    (description k : String) (d : Documents)
    → k ≢ "$ref"
    → merged_schema k (handle_merged description d)
      ≡ Option.map rewrite_refs (
          or_else (found_in k (schemas_of d.auth)) (
            or_else
              (found_in k (definitions_of d.metadata))
              (found_in k (definitions_of d.upload))))
unfolding handle_merged rewrite_refs
handle_merged-schema description k d n =
    lookup-rewrite k (merged_schemas d) n ∙ ap (Option.map rewrite_refs) (merged_schemas-lookup k d)
