-- ===== src/Gateway/Docs/Tests.antt =====
-- The merge of two small documents: the metadata service's, whose one path refers to its one
-- definition, and none of the auth service, which could not be fetched.
use mathlib.Core.Option
use flowix.Common.{◌≡◌, refl, differ, String, false, none, some}
use flowix.Common.Text.{has_prefix, trim_prefix}
use flowix.Gateway.Docs.{Documents, handle_merged, merge_paths}
use flowix.Gateway.Docs.Json.{Value, string, object, Fields, end, field, lookup, add, add_all}
use flowix.Gateway.Docs.Rewrite.{moved, rewrite_refs}
use flowix.Gateway.Docs.Refs.{Points, in_object, here, inside, rewrite_refs-Points}
use flowix.Gateway.Docs.Lookup.{
  or_else, found_in, schemas_of, definitions_of, merged_schema, handle_merged-schema,
}

abbrev list_path : Value
list_path = object (field "schema" (object (field "$ref" (string "#/definitions/Video") end)) end)

rewrite_refs-Points_example :
    (has_prefix "#/components/schemas/Video" "#/definitions/" ≡ false)
    × ((t : String) × Points t list_path × ("#/components/schemas/Video" ≡ moved t))
unfolding rewrite_refs moved has_prefix trim_prefix
rewrite_refs-Points_example =
    rewrite_refs-Points list_path "#/components/schemas/Video"
      (in_object (inside (differ "schema" "$ref" refl) (in_object (here refl refl))))

abbrev metadata_doc : Fields
metadata_doc = field "paths" (object (field "/videos" list_path end)) (
    field "definitions" (object (field "Video" (object (field "type" (string "object") end)) end))
      end)

abbrev documents : Documents
documents = record { auth = none; metadata = some metadata_doc; upload = none }

handle_merged-schema_example :
    merged_schema "Video" (handle_merged "" documents)
    ≡ Option.map rewrite_refs (
        or_else (found_in "Video" (schemas_of none)) (
          or_else
            (found_in "Video" (definitions_of (some metadata_doc)))
            (found_in "Video" (definitions_of none))))
handle_merged-schema_example =
    handle_merged-schema "" "Video" documents (differ "Video" "$ref" refl)

-- The methods of one path come together; the first document's stay.
paths_together :
    merge_paths (field "/videos" (object (field "get" (string "a") end)) end) (
      field "paths"
        (object
          (field "/videos" (object (field "get" (string "b") (field "post" (string "c") end))) end))
        end)
    ≡ field "/videos" (object (field "post" (string "c") (field "get" (string "a") end))) end
unfolding merge_paths lookup add_all add
paths_together = refl
