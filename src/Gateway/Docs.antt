-- ===== src/Gateway/Docs.antt =====
-- services/gateway/internal/handler/docs.go: the merge of the services' API documents. What the
-- services answer is a parameter.
pub mod Json
pub mod Rewrite
pub mod Refs
pub mod Lookup
mod Tests
use flowix.Common.{
  ℕ, String, ◌<>◌, Bool, true, false, ◌&&◌, not, eqb, Option, none, some, ◌==◌, if◌then◌else◌,
}
use Json.{
  Value, null, bool, number, string, array, object, Items, nil, item, Fields, end, field, lookup,
  object_of, is_there, add, add_all, merge_option, member_of,
}
use Rewrite.{rewrite_refs}
use flowix.Http.{Headers, Step, reply, set, http_error}

-- `mergeSchemas` and `mergeSecuritySchemes`, for the key below "components".
unfoldable pub merge_components : String → Fields → Fields → Fields
unfolding merge_option member_of
merge_components key dst src = merge_option dst (member_of key (member_of "components" (some src)))

-- `mergeDefinitionsToSchemas`
unfoldable pub merge_definitions : Fields → Fields → Fields
unfolding merge_option member_of
merge_definitions dst src = merge_option dst (member_of "definitions" (some src))

-- The value in place of the one with the key.
abbrev replace : String → Value → Fields → Fields
replace k v end = end
replace k v (field j w fs) =
    let rest = replace k v fs in if j == k then field j v fs else field j w rest

abbrev merge_methods : String → Fields → Option Value → Value → Fields
unfolding add_all
merge_methods k dst (some (object old)) (object new) = replace k (object (add_all old new)) dst
merge_methods k dst _ v = dst

abbrev merge_path : String → Value → Fields → Option Value → Fields
unfolding merge_methods
merge_path k v dst none = field k v dst
merge_path k v dst (some old) = merge_methods k dst (some old) v

abbrev merge_all_paths : Fields → Fields → Fields
unfolding merge_path lookup
merge_all_paths dst end = dst
merge_all_paths dst (field k v fs) = merge_all_paths (merge_path k v dst (lookup k dst)) fs

abbrev merge_path_option : Fields → Option Fields → Fields
unfolding merge_all_paths
merge_path_option dst none = dst
merge_path_option dst (some fs) = merge_all_paths dst fs

-- `mergePaths`
unfoldable pub merge_paths : Fields → Fields → Fields
unfolding merge_path_option member_of
merge_paths dst src = merge_path_option dst (member_of "paths" (some src))

abbrev is_text : String → Option Value → Bool
is_text s (some (string t)) = t == s
is_text s _ = false

abbrev or_null : Option Value → Value
or_null none = null
or_null (some v) = v

-- A scheme of Swagger 2.0 by an API key in Authorization becomes one by a bearer token.
unfoldable pub as_bearer : Value → Value
unfolding lookup
as_bearer (object m) =
    if is_text "apiKey" (lookup "type" m) && is_text "Authorization" (lookup "name" m)
    then object (
        field "type" (string "http") (
          field "scheme" (string "bearer") (
            field "bearerFormat" (string "JWT")
              (field "description" (or_null (lookup "description" m)) end))))
    else object m
as_bearer v = v

abbrev add_schemes : Fields → Fields → Fields
unfolding add as_bearer
add_schemes dst end = dst
add_schemes dst (field k v fs) = add_schemes (add k (as_bearer v) dst) fs

abbrev scheme_option : Fields → Option Fields → Fields
unfolding add_schemes
scheme_option dst none = dst
scheme_option dst (some fs) = add_schemes dst fs

-- `mergeSecurityDefinitions`
unfoldable pub merge_security_definitions : Fields → Fields → Fields
unfolding scheme_option member_of
merge_security_definitions dst src = scheme_option dst (member_of "securityDefinitions" (some src))

-- `fetchMap`, for the status and the decoded object of an answer, if there is one.
unfoldable pub fetch_map : Option (ℕ × Option Fields) → Option Fields
fetch_map none = none
fetch_map (some (code, body)) = if not (eqb code 200) then none else body

abbrev pub with_doc : (Fields → Fields → Fields) → Fields → Option Fields → Fields
with_doc merge dst none = dst
with_doc merge dst (some doc) = merge dst doc

-- The three documents, in the order in which they are merged.
pub record Documents : Type 0 where
  pub auth : Option Fields
  pub metadata : Option Fields
  pub upload : Option Fields

unfoldable pub merged_paths : Documents → Fields
unfolding merge_paths
merged_paths d =
    with_doc merge_paths (with_doc merge_paths (with_doc merge_paths end d.auth) d.metadata)
      d.upload

unfoldable pub merged_schemas : Documents → Fields
unfolding merge_components merge_definitions
merged_schemas d =
    with_doc merge_definitions
      (with_doc merge_definitions (with_doc (merge_components "schemas") end d.auth) d.metadata)
      d.upload

abbrev bearer_schemes : Fields
bearer_schemes =
    field "BearerAuth"
      (object (
        field "type" (string "http") (
          field "scheme" (string "bearer") (
            field "bearerFormat" (string "JWT")
              (field "description" (string "Type \"Bearer {token}\"") end)))))
      (field "HTTPBearer"
        (object (field "type" (string "http") (field "scheme" (string "bearer") end))) end)

unfoldable pub merged_schemes : Documents → Fields
unfolding merge_components merge_security_definitions
merged_schemes d =
    with_doc merge_security_definitions
      (with_doc merge_security_definitions
        (with_doc (merge_components "securitySchemes") bearer_schemes d.auth) d.metadata)
      d.upload

-- The document of `HandleMerged`, for the text of its description.
unfoldable pub handle_merged : String → Documents → Value
unfolding merged_paths merged_schemas merged_schemes rewrite_refs
handle_merged description d = rewrite_refs (
    object (
      field "openapi" (string "3.0.1") (
        field "info"
          (object (
            field "title" (string "Flowix Gateway API")
              (field "version" (string "1.0") (field "description" (string description) end))))
          (field "servers" (array (item (object (field "url" (string "/") end)) nil)) (
            field "paths" (object (merged_paths d)) (
              field "components"
                (object (
                  field "schemas" (object (merged_schemas d))
                    (field "securitySchemes" (object (merged_schemes d)) end)))
                end))))))

-- `proxyJSON`, for the answer of the upstream, if there is one; `quoted` is the verb %q of the
-- library fmt.
unfoldable pub proxy_json : (String → String) → String → Option (ℕ × String) → Headers → Step
unfolding http_error
proxy_json quoted upstream none w =
    http_error w ("{\"error\":\"upstream fetch failed\",\"upstream\":" <> quoted upstream <> "}")
      502
proxy_json quoted upstream (some (code, body)) w =
    reply code (set "Content-Type" "application/json; charset=utf-8" w) body
