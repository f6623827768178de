-- ===== src/Gateway/Docs/Rewrite.antt =====
-- `rewriteRefs` of services/gateway/internal/handler/docs.go.
use flowix.Common.{String, ◌<>◌, ◌==◌, if◌then◌else◌}
use flowix.Common.Text.{has_prefix, trim_prefix}
use flowix.Gateway.Docs.Json.{
  Value, null, bool, number, string, array, object, Items, nil, item, Fields, end, field,
}

-- A reference of Swagger 2.0, as OpenAPI 3 writes it.
unfoldable pub moved : String → String
moved s =
    if has_prefix s "#/definitions/"
    then "#/components/schemas/" <> trim_prefix s "#/definitions/"
    else s

unfoldable pub moved_value : Value → Value
unfolding moved
moved_value (string s) = string (moved s)
moved_value v = v

-- `rewriteRefs`
unfoldable mutual
  unfolding moved_value

  pub rewrite_refs : Value → Value
  rewrite_refs null = null
  rewrite_refs (bool b) = bool b
  rewrite_refs (number n) = number n
  rewrite_refs (string s) = string s
  rewrite_refs (array xs) = array (rewrite_items xs)
  rewrite_refs (object fs) = object (rewrite_fields fs)

  pub rewrite_items : Items → Items
  rewrite_items nil = nil
  rewrite_items (item v xs) = item (rewrite_refs v) (rewrite_items xs)

  pub rewrite_fields : Fields → Fields
  rewrite_fields end = end
  rewrite_fields (field k v fs) =
      let inner = rewrite_refs v in
      field k (if k == "$ref" then moved_value v else inner) (rewrite_fields fs)
