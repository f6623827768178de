-- ===== src/Gateway/Docs/Json.antt =====
-- The JSON values of the API documents. An object is a list of keys and values, of which the first
-- with a key counts; the source's maps have no order.
use flowix.Common.{String, Bool, true, false, Option, none, some, ◌==◌, if◌then◌else◌}

mutual
  pub data Value : Type 0 where
    null : Value
    bool : Bool → Value
    number : String → Value
    string : String → Value
    array : Items → Value
    object : Fields → Value

  pub data Items : Type 0 where
    nil : Items
    item : Value → Items → Items

  pub data Fields : Type 0 where
    end : Fields
    field : String → Value → Fields → Fields

unfoldable pub lookup : String → Fields → Option Value
lookup k end = none
lookup k (field j v fs) = let rest = lookup k fs in if j == k then some v else rest

-- A value as an object, if it is one.
abbrev pub object_of : Option Value → Option Fields
object_of (some (object fs)) = some fs
object_of _ = none

abbrev pub is_there : Option Value → Bool
is_there none = false
is_there (some v) = true

-- A new key.
unfoldable pub add : String → Value → Fields → Fields
unfolding lookup
add k v dst = if is_there (lookup k dst) then dst else field k v dst

-- The loop of `mergeSchemas`, `mergeDefinitionsToSchemas` and `mergeSecuritySchemes`: what is there
-- stays.
unfoldable pub add_all : Fields → Fields → Fields
unfolding add
add_all dst end = dst
add_all dst (field k v fs) = add_all (add k v dst) fs

unfoldable pub merge_option : Fields → Option Fields → Fields
unfolding add_all
merge_option dst none = dst
merge_option dst (some fs) = add_all dst fs

unfoldable pub member_of : String → Option Fields → Option Fields
unfolding lookup
member_of k none = none
member_of k (some fs) = object_of (lookup k fs)
