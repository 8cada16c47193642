-- ===== src/Json/Access.antt =====
-- The guarded accessors of src/cm-utils.c. The object and the name may be NULL.
pub mod Lookup
use libcmatrix.Base.{String, Bool, true, false, Option, none, some, if◌then◌else◌}
use libcmatrix.Base.Int.{ℤ, pos}
use libcmatrix.Base.Text.{str_eq}
use libcmatrix.Json.{
  JsonNode, Elements, JsonObject, boolean, int, double, string, array, object, get_member,
}
use libcmatrix.Json.Glib.{JsonGlib}

-- the early return of every accessor, then json_object_get_member
unfoldable pub find_member : Option JsonObject → Option String → Option JsonNode
find_member none name = none
find_member (some o) none = none
find_member (some o) (some name) = if str_eq name "" then none else get_member o name

unfoldable pub object_has_member : Option JsonObject → Option String → Bool
unfolding find_member
object_has_member o name = elim (find_member o name) [ none ↦ false | some node ↦ true ]

-- JSON_NODE_HOLDS_VALUE
unfoldable pub holds_value : JsonNode → Bool
holds_value (boolean b) = true
holds_value (int n) = true
holds_value (double d) = true
holds_value (string s) = true
holds_value _ = false

module _ (g : JsonGlib) where
  unfoldable pub object_get_int : Option JsonObject → Option String → ℤ
  unfolding find_member holds_value
  object_get_int o name = elim (find_member o name) [
    | none ↦ pos 0
    | some node ↦ if holds_value node then g.get_int node else pos 0
  ]

  unfoldable pub object_get_bool : Option JsonObject → Option String → Bool
  unfolding find_member holds_value
  object_get_bool o name = elim (find_member o name) [
    | none ↦ false
    | some node ↦ if holds_value node then g.get_boolean node else false
  ]

  unfoldable pub object_get_string : Option JsonObject → Option String → Option String
  unfolding find_member holds_value
  object_get_string o name = elim (find_member o name) [
    | none ↦ none
    | some node ↦ if holds_value node then g.get_string node else none
  ]

abbrev pub as_object : JsonNode → Option JsonObject
as_object (object o) = some o
as_object _ = none

abbrev pub as_array : JsonNode → Option Elements
as_array (array xs) = some xs
as_array _ = none

unfoldable pub object_get_object : Option JsonObject → Option String → Option JsonObject
unfolding find_member
object_get_object o name = elim (find_member o name) [ none ↦ none | some node ↦ as_object node ]

unfoldable pub object_get_array : Option JsonObject → Option String → Option Elements
unfolding find_member
object_get_array o name = elim (find_member o name) [ none ↦ none | some node ↦ as_array node ]
