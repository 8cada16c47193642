-- ===== src/Json/Canonical.antt =====
-- Canonical JSON (src/cm-utils.c: utils_handle_node, utils_json_canonical_array,
-- cm_utils_json_get_canonical): the text that is signed and verified.
pub mod Determined
pub mod Visited
pub mod Escaping
use Prim.Native.String.{◌++◌}
use libcmatrix.Base.{String, Bool, Option, none, some, List, [], ◌∷◌, ◌||◌, if◌then◌else◌}
use libcmatrix.Base.Text.{str_eq}
use libcmatrix.Json.{
  JsonNode, Elements, JsonObject, null, boolean, int, double, string, array, object, nil, element,
  end, member, get_member, remove_member, set_member, get_members,
}
use libcmatrix.Json.Glib.{JsonGlib}

-- the object without its members "signatures" and "unsigned"
unfoldable pub strip : JsonObject → JsonObject
strip o = remove_member (remove_member o "signatures") "unsigned"

unfoldable pub text_of : List (String × String) → String → String
text_of [] name = ""
text_of ((k, t) ∷ rest) name = if str_eq k name then t else text_of rest name

entry : List (String × String) → String → String
unfolding text_of
entry texts name = "\"" ++ (name ++ ("\":" ++ text_of texts name))

-- the loop over the sorted members, a comma after each but the last
unfoldable pub write_members : List (String × String) → List String → String
unfolding entry
write_members texts [] = ""
write_members texts (k ∷ []) = entry texts k
write_members texts (k ∷ l ∷ ks) = entry texts k ++ ("," ++ write_members texts (l ∷ ks))

module _ (g : JsonGlib) where
  unfoldable mutual
    unfolding write_members strip

    -- The text that utils_handle_node appends for a node. The text of each member is worked out
    -- once and then written in the order of the names.
    pub handle_node : JsonNode → String
    handle_node null = "null"
    handle_node (boolean b) = if b then "true" else "false"
    handle_node (int n) = g.format_int n
    handle_node (double d) = g.format_double d
    handle_node (string s) = "\"" ++ (s ++ "\"")
    handle_node (array xs) = "[" ++ (canonical_array xs ++ "]")
    handle_node (object o) =
        "{" ++ (write_members (member_texts o) (g.sort (get_members (strip o))) ++ "}")

    pub canonical_array : Elements → String
    canonical_array nil = ""
    canonical_array (element x nil) = handle_node x
    canonical_array (element x (element y ys)) =
        handle_node x ++ ("," ++ canonical_array (element y ys))

    pub member_texts : JsonObject → List (String × String)
    member_texts end = []
    member_texts (member k v o) = (k, handle_node v) ∷ member_texts o

  -- cm_utils_json_get_canonical, with the text that `out` holds before
  unfoldable pub json_get_canonical : JsonObject → String → String
  unfolding handle_node
  json_get_canonical o out = out ++ handle_node (object o)

-- `if (node) json_object_set_member (object, name, node)`
unfoldable pub put_back : JsonObject → String → Option JsonNode → JsonObject
put_back o name none = o
put_back o name (some node) = set_member o name node

abbrev pub is_unsigned : String → Bool
is_unsigned k = str_eq k "signatures" || str_eq k "unsigned"

-- the object once the two members have been put back; `v` holds the visited members
unfoldable pub restored : JsonObject → JsonObject → JsonObject
unfolding put_back strip
restored o v =
    put_back (put_back (strip v) "signatures" (get_member o "signatures")) "unsigned"
      (get_member o "unsigned")

-- The nodes as the call leaves them. The nested objects are visited too, but not the two members that
-- are taken out for the time of the call.
unfoldable mutual
  unfolding restored

  pub visited_node : JsonNode → JsonNode
  visited_node (array xs) = array (visited_elements xs)
  visited_node (object o) = object (restored o (visited_members o))
  visited_node node = node

  pub visited_elements : Elements → Elements
  visited_elements nil = nil
  visited_elements (element x xs) = element (visited_node x) (visited_elements xs)

  pub visited_members : JsonObject → JsonObject
  visited_members end = end
  visited_members (member k v o) =
      member k (if is_unsigned k then v else visited_node v) (visited_members o)

-- the object as json_get_canonical leaves it
unfoldable pub visited_object : JsonObject → JsonObject
unfolding visited_node
visited_object o = restored o (visited_members o)
