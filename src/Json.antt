-- ===== src/Json.antt =====
-- JSON values as src/cm-utils.c handles them: json-glib's nodes and objects.
pub mod Members
pub mod Glib
pub mod Access
pub mod Canonical
pub mod Sample
use libcmatrix.Base.{ℕ, String, ◌≡◌, Bool, Option, none, some, List, [], ◌∷◌, if◌then◌else◌}
use libcmatrix.Base.Int.{ℤ}
use libcmatrix.Base.Text.{str_eq}

-- A double is kept as its bit pattern. An object's members stand in the order of insertion.
mutual
  pub data JsonNode : Type 0 where
    null : JsonNode
    boolean : Bool → JsonNode
    int : ℤ → JsonNode
    double : ℕ → JsonNode
    string : String → JsonNode
    array : Elements → JsonNode
    object : JsonObject → JsonNode

  pub data Elements : Type 0 where
    nil : Elements
    element : JsonNode → Elements → Elements

  pub data JsonObject : Type 0 where
    end : JsonObject
    member : String → JsonNode → JsonObject → JsonObject

unfoldable pub get_member : JsonObject → String → Option JsonNode
get_member end name = none
get_member (member k v o) name = if str_eq k name then some v else get_member o name

unfoldable pub remove_member : JsonObject → String → JsonObject
remove_member end name = end
remove_member (member k v o) name = if str_eq k name then o else member k v (remove_member o name)

-- replaces a member in its place, or adds it at the end
unfoldable pub set_member : JsonObject → String → JsonNode → JsonObject
set_member end name new = member name new end
set_member (member k v o) name new =
    if str_eq k name then member k new o else member k v (set_member o name new)

unfoldable pub get_members : JsonObject → List String
get_members end = []
get_members (member k v o) = k ∷ get_members o

unfoldable pub elements : Elements → List JsonNode
elements nil = []
elements (element x xs) = x ∷ elements xs

-- No name stands twice, as in every object of json-glib, which keeps its members in a hash table.
abbrev pub IsUnique : JsonObject → Type 0
IsUnique end = Unit
IsUnique (member k v o) = (get_member o k ≡ none) × IsUnique o
