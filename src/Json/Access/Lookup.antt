-- ===== src/Json/Access/Lookup.antt =====
-- What the accessors of src/cm-utils.c return for a member that was set, of each type.
use libcmatrix.Base.{String, ◌≡◌, Bool, false, none, some, arith, eq_iff, if◌then◌else◌}
use libcmatrix.Base.Int.{ℤ}
use libcmatrix.Base.Text.{str_eq}
use libcmatrix.Json.{
  JsonNode, JsonObject, Elements, boolean, int, string, object, array, set_member, get_member,
}
use libcmatrix.Json.Members.{get_member-set_member}
use libcmatrix.Json.Glib.{JsonGlib}
use libcmatrix.Json.Access.{
  find_member, object_get_int, object_get_bool, object_get_string, object_get_object,
  object_get_array,
}

pub find_member-set_member :
    (o : JsonObject) (n k : String) (v : JsonNode)
    → find_member (some (set_member o n v)) (some k)
      ≡ (if str_eq k "" then none else if str_eq n k then some v else get_member o k)
unfolding find_member
find_member-set_member o n k v = ground (arith, get_member-set_member o n k v)

-- A value that was set under a name other than "" is what the accessor of its type returns, and the
-- accessor of strings finds no string in an object, a list, a number or a truth value.
pub access-set_member :
    (g : JsonGlib) (o : JsonObject) (n : String) (s : String) (i : ℤ) (b : Bool) (p : JsonObject)
    (xs : Elements)
    → str_eq n "" ≡ false
    → (object_get_string g (some (set_member o n (string s))) (some n) ≡ some s)
      × (object_get_int g (some (set_member o n (int i))) (some n) ≡ i)
      × (object_get_bool g (some (set_member o n (boolean b))) (some n) ≡ b)
      × (object_get_object (some (set_member o n (object p))) (some n) ≡ some p)
      × (object_get_array (some (set_member o n (array xs))) (some n) ≡ some xs)
      × (object_get_string g (some (set_member o n (object p))) (some n) ≡ none)
      × (object_get_string g (some (set_member o n (array xs))) (some n) ≡ none)
      × (object_get_string g (some (set_member o n (int i))) (some n) ≡ none)
      × (object_get_string g (some (set_member o n (boolean b))) (some n) ≡ none)
unfolding object_get_string object_get_int object_get_bool object_get_object object_get_array
access-set_member g o n s i b p xs h =
    let found = λ (v : JsonNode). get_member-set_member o n n v in
    (
      ground (arith, found (string s), g.get_string-string s, eq_iff n n),
      ground (arith, found (int i), g.get_int-int i, eq_iff n n),
      ground (arith, found (boolean b), g.get_boolean-boolean b, eq_iff n n),
      ground (arith, found (object p), eq_iff n n),
      ground (arith, found (array xs), eq_iff n n),
      ground (arith, found (object p), eq_iff n n),
      ground (arith, found (array xs), eq_iff n n),
      ground (arith, found (int i), g.get_string-int i, eq_iff n n),
      ground (arith, found (boolean b), g.get_string-boolean b, eq_iff n n),
    )
