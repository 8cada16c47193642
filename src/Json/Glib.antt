-- ===== src/Json/Glib.antt =====
-- What src/cm-utils.c takes from json-glib, GLib and the C library: the value accessors that convert
-- between types, number formatting and `g_list_sort`. Only their documented behaviour is assumed.
use mathlib.Core.List.{Perm}
use libcmatrix.Base.{ℕ, String, ◌≡◌, Bool, Option, none, some, List}
use libcmatrix.Base.Int.{ℤ}
use libcmatrix.Base.Sorted.{IsSorted, sorted-eq_of_perm}
use libcmatrix.Json.{JsonNode, boolean, int, double, string}

pub record JsonGlib : Type 0 where
  -- json_node_get_int, json_node_get_boolean, json_node_get_string on a node that holds a value
  pub get_int : JsonNode → ℤ
  pub get_boolean : JsonNode → Bool
  pub get_string : JsonNode → Option String
  -- printf of a gint64 and of a double by "%f"
  pub format_int : ℤ → String
  pub format_double : ℕ → String
  -- g_list_sort by g_strcmp0
  pub sort : List String → List String
  pub get_int-int : (n : ℤ) → get_int (int n) ≡ n
  pub get_boolean-boolean : (b : Bool) → get_boolean (boolean b) ≡ b
  pub get_string-string : (s : String) → get_string (string s) ≡ some s
  pub get_string-int : (n : ℤ) → get_string (int n) ≡ none
  pub get_string-boolean : (b : Bool) → get_string (boolean b) ≡ none
  pub get_string-double : (d : ℕ) → get_string (double d) ≡ none
  pub sort-perm : (xs : List String) → Perm (sort xs) xs
  pub sort-IsSorted : (xs : List String) → IsSorted (sort xs)

-- a list that is sorted already is returned as it is
pub sort_sorted : (g : JsonGlib) (xs : List String) → IsSorted xs → g.sort xs ≡ xs
sort_sorted g xs h = sorted-eq_of_perm (g.sort xs) xs (g.sort-IsSorted xs) h (g.sort-perm xs)
