-- ===== src/Error/Codes.antt =====
-- What a server's "errcode" becomes.
use Prim.Native.String.{◌++◌}
use mathlib.Core.Option.{some-injective}
use text.Mathlib.Text.{starts_with}
use text.Mathlib.TextPositions.{starts_with-append}
use mathlib.Core.Path.{subst}
use libcmatrix.Base.{
  ℕ, suc, ◌+◌, ◌≤◌, ◌<◌, String, ◌≡◌, refl, Option, none, some, false, inl, inr, List, [], ◌∷◌,
  arith, eq_iff, length, Bool-cases,
}
use libcmatrix.Base.Text.{str_eq}
use libcmatrix.Json.{JsonNode, JsonObject, object}
use libcmatrix.Json.Glib.{JsonGlib}
use libcmatrix.Json.Access.{object_get_string}
use libcmatrix.Error.{
  CmError, forbidden, value, name, error_codes, server_codes, GError, index_of, error_at,
  error_of_code, object_error, or_unknown, json_node_get_error,
}

-- the table and the enum agree
table_matches : (e : CmError) → index_of error_codes ("M_" ++ name e) 0 ≡ some (value e)
unfolding index_of value name
table_matches forbidden = refl
table_matches _ = refl

index_of_bounds :
    (cs : List String) (s : String) (i j : ℕ)
    → index_of cs s i ≡ some j
    → (i ≤ j) × (j < i + length cs)
unfolding index_of
index_of_bounds [] s i j h = absurd (cc)
index_of_bounds (c ∷ cs) s i j h = ground (arith, index_of_bounds cs s (suc i) j)

-- A server object with the code of a known error is that error, with the server's text.
pub known_error :
    (g : JsonGlib) (o : JsonObject) (e : CmError) (text : Option String)
    → object_get_string g (some o) (some "errcode") ≡ some ("M_" ++ name e)
    → object_get_string g (some o) (some "error") ≡ text
    → json_node_get_error g (some (object o))
      ≡ some (record { code = value e; message = or_unknown text })
unfolding json_node_get_error
known_error g o e text h k = rw (h, k, starts_with-append "M_" (name e), table_matches e)

abbrev InRange : GError → Type 0
InRange e = (1 ≤ e.code) × (e.code ≤ 32)

index_in_range :
    (s : String) (j : ℕ)
    → str_eq "" s ≡ false
    → index_of error_codes s 0 ≡ some j
    → (1 ≤ j) × (j ≤ 32)
unfolding index_of
index_in_range s j e h =
    let b : (1 ≤ j) × (j < 1 + length server_codes) =
      index_of_bounds server_codes s 1 j (rw e at h) in
    (b.0, omega arith)

error_at_range :
    (found : Option ℕ) (error : String)
    → ((j : ℕ) → found ≡ some j → (1 ≤ j) × (j ≤ 32))
    → InRange (error_at found error)
unfolding error_at
error_at_range none error h = omega arith
error_at_range (some j) error h = h j refl

-- a text that matches at index 0 is empty and has no prefix "M_"
error_of_code_range : (s error : String) → InRange (error_of_code s error)
unfolding error_of_code
error_of_code_range s error = elim (Bool-cases (str_eq "" s)) [
  | inl e ↦
      subst (λ (t : String). InRange (error_of_code t error)) ((eq_iff "" s).0 e) (omega arith)
  | inr e ↦ elim (Bool-cases (starts_with s "M_")) [
    | inl m ↦ rw m (error_at_range (index_of error_codes s 0) error (λ j. index_in_range s j e))
    | inr m ↦ rw m (omega arith)
  ]
]

object_error_range :
    (code text : Option String) (e : GError) → object_error code text ≡ some e → InRange e
unfolding object_error
object_error_range none text e h = cc
object_error_range (some s) text e h =
    subst InRange (some-injective _ _ h) (error_of_code_range s (or_unknown text))

-- Whatever a server sends, the error's number is one of the 32 of the enum, and never 0.
pub json_node_get_error_range :
    (g : JsonGlib) (node : Option JsonNode) (e : GError)
    → json_node_get_error g node ≡ some e
    → (1 ≤ e.code) × (e.code ≤ 32)
unfolding json_node_get_error
json_node_get_error_range g none e h = ground arith
json_node_get_error_range g (some (object o)) e h =
    object_error_range (object_get_string g (some o) (some "errcode"))
      (object_get_string g (some o) (some "error")) e h
json_node_get_error_range g (some _) e h = ground arith
