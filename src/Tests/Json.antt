-- ===== src/Tests/Json.antt =====
-- Objects with few members.
use libcmatrix.Base.{
  ◌≡◌, refl, sym, ◌∙◌, inl, inr, Bool-cases, true, false, none, some, String, eq_iff,
}
use mathlib.Core.Bool.{false≢true}
use libcmatrix.Base.Text.{str_eq}
use libcmatrix.Json.{JsonObject, boolean, string, object, end, member, get_member}
use libcmatrix.Json.Sample.{sample}
use libcmatrix.Json.Canonical.{json_get_canonical, visited_object, is_unsigned}
use libcmatrix.Json.Canonical.Determined.{canonical_determined}
use libcmatrix.Json.Canonical.Visited.{get_member-visited_object}
use libcmatrix.Json.Canonical.Escaping.{forged, plain, forged_canonical}

abbrev in_order : JsonObject
in_order = member "a" (boolean true) (member "b" (string "x") end)

abbrev signed : JsonObject
signed = member "b" (string "x") (member "signatures" (object end) (member "a" (boolean true) end))

same_but_signed : (k : String) → is_unsigned k ≡ false → get_member in_order k ≡ get_member signed k
unfolding get_member
same_but_signed k h = elim (Bool-cases (str_eq "signatures" k)) [
  | inl e ↦ absurd (false≢true (sym h ∙ rw (sym ((eq_iff "signatures" k).0 e)) refl))
  | inr e ↦ elim (Bool-cases (str_eq "a" k)) [
    | inl a ↦ rw (sym ((eq_iff "a" k).0 a)) refl
    | inr a ↦ rw (a, e) refl
  ]
]

canonical_determined_example :
    json_get_canonical sample in_order "" ≡ json_get_canonical sample signed ""
unfolding get_member
canonical_determined_example =
    canonical_determined sample in_order signed "" (refl, (refl, tt)) (refl, (refl, (refl, tt)))
      same_but_signed

get_member-visited_object_example :
    get_member (visited_object signed) "signatures" ≡ some (object end)
unfolding get_member
get_member-visited_object_example =
    get_member-visited_object signed "signatures" (refl, (refl, (refl, tt)))

forged_canonical_example :
    (json_get_canonical sample (forged "a" "x" "b" "y") ""
      ≡ json_get_canonical sample (plain "a" "x" "b" "y") "")
    × (get_member (forged "a" "x" "b" "y") "b" ≡ none)
    × (get_member (plain "a" "x" "b" "y") "b" ≡ some (string "y"))
forged_canonical_example = forged_canonical sample "a" "x" "b" "y" "" refl refl refl refl
