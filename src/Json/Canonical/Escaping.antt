-- ===== src/Json/Canonical/Escaping.antt =====
-- Texts in utils_handle_node of src/cm-utils.c, which writes a string between quotes as it is.
use Prim.Native.String.{◌++◌}
use mathlib.Core.List.{Pairwise-singleton, Pairwise-pair}
use text.Mathlib.TextLemmas.{append_assoc}
use text.Mathlib.TextPositions.{eq_refl}
use libcmatrix.Base.{String, ◌≡◌, false, true, none, some, [], ◌∷◌, arith}
use libcmatrix.Base.Text.{str_eq, str_leb}
use libcmatrix.Base.Sorted.{StrLe}
use libcmatrix.Json.{JsonObject, string, end, member, get_member, get_members, remove_member}
use libcmatrix.Json.Glib.{JsonGlib, sort_sorted}
use libcmatrix.Json.Canonical.{strip, json_get_canonical, text_of, entry, is_unsigned}

-- one member whose text closes its quote, opens a member `l`, and leaves that open
abbrev pub forged : String → String → String → String → JsonObject
forged k x l y =
    member k (string (x ++ ("\"" ++ ("," ++ ("\"" ++ (l ++ ("\":" ++ ("\"" ++ y)))))))) end

abbrev pub plain : String → String → String → String → JsonObject
plain k x l y = member k (string x) (member l (string y) end)

is_unsigned_parts :
    (k : String)
    → is_unsigned k ≡ false
    → (str_eq k "signatures" ≡ false) × (str_eq k "unsigned" ≡ false)
is_unsigned_parts k h = ground arith

forged_names :
    (k x l y : String) → is_unsigned k ≡ false → get_members (strip (forged k x l y)) ≡ k ∷ []
unfolding strip get_members remove_member
forged_names k x l y h = let (a, b) = is_unsigned_parts k h in rw a (rw b)

plain_names :
    (k x l y : String)
    → is_unsigned k ≡ false
    → is_unsigned l ≡ false
    → get_members (strip (plain k x l y)) ≡ k ∷ l ∷ []
unfolding strip get_members remove_member
plain_names k x l y hk hl =
    let (a, b) = is_unsigned_parts k hk in
    let (c, d) = is_unsigned_parts l hl in rw a (rw b (rw c (rw d)))

-- Take any two different names in sorted order, neither of them "signatures" or "unsigned", and any
-- two texts: the object with the two members and an object without the second name have one
-- canonical text.
pub forged_canonical :
    (g : JsonGlib) (k x l y out : String)
    → is_unsigned k ≡ false
    → is_unsigned l ≡ false
    → str_eq k l ≡ false
    → str_leb k l ≡ true
    → (json_get_canonical g (forged k x l y) out ≡ json_get_canonical g (plain k x l y) out)
      × (get_member (forged k x l y) l ≡ none)
      × (get_member (plain k x l y) l ≡ some (string y))
unfolding json_get_canonical text_of entry get_member
forged_canonical g k x l y out hk hl ne le = (
  rw
      (
        forged_names k x l y hk,
        plain_names k x l y hk hl,
        sort_sorted g (k ∷ []) (Pairwise-singleton StrLe k),
        sort_sorted g (k ∷ l ∷ []) ((Pairwise-pair {R = StrLe} (λ a b. hlevel)).1 le),
      )
      (simp (eq_refl, ne, append_assoc)),
  rw ne,
  rw (ne, eq_refl l),
)
