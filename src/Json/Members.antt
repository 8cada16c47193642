-- ===== src/Json/Members.antt =====
-- How lookup, removal and insertion of an object's members interact.
use mathlib.Core.Bool.{false≢true}
use mathlib.Core.Logic.Or
use mathlib.Core.List.{Mem, Nodup, mem-cons, not-mem-nil, Nodup-nil, Nodup-cons}
use text.Mathlib.TextPositions.{eq_refl}
use libcmatrix.Base.{
  String, ◌≡◌, refl, sym, ◌∙◌, ◌≢◌, ◌↔◌, inl, inr, false, none, some, arith, eq_iff, if◌then◌else◌,
  Bool-cases,
}
use libcmatrix.Base.Text.{str_eq}
use libcmatrix.Json.{
  JsonNode, JsonObject, end, member, get_member, remove_member, set_member, get_members, IsUnique,
}

pub get_member-remove_member :
    (o : JsonObject) (n k : String)
    → IsUnique o
    → get_member (remove_member o n) k ≡ (if str_eq n k then none else get_member o k)
unfolding get_member remove_member
get_member-remove_member end n k h = ground arith
get_member-remove_member (member j v o) n k h =
    ground (arith, eq_iff j n, eq_iff j k, eq_iff n k, get_member-remove_member o n k h.1, h.0)

pub get_member-set_member :
    (o : JsonObject) (n k : String) (v : JsonNode)
    → get_member (set_member o n v) k ≡ (if str_eq n k then some v else get_member o k)
unfolding get_member set_member
get_member-set_member end n k v = refl
get_member-set_member (member j w o) n k v =
    ground (arith, eq_iff j n, eq_iff j k, eq_iff n k, get_member-set_member o n k v)

pub remove_member-IsUnique :
    (o : JsonObject) (n : String) → IsUnique o → IsUnique (remove_member o n)
unfolding remove_member
remove_member-IsUnique end n h = tt
remove_member-IsUnique (member j v o) n h = elim (Bool-cases (str_eq j n)) [
  | inl e ↦ rw e h.1
  | inr e ↦
      rw e (ground (arith, get_member-remove_member o n j h.1, h.0), remove_member-IsUnique o n h.1)
]

pub set_member-IsUnique :
    (o : JsonObject) (n : String) (v : JsonNode) → IsUnique o → IsUnique (set_member o n v)
unfolding set_member get_member
set_member-IsUnique end n v h = (refl, tt)
set_member-IsUnique (member j w o) n v h = elim (Bool-cases (str_eq j n)) [
  | inl e ↦ rw e h
  | inr e ↦ rw e (
    ground (arith, get_member-set_member o n j v, eq_iff j n, eq_iff n j, h.0),
    set_member-IsUnique o n v h.1,
  )
]

pub remove_member_absent :
    (o : JsonObject) (n : String) → get_member o n ≡ none → remove_member o n ≡ o
unfolding get_member remove_member
remove_member_absent end n h = refl
remove_member_absent (member j v o) n h = ground (arith, remove_member_absent o n)

pub remove_member-set_member :
    (o : JsonObject) (n : String) (v : JsonNode)
    → get_member o n ≡ none
    → remove_member (set_member o n v) n ≡ o
unfolding get_member remove_member set_member
remove_member-set_member end n v h = rw (eq_refl n)
remove_member-set_member (member j w o) n v h = ground (arith, remove_member-set_member o n v)

pub remove_member-set_member_ne :
    (o : JsonObject) (n m : String) (v : JsonNode)
    → str_eq n m ≡ false
    → remove_member (set_member o n v) m ≡ set_member (remove_member o m) n v
unfolding remove_member set_member
remove_member-set_member_ne end n m v h = rw h
remove_member-set_member_ne (member j w o) n m v h =
    ground (arith, remove_member-set_member_ne o n m v, eq_iff j n, eq_iff j m, eq_iff n m)

pub mem-get_members :
    (o : JsonObject) (k : String) → Mem k (get_members o) ↔ (get_member o k ≢ none)
unfolding get_member get_members
mem-get_members end k = (λ m. absurd (not-mem-nil m), λ h. absurd (h refl))
mem-get_members (member j v o) k = elim (Bool-cases (str_eq j k)) [
  | inl e ↦ rw e (λ m p. cc, λ h. mem-cons.1 (Or.inl (sym ((eq_iff j k).0 e))))
  | inr e ↦ rw e (
    λ m p.
        Or.elim (hlevel) (mem-cons.0 m) (λ q. false≢true (sym e ∙ (eq_iff j k).1 (sym q)))
          (λ q. (mem-get_members o k).0 q p),
    λ h. mem-cons.1 (Or.inr ((mem-get_members o k).1 h)),
  )
]

pub Nodup-get_members : (o : JsonObject) → IsUnique o → Nodup (get_members o)
unfolding get_members
Nodup-get_members end h = Nodup-nil
Nodup-get_members (member j v o) h =
    Nodup-cons.1 (λ m. (mem-get_members o j).0 m h.0, Nodup-get_members o h.1)
