-- ===== src/Json/Canonical/Determined.antt =====
-- The canonical text of cm_utils_json_get_canonical of src/cm-utils.c and the object as a map.
use Prim.Native.String.{◌++◌}
use mathlib.Core.Option
use mathlib.Core.List.{Mem, Perm, perm_ext_iff_of_Nodup, mem-cons_self, mem-cons_of_mem}
use mathlib.Core.List.Perm
use libcmatrix.Base.{
  String, ◌≡◌, refl, ap, sym, ◌∙◌, ◌≢◌, inl, inr, false, Option, none, List, [], ◌∷◌, arith, eq_iff,
  if◌then◌else◌, Bool-cases, All,
}
use libcmatrix.Base.Sorted.{sorted-eq_of_perm}
use libcmatrix.Json.{
  JsonObject, object, end, member, get_member, get_members, remove_member, IsUnique,
}
use libcmatrix.Json.Members.{
  get_member-remove_member, remove_member-IsUnique, mem-get_members, Nodup-get_members,
}
use libcmatrix.Json.Glib.{JsonGlib}
use libcmatrix.Json.Canonical.{
  strip, text_of, write_members, handle_node, member_texts, json_get_canonical, is_unsigned,
}

pub get_member-strip :
    (o : JsonObject) (k : String)
    → IsUnique o
    → get_member (strip o) k ≡ (if is_unsigned k then none else get_member o k)
unfolding strip
get_member-strip o k h = ground (
  arith,
  get_member-remove_member (remove_member o "signatures") "unsigned" k
      (remove_member-IsUnique o "signatures" h),
  get_member-remove_member o "signatures" k h,
  eq_iff "unsigned" k,
  eq_iff k "unsigned",
  eq_iff "signatures" k,
  eq_iff k "signatures",
)

pub strip-IsUnique : (o : JsonObject) → IsUnique o → IsUnique (strip o)
unfolding strip
strip-IsUnique o h = remove_member-IsUnique _ _ (remove_member-IsUnique o _ h)

All-of_mem : {P : String → Type 0} (ks : List String) → ((k : String) → Mem k ks → P k) → All P ks
All-of_mem [] h = tt
All-of_mem (k ∷ ks) h = (h k mem-cons_self, All-of_mem ks (λ j m. h j (mem-cons_of_mem _ m)))

abbrev SameText : List (String × String) → List (String × String) → String → Type 0
SameText t u k = text_of t k ≡ text_of u k

write_members-congr :
    (t u : List (String × String)) (ks : List String)
    → All (SameText t u) ks
    → write_members t ks ≡ write_members u ks
unfolding write_members
write_members-congr t u [] h = refl
write_members-congr t u (k ∷ []) h = rw h.0
write_members-congr t u (k ∷ l ∷ ks) h = cc (h.0, write_members-congr t u (l ∷ ks) h.1)

module _ (g : JsonGlib) where
  abbrev pub member_text : JsonObject → String → Option String
  member_text o k = Option.map (handle_node g) (get_member o k)

  text_of-member_texts :
      (o : JsonObject) (k : String)
      → text_of (member_texts g o) k ≡ Option.get_or (member_text o k) ""
  unfolding text_of handle_node get_member
  text_of-member_texts end k = refl
  text_of-member_texts (member j v o) k = ground (arith, text_of-member_texts o k)

  -- the members that are not taken out have the same texts
  abbrev pub SameTexts : JsonObject → JsonObject → Type 0
  SameTexts o p = (k : String) → is_unsigned k ≡ false → member_text o k ≡ member_text p k

  strip-none :
      (o p : JsonObject)
      → IsUnique o
      → IsUnique p
      → SameTexts o p
      → (k : String) → get_member (strip o) k ≡ none
      → get_member (strip p) k ≡ none
  strip-none o p ho hp same k h =
      ground (arith, get_member-strip o k ho, get_member-strip p k hp, same k)

  strip_signed :
      (o : JsonObject) (k : String)
      → IsUnique o
      → get_member (strip o) k ≢ none
      → is_unsigned k ≡ false
  strip_signed o k ho h = elim (Bool-cases (is_unsigned k)) [
    | inl e ↦ absurd (h (get_member-strip o k ho ∙ (rw e)))
    | inr e ↦ e
  ]

  mem-strip :
      (o p : JsonObject)
      → IsUnique o
      → IsUnique p
      → SameTexts o p
      → (k : String) → Mem k (get_members (strip o))
      → Mem k (get_members (strip p))
  mem-strip o p ho hp same k m =
      (mem-get_members (strip p) k).1
        (λ q. (mem-get_members (strip o) k).0 m (strip-none p o hp ho (λ j e. sym (same j e)) k q))

  module _ (o p : JsonObject) (ho : IsUnique o) (hp : IsUnique p) (same : SameTexts o p) where
    same_names : Perm (get_members (strip o)) (get_members (strip p))
    same_names =
        (perm_ext_iff_of_Nodup (Nodup-get_members (strip o) (strip-IsUnique o ho))
            (Nodup-get_members (strip p) (strip-IsUnique p hp))).1
          (λ k. (mem-strip o p ho hp same k, mem-strip p o hp ho (λ j e. sym (same j e)) k))

    same_order : g.sort (get_members (strip o)) ≡ g.sort (get_members (strip p))
    same_order =
        sorted-eq_of_perm _ _ (g.sort-IsSorted _) (g.sort-IsSorted _)
          (Perm.trans (g.sort-perm _) (Perm.trans same_names (Perm.symm (g.sort-perm _))))

    same_text :
        (k : String)
        → Mem k (g.sort (get_members (strip o)))
        → SameText (member_texts g o) (member_texts g p) k
    same_text k m =
        let signed : is_unsigned k ≡ false =
          strip_signed o k ho
            ((mem-get_members (strip o) k).0 ((Perm.mem_iff (g.sort-perm _)).0 m)) in
        text_of-member_texts o k
        ∙ ap (λ (t : Option String). Option.get_or t "") (same k signed)
        ∙ sym (text_of-member_texts p k)

    -- Objects whose signed members have the same texts have the same text.
    pub handle_node-congr : handle_node g (object o) ≡ handle_node g (object p)
    unfolding handle_node
    handle_node-congr = rw (
      write_members-congr (member_texts g o) (member_texts g p) _ (All-of_mem _ same_text),
      same_order,
    )

-- Two objects that agree on every member but "signatures" and "unsigned" have the same canonical
-- text, whatever the order of their members.
pub canonical_determined :
    (g : JsonGlib) (o p : JsonObject) (out : String)
    → IsUnique o
    → IsUnique p
    → ((k : String) → is_unsigned k ≡ false → get_member o k ≡ get_member p k)
    → json_get_canonical g o out ≡ json_get_canonical g p out
unfolding json_get_canonical
canonical_determined g o p out ho hp same =
    ap (λ (t : String). out ++ t)
      (handle_node-congr g o p ho hp (λ k e. ap (Option.map (handle_node g)) (same k e)))
