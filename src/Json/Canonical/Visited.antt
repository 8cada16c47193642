-- ===== src/Json/Canonical/Visited.antt =====
-- The object after cm_utils_json_get_canonical of src/cm-utils.c, which takes two members out of it
-- and puts them back.
use Prim.Native.String.{◌++◌}
use mathlib.Core.Option
use libcmatrix.Base.{
  String, ◌≡◌, refl, ap, ◌∙◌, inl, inr, Option, none, some, arith, eq_iff, if◌then◌else◌,
  Bool-cases,
}
use libcmatrix.Base.Text.{str_eq}
use libcmatrix.Json.{
  JsonNode, Elements, JsonObject, null, boolean, int, double, string, array, object, nil, element,
  end, member, get_member, IsUnique,
}
use libcmatrix.Json.Members.{get_member-set_member, set_member-IsUnique}
use libcmatrix.Json.Glib.{JsonGlib}
use libcmatrix.Json.Canonical.{
  strip, handle_node, json_get_canonical, put_back, is_unsigned, restored, visited_node,
  visited_members, visited_elements, canonical_array, visited_object,
}
use libcmatrix.Json.Canonical.Determined.{
  get_member-strip, strip-IsUnique, member_text, handle_node-congr,
}

get_member-put_back :
    (o : JsonObject) (n k : String) (old : Option JsonNode)
    → get_member (put_back o n old) k
      ≡ elim old [ none ↦ get_member o k | some v ↦ if str_eq n k then some v else get_member o k ]
unfolding put_back
get_member-put_back o n k none = refl
get_member-put_back o n k (some v) = get_member-set_member o n k v

put_back-IsUnique :
    (o : JsonObject) (n : String) (old : Option JsonNode) → IsUnique o → IsUnique (put_back o n old)
unfolding put_back
put_back-IsUnique o n none h = h
put_back-IsUnique o n (some v) h = set_member-IsUnique o n v h

pub restored-IsUnique : (o v : JsonObject) → IsUnique v → IsUnique (restored o v)
unfolding restored
restored-IsUnique o v h =
    put_back-IsUnique (put_back (strip v) "signatures" (get_member o "signatures")) "unsigned"
      (get_member o "unsigned")
      (put_back-IsUnique (strip v) "signatures" (get_member o "signatures") (strip-IsUnique v h))

pub get_member-restored :
    (o v : JsonObject) (k : String)
    → IsUnique v
    → get_member (restored o v) k ≡ (if is_unsigned k then get_member o k else get_member v k)
unfolding restored
get_member-restored o v k h =
    let first = put_back (strip v) "signatures" (get_member o "signatures") in
    ground (
      arith,
      get_member-put_back first "unsigned" k (get_member o "unsigned"),
      get_member-put_back (strip v) "signatures" k (get_member o "signatures"),
      get_member-strip v k h,
      eq_iff "unsigned" k,
      eq_iff k "unsigned",
      eq_iff "signatures" k,
      eq_iff k "signatures",
    )

pub get_member-visited_members :
    (o : JsonObject) (k : String)
    → get_member (visited_members o) k
      ≡ (if is_unsigned k then get_member o k else Option.map visited_node (get_member o k))
unfolding visited_node get_member
get_member-visited_members end k = ground arith
get_member-visited_members (member j v o) k =
    ground (arith, eq_iff j k, get_member-visited_members o k)

pub visited_members-IsUnique : (o : JsonObject) → IsUnique o → IsUnique (visited_members o)
unfolding visited_node
visited_members-IsUnique end h = tt
visited_members-IsUnique (member j v o) h =
    (ground (arith, get_member-visited_members o j, h.0), visited_members-IsUnique o h.1)

-- No object, at any depth, has a name twice.
abbrev mutual
  pub NodeIsUnique : JsonNode → Type 0
  NodeIsUnique (array xs) = ElementsAreUnique xs
  NodeIsUnique (object o) = IsUnique o × MembersAreUnique o
  NodeIsUnique node = Unit

  pub ElementsAreUnique : Elements → Type 0
  ElementsAreUnique nil = Unit
  ElementsAreUnique (element x xs) = NodeIsUnique x × ElementsAreUnique xs

  pub MembersAreUnique : JsonObject → Type 0
  MembersAreUnique end = Unit
  MembersAreUnique (member k v o) = NodeIsUnique v × MembersAreUnique o

module _ (g : JsonGlib) where
  -- An object keeps its text if its members, visited, keep theirs.
  text-restored :
      (o : JsonObject)
      → IsUnique o
      → ((k : String)
          → Option.map (handle_node g) (Option.map visited_node (get_member o k))
            ≡ member_text g o k)
      → handle_node g (object (restored o (visited_members o))) ≡ handle_node g (object o)
  text-restored o h ih =
      handle_node-congr g (restored o (visited_members o)) o
        (restored-IsUnique o (visited_members o) (visited_members-IsUnique o h)) h
        λ k e.
          ap (Option.map (handle_node g)) (
            get_member-restored o (visited_members o) k (visited_members-IsUnique o h)
            ∙ rw e (get_member-visited_members o k ∙ rw e))
          ∙ ih k

  mutual
    unfolding visited_node handle_node get_member

    handle_node-visited :
        (n : JsonNode) → NodeIsUnique n → handle_node g (visited_node n) ≡ handle_node g n
    handle_node-visited (array xs) h = rw (array-visited xs h)
    handle_node-visited (object o) h = text-restored o h.0 (member-visited o h.1)
    handle_node-visited null h = refl
    handle_node-visited (boolean b) h = refl
    handle_node-visited (int b) h = refl
    handle_node-visited (double b) h = refl
    handle_node-visited (string b) h = refl

    array-visited :
        (xs : Elements)
        → ElementsAreUnique xs
        → canonical_array g (visited_elements xs) ≡ canonical_array g xs
    array-visited nil h = refl
    array-visited (element x nil) h = handle_node-visited x h.0
    array-visited (element x (element y ys)) h =
        cc (handle_node-visited x h.0, array-visited (element y ys) h.1)

    member-visited :
        (o : JsonObject)
        → MembersAreUnique o
        → (k : String)
        → Option.map (handle_node g) (Option.map visited_node (get_member o k)) ≡ member_text g o k
    member-visited end h k = refl
    member-visited (member j v o) h k = elim (Bool-cases (str_eq j k)) [
      | inl e ↦ rw e (ap some (handle_node-visited v h.0))
      | inr e ↦ rw e (member-visited o h.1 k)
    ]

-- After the call, "signatures" and "unsigned" are what they were, and any other member is the node
-- that visiting it leaves.
pub get_member-visited_object :
    (o : JsonObject) (k : String)
    → IsUnique o
    → get_member (visited_object o) k
      ≡ (if is_unsigned k then get_member o k else Option.map visited_node (get_member o k))
unfolding visited_object
get_member-visited_object o k h =
    get_member-restored o (visited_members o) k (visited_members-IsUnique o h)
    ∙ ground (arith, get_member-visited_members o k)

-- The call can be repeated on what it leaves: the canonical text is the same.
pub json_get_canonical-visited_object :
    (g : JsonGlib) (o : JsonObject) (out : String)
    → IsUnique o
    → MembersAreUnique o
    → json_get_canonical g (visited_object o) out ≡ json_get_canonical g o out
unfolding json_get_canonical visited_object
json_get_canonical-visited_object g o out h deep =
    ap (λ (t : String). out ++ t) (text-restored g o h (member-visited g o deep))
