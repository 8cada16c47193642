-- ===== src/User/Devices.antt =====
-- The table of a user's devices and the list of them (src/users/cm-user.c).
use mathlib.Core.Bool.{false≢true}
use libcmatrix.Base.{
  ℕ, String, ◌≡◌, refl, sym, ap, ◌∙◌, Bool, true, false, Option, none, some, List, [], ◌∷◌, arith,
  eq_iff, if◌then◌else◌, inl, inr, Bool-cases, Option-cases, ◌&&◌, not, ◌||◌, any,
}
use libcmatrix.Base.Text.{str_eq, strcmp0_eq}
use libcmatrix.Base.Table.{lookup, lookup-insert, lookup-remove}
use libcmatrix.Json.{JsonNode, JsonObject, end, member, get_member, get_members, IsUnique}
use libcmatrix.Json.Glib.{JsonGlib}
use libcmatrix.Json.Access.{find_member, as_object, object_get_string, object_get_object}
use libcmatrix.Event.{is_some}
use libcmatrix.Enc.{EncEnv}
use libcmatrix.Device.{CmDevice}
use libcmatrix.User.{
  CmUser, Loading, append_device, add_device, place_device, take_device, load_device, load_devices,
  replace_table, set_devices,
}

-- the id that the object under a name gives the device
abbrev pub device_id_of : JsonGlib → JsonObject → String → Option String
device_id_of g root name =
    object_get_string g (object_get_object (some root) (some name)) (some "device_id")

-- Every device stands under its own id.
abbrev pub IsNamed : JsonGlib → JsonObject → Type 0
IsNamed g root = (name id : String) → device_id_of g root name ≡ some id → name ≡ id

-- the object of the id is a device's
abbrev pub is_listed : JsonGlib → JsonObject → String → Bool
is_listed g root id = strcmp0_eq (device_id_of g root id) (some id) && not (str_eq id "")

abbrev pub among : String → List String → Bool
among k names = any (λ name. str_eq name k) names

abbrev pub AreDistinct : List String → Type 0
AreDistinct [] = Unit
AreDistinct (name ∷ names) = (among name names ≡ false) × AreDistinct names

or_false : (a b : Bool) → (a || b) ≡ false → (a ≡ false) × (b ≡ false)
or_false a b h = ground arith

and_true : (a b : Bool) → (a && b) ≡ true → (a ≡ true) × (b ≡ true)
and_true a b h = ground arith

-- a new device is entered in the new table alone, under its id
append_device_others :
    (id k : String) (d : Option CmDevice) (l : Loading)
    → str_eq id k ≡ false
    → (lookup (append_device id d l).table k ≡ lookup l.table k)
      × ((append_device id d l).old ≡ l.old)
unfolding append_device
append_device_others id k none l h = (refl, refl)
append_device_others id k (some d) l h = (ground (arith, lookup-insert l.table id k d.ref), refl)

add_device_others :
    (env : EncEnv) (self : CmUser) (id k : String) (child : Option JsonObject) (l : Loading)
    → str_eq id k ≡ false
    → (lookup (add_device env self id child l).table k ≡ lookup l.table k)
      × ((add_device env self id child l).old ≡ l.old)
unfolding add_device
add_device_others env self id k none l h = (refl, refl)
add_device_others env self id k (some child) l h = append_device_others id k _ l h

place_device_others :
    (env : EncEnv) (self : CmUser) (name k id : String) (child : Option JsonObject)
    (known : Option ℕ) (l : Loading)
    → str_eq id k ≡ false
    → (lookup (place_device env self name child id known l).table k ≡ lookup l.table k)
      × (lookup (place_device env self name child id known l).old k ≡ lookup l.old k)
unfolding place_device
place_device_others env self name k id child (some ref) l h =
    (ground (arith, lookup-insert l.table id k ref), ground (arith, lookup-remove l.old id k))
place_device_others env self name k id child none l h =
    let (table, old) = add_device_others env self id k child l h in
    (ground (arith, table), ground (arith, old))

take_device_others :
    (env : EncEnv) (self : CmUser) (name k : String) (child : Option JsonObject)
    (id : Option String) (l : Loading)
    → ((i : String) → id ≡ some i → name ≡ i)
    → str_eq name k ≡ false
    → (lookup (take_device env self name child id l).table k ≡ lookup l.table k)
      × (lookup (take_device env self name child id l).old k ≡ lookup l.old k)
unfolding take_device
take_device_others env self name k child none l named h = (refl, refl)
take_device_others env self name k child (some id) l named h =
    let (table, old) =
      place_device_others env self name k id child (lookup l.old id) l (rw (← named id refl) h) in
    (ground (arith, table), ground (arith, old))

-- an object touches no entry but that of the device it names
pub load_device_others :
    (env : EncEnv) (self : CmUser) (root : JsonObject) (name k : String) (l : Loading)
    → IsNamed env.glib root
    → str_eq name k ≡ false
    → (lookup (load_device env self root name l).table k ≡ lookup l.table k)
      × (lookup (load_device env self root name l).old k ≡ lookup l.old k)
unfolding load_device
load_device_others env self root name k l named h =
    take_device_others env self name k (object_get_object (some root) (some name))
      (device_id_of env.glib root name) l (named name) h

load_devices_others :
    (env : EncEnv) (self : CmUser) (root : JsonObject) (names : List String) (k : String)
    (l : Loading)
    → IsNamed env.glib root
    → among k names ≡ false
    → lookup (load_devices env self root names l).table k ≡ lookup l.table k
unfolding load_devices
load_devices_others env self root [] k l named h = refl
load_devices_others env self root (name ∷ names) k l named h =
    let apart = or_false (str_eq name k) (among k names) h in
    load_devices_others env self root names k (load_device env self root name l) named apart.1
    ∙ (load_device_others env self root name k l named apart.0).0

-- a known device that the reply lists is entered in the new table
take_device_known :
    (env : EncEnv) (self : CmUser) (k : String) (child : Option JsonObject) (id : Option String)
    (ref : ℕ) (l : Loading)
    → (strcmp0_eq id (some k) && not (str_eq k "")) ≡ true
    → lookup l.old k ≡ some ref
    → lookup (take_device env self k child id l).table k ≡ some ref
unfolding take_device place_device strcmp0_eq
take_device_known env self k child none ref l listed known = absurd (false≢true listed)
take_device_known env self k child (some id) ref l listed known =
    let same = (eq_iff id k).0 (and_true (str_eq id k) (not (str_eq k "")) listed).0 in
    let full = (and_true (str_eq id k) (not (str_eq k "")) listed).1 in
    rw (same, known) (ground (arith, full, lookup-insert l.table k k ref, eq_iff k k))

module _ (env : EncEnv) (self : CmUser) (root : JsonObject) (named : IsNamed env.glib root)
    (k : String) where
  load_devices_known :
      (names : List String) (ref : ℕ) (l : Loading)
      → AreDistinct names
      → among k names ≡ true
      → is_listed env.glib root k ≡ true
      → lookup l.old k ≡ some ref
      → lookup (load_devices env self root names l).table k ≡ some ref
  unfolding load_devices load_device
  load_devices_known [] ref l apart here listed known = absurd (false≢true here)
  load_devices_known (name ∷ names) ref l apart here listed known =
      elim (Bool-cases (str_eq name k)) [
        | inl e ↦
            let same = (eq_iff name k).0 e in
            load_devices_others env self root names k (load_device env self root name l) named
              (rw (← same) apart.0)
            ∙ rw same (
                take_device_known env self k (object_get_object (some root) (some k))
                  (device_id_of env.glib root k) ref l listed known)
        | inr e ↦
            load_devices_known names ref (load_device env self root name l) apart.1
              (ground (arith, here, e)) listed
              ((load_device_others env self root name k l named e).1 ∙ known)
      ]

  take_device_unlisted :
      (child : Option JsonObject) (id : Option String) (l : Loading)
      → ((i : String) → id ≡ some i → k ≡ i)
      → (strcmp0_eq id (some k) && not (str_eq k "")) ≡ false
      → (take_device env self k child id l) ≡ l
  unfolding take_device strcmp0_eq
  take_device_unlisted child none l same h = refl
  take_device_unlisted child (some id) l same h = ground (arith, same id refl, h, eq_iff id k)

  load_devices_unlisted :
      (names : List String) (l : Loading)
      → is_listed env.glib root k ≡ false
      → lookup (load_devices env self root names l).table k ≡ lookup l.table k
  unfolding load_devices load_device
  load_devices_unlisted [] l h = refl
  load_devices_unlisted (name ∷ names) l h =
      load_devices_unlisted names (load_device env self root name l) h
      ∙ (elim (Bool-cases (str_eq name k)) [
        | inl e ↦ rw ((eq_iff name k).0 e) (
            ap (λ (m : Loading). lookup m.table k)
              (take_device_unlisted (object_get_object (some root) (some k))
                (device_id_of env.glib root k) l (named k) h))
        | inr e ↦ (load_device_others env self root name k l named e).0
      ])

among-get_members :
    (o : JsonObject) (k : String) → among k (get_members o) ≡ is_some (get_member o k)
unfolding get_members get_member is_some
among-get_members end k = refl
among-get_members (member j v o) k = ground (arith, among-get_members o k)

pub AreDistinct-get_members : (o : JsonObject) → IsUnique o → AreDistinct (get_members o)
unfolding get_members is_some
AreDistinct-get_members end h = tt
AreDistinct-get_members (member j v o) h =
    (among-get_members o j ∙ ap is_some h.0, AreDistinct-get_members o h.1)

find_member_absent :
    (o : JsonObject) (k : String) → get_member o k ≡ none → find_member (some o) (some k) ≡ none
unfolding find_member
find_member_absent o k h = ground (arith, h)

-- is_listed, by the member of the id
abbrev is_listed_in : JsonGlib → String → Option JsonNode → Bool
is_listed_in g k node =
    strcmp0_eq
      (object_get_string g (elim node [ none ↦ none | some n ↦ as_object n ]) (some "device_id"))
      (some k)
    && not (str_eq k "")

is_listed-among :
    (g : JsonGlib) (o : JsonObject) (k : String)
    → is_listed g o k ≡ true
    → among k (get_members o) ≡ true
unfolding object_get_object find_member object_get_string strcmp0_eq is_some
is_listed-among g o k h = among-get_members o k ∙ (elim (Option-cases (get_member o k)) [
  | inr (node, e) ↦ rw e refl
  | inl e ↦ absurd (false≢true (ap (is_listed_in g k) (sym (find_member_absent o k e)) ∙ h))
])

-- A reply that lists every device under its own id: a device that the user has and that the reply
-- lists keeps its object, whatever else the reply says of it, and one that it does not list is no
-- longer in the table.
pub lookup-set_devices :
    (env : EncEnv) (next : ℕ) (self : CmUser) (root : JsonObject) (id : String) (ref : ℕ)
    → IsUnique root
    → IsNamed env.glib root
    → lookup self.devices_table id ≡ some ref
    → lookup (set_devices env next self root).user.devices_table id
      ≡ (if is_listed env.glib root id then some ref else none)
unfolding set_devices replace_table lookup
lookup-set_devices env next self root id ref unique named known =
    elim (Bool-cases (is_listed env.glib root id)) [
      | inl e ↦ rw e (
          load_devices_known env self root named id (get_members root) ref _
            (AreDistinct-get_members root unique) (is_listed-among env.glib root id e) e known)
      | inr e ↦ rw e (load_devices_unlisted env self root named id (get_members root) _ e)
    ]
