-- ===== src/User/Consistent.antt =====
-- The list store of a user's devices holds the devices of the table (src/users/cm-user.c).
use mathlib.Core.List.{
  Perm, Mem, perm_middle, append_assoc, append-nil, mem-cons, not-mem-nil, mem-cons_self,
}
use mathlib.Core.List.Perm
use mathlib.Core.Logic.Or
use mathlib.Core.Bool.{false≢true}
use libcmatrix.Base.{
  ℕ, String, ◌≡◌, refl, sym, ap, ◌∙◌, true, false, Option, none, some, List, [], ◌∷◌, ◌++◌, arith,
  eq_iff, inl, inr, Bool-cases, if_both, ◌==◌, ==_iff, not,
}
use libcmatrix.Base.Text.{str_eq, strcmp0_eq}
use libcmatrix.Base.Table.{
  Table, lookup, remove, contains, values, IsKeyed, insert-IsKeyed, remove-IsKeyed, values-insert,
  values-remove,
}
use libcmatrix.Json.{JsonObject, get_members, IsUnique}
use libcmatrix.Json.Access.{object_get_string, object_get_object}
use libcmatrix.Enc.{EncEnv}
use libcmatrix.Device.{CmDevice}
use libcmatrix.User.{
  CmUser, Loading, append_device, add_device, place_device, take_device, load_device, load_devices,
  remove_device, remove_devices, replace_table, set_devices, start,
}
use libcmatrix.User.Devices.{
  device_id_of, IsNamed, AreDistinct, among, AreDistinct-get_members, load_device_others,
}

abbrev pub refs : List CmDevice → List ℕ
refs [] = []
refs (d ∷ ds) = d.ref ∷ refs ds

refs-append : (ds es : List CmDevice) → refs (ds ++ es) ≡ refs ds ++ refs es
refs-append [] es = refl
refs-append (d ∷ ds) es = ap (λ (rs : List ℕ). d.ref ∷ rs) (refs-append ds es)

-- No id stands twice in the table, and its devices are those of the list.
abbrev pub IsConsistent : CmUser → Type 0
IsConsistent u = IsKeyed u.devices_table × Perm (refs u.devices) (values u.devices_table)

remove_device-perm :
    (ds : List CmDevice) (r : ℕ) → Mem r (refs ds) → Perm (refs ds) (r ∷ refs (remove_device ds r))
unfolding remove_device
remove_device-perm [] r m = absurd (not-mem-nil m)
remove_device-perm (d ∷ ds) r m = elim (Bool-cases (d.ref == r)) [
  | inl e ↦ rw (e, ← (==_iff d.ref r).0 e) (Perm.refl _)
  | inr e ↦ rw e (
      Perm.trans
        (Perm.cons d.ref (
          remove_device-perm ds r (
            Or.elim (hlevel) (mem-cons.0 m)
              (λ q. absurd (false≢true (sym e ∙ (==_iff d.ref r).1 (sym q)))) (λ q. q))))
        (Perm.swap r d.ref _))
]

remove_devices-perm :
    (rs zs : List ℕ) (ds : List CmDevice)
    → Perm (refs ds) (rs ++ zs)
    → Perm (refs (remove_devices ds rs)) zs
unfolding remove_devices
remove_devices-perm [] zs ds p = p
remove_devices-perm (r ∷ rs) zs ds p = remove_devices-perm rs zs (remove_device ds r) (
    Perm.cons_inv
      (Perm.trans (Perm.symm (remove_device-perm ds r ((Perm.mem_iff p).1 mem-cons_self))) p))

-- The loop keeps the devices of the two tables in the list.
abbrev Holds : Loading → Type 0
Holds l = IsKeyed l.old × IsKeyed l.table × Perm (refs l.devices) (values l.old ++ values l.table)

-- the step at an id that is new to the table keeps the devices
append_device-Holds :
    (id : String) (d : Option CmDevice) (l : Loading)
    → contains l.table id ≡ false
    → Holds l
    → Holds (append_device id d l)
unfolding append_device
append_device-Holds id none l new h = h
append_device-Holds id (some d) l new h = (
  h.0,
  insert-IsKeyed l.table id d.ref h.1,
  rw
      (
        refs-append l.devices (d ∷ []),
        values-insert l.table id d.ref new,
        ← append_assoc (values l.old) (values l.table) (d.ref ∷ []),
      )
      (Perm.append_right (d.ref ∷ []) h.2),
)

add_device-Holds :
    (env : EncEnv) (self : CmUser) (id : String) (child : Option JsonObject) (l : Loading)
    → contains l.table id ≡ false
    → Holds l
    → Holds (add_device env self id child l)
unfolding add_device
add_device-Holds env self id none l new h = h
add_device-Holds env self id (some child) l new h = append_device-Holds id _ l new h

append_last : (xs : List ℕ) (r : ℕ) → Perm (xs ++ (r ∷ [])) (r ∷ xs)
append_last xs r = rw append-nil at (perm_middle {a = r} xs [])

move_perm :
    (rs old old' table : List ℕ) (r : ℕ)
    → Perm old (r ∷ old')
    → Perm rs (old ++ table)
    → Perm rs (old' ++ (table ++ (r ∷ [])))
move_perm rs old old' table r moved p = Perm.trans p (
    Perm.trans (Perm.append_right table moved)
      (Perm.symm (rw (← append_assoc old' table (r ∷ [])) (append_last (old' ++ table) r))))

lookup-absent : (t : Table ℕ) (k : String) → lookup t k ≡ none → contains t k ≡ false
unfolding lookup contains
lookup-absent [] k h = refl
lookup-absent ((i, w) ∷ t) k h = ground (arith, h, lookup-absent t k)

lookup_nil : (k : String) → lookup {A = ℕ} [] k ≡ none
unfolding lookup
lookup_nil k = refl

apart_of :
    (name k : String) (names : List String)
    → among name names ≡ false
    → among k names ≡ true
    → str_eq name k ≡ false
apart_of name k names h m = elim (Bool-cases (str_eq name k)) [
  | inl e ↦ absurd (false≢true (sym h ∙ rw ((eq_iff name k).0 e) m))
  | inr e ↦ e
]

place_device-Holds :
    (env : EncEnv) (self : CmUser) (name id : String) (child : Option JsonObject) (known : Option ℕ)
    (l : Loading)
    → contains l.table id ≡ false
    → lookup l.old id ≡ known
    → Holds l
    → Holds (place_device env self name child id known l)
unfolding place_device
place_device-Holds env self name id child (some ref) l new e h = (
  remove-IsKeyed l.old id h.0,
  insert-IsKeyed l.table id ref h.1,
  rw (values-insert l.table id ref new) (
      move_perm (refs l.devices) (values l.old) (values (remove l.old id)) (values l.table) ref
        (values-remove l.old id ref h.0 e) h.2),
)
place_device-Holds env self name id child none l new e h =
    if_both Holds
      (not (strcmp0_eq (object_get_string env.glib child (some "user_id")) self.user_id)) h
      (if_both Holds (not (str_eq name id)) h (add_device-Holds env self id child l new h))

take_device-Holds :
    (env : EncEnv) (self : CmUser) (name : String) (child : Option JsonObject) (id : Option String)
    (l : Loading)
    → ((i : String) → id ≡ some i → name ≡ i)
    → lookup l.table name ≡ none
    → Holds l
    → Holds (take_device env self name child id l)
unfolding take_device
take_device-Holds env self name child none l named new h = h
take_device-Holds env self name child (some id) l named new h = if_both Holds (str_eq id "") h (
    place_device-Holds env self name id child (lookup l.old id) l
      (lookup-absent l.table id (rw (← named id refl) new)) refl h)

load_device-Holds :
    (env : EncEnv) (self : CmUser) (root : JsonObject) (name : String) (l : Loading)
    → IsNamed env.glib root
    → lookup l.table name ≡ none
    → Holds l
    → Holds (load_device env self root name l)
unfolding load_device
load_device-Holds env self root name l named new h =
    take_device-Holds env self name (object_get_object (some root) (some name))
      (device_id_of env.glib root name) l (named name) new h

load_devices-Holds :
    (env : EncEnv) (self : CmUser) (root : JsonObject) (names : List String) (l : Loading)
    → IsNamed env.glib root
    → AreDistinct names
    → ((k : String) → among k names ≡ true → lookup l.table k ≡ none)
    → Holds l
    → Holds (load_devices env self root names l)
unfolding load_devices
load_devices-Holds env self root [] l named apart new h = h
load_devices-Holds env self root (name ∷ names) l named apart new h =
    load_devices-Holds env self root names (load_device env self root name l) named apart.1
      (λ k m.
        (load_device_others env self root name k l named (apart_of name k names apart.0 m)).0
        ∙ new k (ground (arith, m)))
      (load_device-Holds env self root name l named (new name (ground (arith, eq_iff name name))) h)

-- A reply that lists every device under its own id leaves the list and the table of the devices with
-- the same devices.
pub set_devices-IsConsistent :
    (env : EncEnv) (next : ℕ) (self : CmUser) (root : JsonObject)
    → IsUnique root
    → IsNamed env.glib root
    → IsConsistent self
    → IsConsistent (set_devices env next self root).user
unfolding set_devices replace_table
set_devices-IsConsistent env next self root unique named h =
    let loaded =
      load_devices-Holds env self root (get_members root) (start next self) named
        (AreDistinct-get_members root unique) (λ k m. lookup_nil k)
        (h.0, tt, rw (append-nil (values self.devices_table)) h.1) in
    (
      loaded.1,
      remove_devices-perm
          (values (load_devices env self root (get_members root) (start next self)).old) _ _
          loaded.2,
    )
