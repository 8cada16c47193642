-- ===== src/User/Replaced.antt =====
-- How the server can replace a device that is known (src/users/cm-user.c).
use libcmatrix.Base.{ℕ, String, ◌≡◌, refl, false, Option, none, some, arith, eq_iff}
use libcmatrix.Base.Text.{str_eq, strcmp0_eq_refl}
use libcmatrix.Base.Table.{lookup, lookup-insert, lookup-remove}
use libcmatrix.Json.{JsonObject, end, member, object, get_member, get_members}
use libcmatrix.Json.Access.{find_member, object_get_string, object_get_object}
use libcmatrix.Enc.{EncEnv}
use libcmatrix.Device.{CmDevice, device_new}
use libcmatrix.User.{
  CmUser, Loading, append_device, add_device, place_device, take_device, load_device, load_devices,
  replace_table, set_devices, start,
}

-- a reply whose first device stands under another name than its id
abbrev pub listed_twice : String → JsonObject → String → JsonObject → JsonObject
listed_twice other first id second = member other (object first) (member id (object second) end)

module _ (env : EncEnv) (self : CmUser) (id : String) (ref : ℕ) where
  take_known :
      (name : String) (child : Option JsonObject) (l : Loading)
      → str_eq id "" ≡ false
      → lookup l.old id ≡ some ref
      → (lookup (take_device env self name child (some id) l).old id ≡ none)
        × ((take_device env self name child (some id) l).next ≡ l.next)
  unfolding take_device place_device
  take_known name child l full known =
      rw (full, known) (ground (arith, lookup-remove l.old id id, eq_iff id id), refl)

  take_new :
      (child : JsonObject) (d : CmDevice) (l : Loading)
      → str_eq id "" ≡ false
      → lookup l.old id ≡ none
      → object_get_string env.glib (some child) (some "user_id") ≡ self.user_id
      → device_new env l.next self.ref self.user_id child ≡ some d
      → lookup (take_device env self id (some child) (some id) l).table id ≡ some d.ref
  unfolding take_device place_device add_device append_device
  take_new child d l full gone user made =
      rw (full, gone, user, made, strcmp0_eq_refl self.user_id, (eq_iff id id).1 refl)
        (ground (arith, lookup-insert l.table id id d.ref, eq_iff id id))

load_device_as :
    (env : EncEnv) (self : CmUser) (root child : JsonObject) (name id : String) (l : Loading)
    → object_get_object (some root) (some name) ≡ some child
    → object_get_string env.glib (some child) (some "device_id") ≡ some id
    → load_device env self root name l ≡ take_device env self name (some child) (some id) l
unfolding load_device
load_device_as env self root child name id l e f = rw (e, f) refl

children :
    (other id : String) (first second : JsonObject)
    → str_eq other "" ≡ false
    → str_eq id "" ≡ false
    → str_eq other id ≡ false
    → (object_get_object (some (listed_twice other first id second)) (some other) ≡ some first)
      × (object_get_object (some (listed_twice other first id second)) (some id) ≡ some second)
unfolding object_get_object find_member get_member
children other id first second named full apart =
    (ground (arith, named, eq_iff other other), ground (arith, full, apart, eq_iff id id))

-- A reply can put a new device in the place of one that the user has: its first object, under some
-- other name, has the id of that device, and the object under the id itself is one of which
-- cm_device_new makes a device.
pub set_devices_replaced :
    (env : EncEnv) (next : ℕ) (self : CmUser) (other id : String) (first second : JsonObject)
    (ref : ℕ) (d : CmDevice)
    → str_eq other "" ≡ false
    → str_eq id "" ≡ false
    → str_eq other id ≡ false
    → lookup self.devices_table id ≡ some ref
    → object_get_string env.glib (some first) (some "device_id") ≡ some id
    → object_get_string env.glib (some second) (some "device_id") ≡ some id
    → object_get_string env.glib (some second) (some "user_id") ≡ self.user_id
    → device_new env next self.ref self.user_id second ≡ some d
    → lookup (set_devices env next self (listed_twice other first id second)).user.devices_table id
      ≡ some d.ref
unfolding set_devices replace_table load_devices get_members
set_devices_replaced env next self other id first second ref d named full apart known id1 id2 user
      made =
    let root = listed_twice other first id second in
    let l = take_device env self other (some first) (some id) (start next self) in
    let (gone, same) = take_known env self id ref other (some first) (start next self) full known in
    let (one, two) = children other id first second named full apart in
    rw
      (
        load_device_as env self root first other id (start next self) one id1,
        load_device_as env self root second id id l two id2,
      )
      (take_new env self id ref second d l full gone user (rw same made))
