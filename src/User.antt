-- ===== src/User.antt =====
-- The devices of a user: cm_user_set_devices of src/users/cm-user.c. The table of the devices holds
-- their addresses, the list store the devices.
pub mod Devices
pub mod Consistent
pub mod Replaced
use libcmatrix.Base.{
  ℕ, suc, String, Bool, true, false, Option, none, some, List, [], ◌∷◌, ◌++◌, not, ◌==◌,
  if◌then◌else◌,
}
use libcmatrix.Base.Text.{str_eq, strcmp0_eq}
use libcmatrix.Base.Table.{Table, lookup, insert, remove, values}
use libcmatrix.Json.{JsonObject, get_members}
use libcmatrix.Json.Glib.{JsonGlib}
use libcmatrix.Json.Access.{object_get_string, object_get_object}
use libcmatrix.Enc.{EncEnv}
use libcmatrix.Device.{CmDevice, device_new}

pub record CmUser : Type 0 where
  pub ref : ℕ
  pub user_id : Option String
  pub devices : List CmDevice
  pub devices_table : Table ℕ

-- The state of the loop over the members: the next free address, priv->devices_table and the table
-- that replaces it, and the devices so far.
pub record Loading : Type 0 where
  pub next : ℕ
  pub old : Table ℕ
  pub table : Table ℕ
  pub devices : List CmDevice
  pub added : List CmDevice

-- `NULL` would be a device that cm_device_new refused
unfoldable pub append_device : String → Option CmDevice → Loading → Loading
append_device id none l = l
append_device id (some device) l = record l {
  next = suc l.next;
  table = insert l.table id device.ref;
  devices = l.devices ++ (device ∷ []);
  added = l.added ++ (device ∷ []);
}

module _ (env : EncEnv) (self : CmUser) where
  unfoldable pub add_device : String → Option JsonObject → Loading → Loading
  unfolding append_device
  add_device id none l = l
  add_device id (some child) l =
      append_device id (device_new env l.next self.ref self.user_id child) l

  -- the device with the id, as the old table knows it
  unfoldable pub place_device : String → Option JsonObject → String → Option ℕ → Loading → Loading
  unfolding add_device strcmp0_eq
  place_device name child id (some ref) l = record l {
    old = remove l.old id;
    table = insert l.table id ref;
  }
  place_device name child id none l =
      if not (strcmp0_eq (object_get_string env.glib child (some "user_id")) self.user_id)
      then l
      else if not (str_eq name id)
      then l
      else add_device id child l

  unfoldable pub take_device : String → Option JsonObject → Option String → Loading → Loading
  unfolding place_device
  take_device name child none l = l
  take_device name child (some id) l =
      if str_eq id "" then l else place_device name child id (lookup l.old id) l

  unfoldable pub load_device : JsonObject → String → Loading → Loading
  unfolding take_device
  load_device root name l =
      let child = object_get_object (some root) (some name) in
      take_device name child (object_get_string env.glib child (some "device_id")) l

  unfoldable pub load_devices : JsonObject → List String → Loading → Loading
  unfolding load_device
  load_devices root [] l = l
  load_devices root (name ∷ names) l = load_devices root names (load_device root name l)

-- cm_utils_remove_list_item
unfoldable pub remove_device : List CmDevice → ℕ → List CmDevice
remove_device [] ref = []
remove_device (d ∷ ds) ref = if d.ref == ref then ds else d ∷ remove_device ds ref

unfoldable pub remove_devices : List CmDevice → List ℕ → List CmDevice
unfolding remove_device
remove_devices ds [] = ds
remove_devices ds (ref ∷ refs) = remove_devices (remove_device ds ref) refs

-- the user after the call, the next free address, and what `added` and `removed` are filled with
pub record Changes : Type 0 where
  pub user : CmUser
  pub next : ℕ
  pub added : List CmDevice
  pub removed : List ℕ

unfoldable pub replace_table : CmUser → Loading → Changes
unfolding remove_devices
replace_table self l = record {
  user = record self { devices_table = l.table; devices = remove_devices l.devices (values l.old) };
  next = l.next;
  added = l.added;
  removed = values l.old;
}

abbrev pub start : ℕ → CmUser → Loading
start next self = record {
  next = next;
  old = self.devices_table;
  table = [];
  devices = self.devices;
  added = [];
}

unfoldable pub set_devices : EncEnv → ℕ → CmUser → JsonObject → Changes
unfolding load_devices replace_table
set_devices env next self root =
    replace_table self (load_devices env self root (get_members root) (start next self))
