-- ===== src/UserList.antt =====
-- The users of an account: src/users/cm-user-list.c. The objects are in a store: `users` holds the
-- CmUser at an address and `arrays` the users of the GPtrArray at an address, since a task shares its
-- array with the caller.
pub mod Queue
pub mod Answer
pub mod Taken
pub mod Loads
pub mod Fifo
pub mod Drain
pub mod Single
pub mod Changed
use libcmatrix.Base.{
  ℕ, suc, String, Bool, true, false, Option, none, some, List, [], ◌∷◌, ◌++◌, ◌==◌, not, ◌||◌, any,
  if◌then◌else◌,
}
use libcmatrix.Base.Text.{str_eq}
use libcmatrix.Base.Table.{Table, lookup, insert, contains}
use libcmatrix.Json.{JsonNode, JsonObject, Elements, elements, string, object, int, end, set_member}
use libcmatrix.Base.Int.{pos}
use libcmatrix.Json.Glib.{JsonGlib}
use libcmatrix.Json.Access.{object_get_array}
use libcmatrix.Enc.{starts_with_at}
use libcmatrix.Device.{CmDevice, array_elements}
use libcmatrix.User.{CmUser}

-- a GTask, and the address of its data, the array of users
pub record Task : Type 0 where
  pub number : ℕ
  pub users : ℕ

-- what a task returned: an error, or a pointer to an array, which may be NULL
pub data Outcome : Type 0 where
  failed : Outcome
  pointer : Option ℕ → Outcome

-- `next` is the next free address. `in_flight` are the requests that the network was given and has
-- not answered, `sent` the users of each request so far, and `returned` the tasks that returned.
pub record CmUserList : Type 0 where
  pub users : ℕ → CmUser
  pub arrays : ℕ → List ℕ
  pub next : ℕ
  pub users_table : Table ℕ
  pub changed_users : Table (Option ℕ)
  pub device_request_queue : List Task
  pub current_request : Option Task
  pub is_requesting_device : Bool
  pub in_flight : List Task
  pub sent : List (List String)
  pub returned : List (Task × Outcome)

-- g_ref_string_new_intern, where NULL is ""
unfoldable pub id_text : Option String → String
id_text none = ""
id_text (some s) = s

unfoldable pub user_id_at : CmUserList → ℕ → String
unfolding id_text
user_id_at self ref = id_text (self.users ref).user_id

-- the store with another value at an address
unfoldable pub update {ℓ} : {A : Type ℓ} → (ℕ → A) → ℕ → A → ℕ → A
update f at value i = if i == at then value else f i

abbrev new_user : ℕ → String → CmUser
new_user ref user_id = record {
  ref = ref;
  user_id = some user_id;
  devices = [];
  devices_table = [];
}

unfoldable pub add_user : CmUserList → String → CmUserList
unfolding update
add_user self user_id = record self {
  users = update self.users self.next (new_user self.next user_id);
  next = suc self.next;
  users_table = insert self.users_table user_id self.next;
}

unfoldable pub find_or_create : CmUserList → String → Bool → Option ℕ → Option ℕ × CmUserList
unfolding add_user
find_or_create self user_id create (some ref) = (some ref, self)
find_or_create self user_id true none = (some self.next, add_user self user_id)
find_or_create self user_id false none = (none, self)

unfoldable pub find_user : CmUserList → String → Bool → Option ℕ × CmUserList
unfolding find_or_create
find_user self user_id create =
    if starts_with_at user_id
    then find_or_create self user_id create (lookup self.users_table user_id)
    else (none, self)

unfoldable pub is_nil {ℓ} : {A : Type ℓ} → List A → Bool
is_nil [] = true
is_nil (x ∷ xs) = false

-- cm_user_list_set_account, of an account with a user id at an address
unfoldable pub set_account : CmUserList → String → ℕ → CmUserList
unfolding is_nil
set_account self user_id account =
    if contains self.users_table user_id || not (is_nil self.users_table)
    then self
    else record self { users_table = insert self.users_table user_id account }

unfoldable pub mark_changed : CmUserList → String → Option ℕ → CmUserList
mark_changed self user_id user = record self {
  changed_users = insert self.changed_users user_id user;
}

-- the loop of cm_user_list_device_changed, with the users that `changed` is filled with
unfoldable pub device_changed_loop :
    JsonGlib → CmUserList → List JsonNode → List (Option ℕ) × CmUserList
unfolding find_user mark_changed id_text
device_changed_loop g self [] = ([], self)
device_changed_loop g self (node ∷ nodes) =
    let user_id = id_text (g.get_string node) in
    let (user, found) = find_user self user_id true in
    let (changed, after) = device_changed_loop g (mark_changed found user_id user) nodes in
    (user ∷ changed, after)

unfoldable pub device_changed : JsonGlib → CmUserList → JsonObject → List (Option ℕ) × CmUserList
unfolding device_changed_loop array_elements
device_changed g self root =
    device_changed_loop g self (array_elements (object_get_array (some root) (some "changed")))

-- A claim of keys: the devices of each user, in the order of the table's keys.
abbrev pub Claim : Type 0
Claim = List (String × List CmDevice)

unfoldable pub changed_count : CmUserList → Claim → ℕ
changed_count self [] = 0
changed_count self ((user_id, devices) ∷ claim) =
    let rest = changed_count self claim in
    if contains self.changed_users user_id then suc rest else rest

unfoldable pub claim_devices : List CmDevice → JsonObject → JsonObject
unfolding id_text
claim_devices [] o = o
claim_devices (d ∷ ds) o =
    claim_devices ds (set_member o (id_text d.device_id) (string "signed_curve25519"))

unfoldable pub claim_users : Claim → JsonObject → JsonObject
unfolding claim_devices
claim_users [] child = child
claim_users ((user_id, devices) ∷ claim) child =
    claim_users claim (set_member child user_id (object (claim_devices devices end)))

-- cm_user_list_claim_keys_async: the object that is sent, or CM_ERROR_USER_DEVICE_CHANGED
unfoldable pub claim_keys : CmUserList → Claim → Option JsonObject
unfolding changed_count claim_users
claim_keys self claim =
    if changed_count self claim == 0
    then some (
        set_member (set_member end "timeout" (int (pos 10000))) "one_time_keys"
          (object (claim_users claim end)))
    else none
