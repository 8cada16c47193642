-- ===== src/Room.antt =====
-- A room as it sends messages: src/cm-room.c. Users and devices are addresses; the calls that were made
-- and not answered are a list.
pub mod Answers
pub mod Name
pub mod Members
pub mod Counted
pub mod Order
pub mod Course
pub mod Reached
pub mod Ordered
pub mod Quiet
pub mod Served
pub mod Progress
pub mod Changes
pub mod Failures
pub mod Keying
use mathlib.Core.Bool.{◌||◌, ◌&&◌, not}
use libcmatrix.Base.{
  ℕ, String, Bool, true, false, Option, none, some, List, [], ◌∷◌, ◌++◌, ◌==◌, if◌then◌else◌,
}
use libcmatrix.Base.Table.{Table, lookup, insert, remove, contains}
use libcmatrix.Event.{CmEventState, waiting, sending, is_some}
use libcmatrix.EventType.{room_encryption}
use libcmatrix.EventList.Defs.{CmRoomEventList}
use libcmatrix.EventList.Slots.{get_event}

-- the task of a message: the transaction id, the kind and the state of its event. The id that the server
-- gives to the event, and the row of the database, are not kept here.
pub record Message : Type 0 where
  pub txn_id : ℕ
  pub is_file : Bool
  pub state : CmEventState

-- CmUserKey: a user, the devices and the keys that were claimed for them, where a key may be NULL
pub record CmUserKey : Type 0 where
  pub user : ℕ
  pub devices : List ℕ
  pub keys : List (Option String)

-- What a room asks of the network and of the list of users, and what it waits for.
pub data Call : Type 0 where
  load_members : Call
  load_devices : List ℕ → Call
  claim_keys : Table (List ℕ) → Call
  upload_keys : List CmUserKey → Call
  put_file : Bool → Message → Call
  send_json : Message → Call

-- `calls` are the calls that wait for an answer, `returned` the messages whose task has returned.
pub record CmRoom : Type 0 where
  pub room_event : CmRoomEventList
  pub encryption : Option String
  pub joined_members : List ℕ
  pub joined_members_table : Table ℕ
  pub invited_members : List ℕ
  pub invited_members_table : Table ℕ
  pub name : Option String
  pub generated_name : Option String
  pub past_name : Option String
  pub db_save_pending : Bool
  pub changed_users : List ℕ
  pub changed_devices : Table (List ℕ)
  pub one_time_keys : Option (List CmUserKey)
  pub message_queue : List Message
  pub retry_timeout_id : ℕ
  pub is_sending_message : Bool
  pub joined_members_loading : Bool
  pub joined_members_loaded : Bool
  pub querying_keys : Bool
  pub claiming_keys : Bool
  pub keys_claimed : Bool
  pub uploading_keys : Bool
  pub calls : List Call
  pub returned : List Message

-- the users as the room sees them: cm_user_list_find_user with add_if_missing, cm_user_get_id,
-- cm_user_get_display_name and cm_user_get_devices
pub record Users : Type 0 where
  pub find : String → ℕ
  pub id : ℕ → String
  pub display_name : ℕ → Option String
  pub devices : ℕ → List ℕ

unfoldable pub is_nil {ℓ} : {A : Type ℓ} → List A → Bool
is_nil [] = true
is_nil (x ∷ xs) = false

-- `one_time_keys && one_time_keys->len`
unfoldable pub keys_left : Option (List CmUserKey) → Bool
keys_left none = false
keys_left (some []) = false
keys_left (some (k ∷ ks)) = true

-- cm_room_is_encrypted
unfoldable pub is_encrypted : CmRoom → Bool
unfolding is_some get_event
is_encrypted self = is_some self.encryption || is_some (get_event self.room_event room_encryption)

-- a call to the network or the list of users
abbrev pub make_call : CmRoom → Call → CmRoom
make_call self call = record self { calls = self.calls ++ (call ∷ []) }

-- cm_room_load_joined_members_async
unfoldable pub load_joined_members_async : CmRoom → CmRoom
load_joined_members_async self =
    if self.joined_members_loaded || self.joined_members_loading
    then self
    else make_call (record self { joined_members_loading = true }) load_members

-- the devices of every member, under the member's id
unfoldable pub member_devices : Users → List ℕ → Table (List ℕ) → Table (List ℕ)
member_devices users [] table = table
member_devices users (m ∷ ms) table =
    member_devices users ms (insert table (users.id m) (users.devices m))

-- the claim of keys in ensure_encryption_keys
unfoldable pub claim : Users → CmRoom → CmRoom
unfolding member_devices is_nil
claim users self =
    if not (is_nil self.changed_devices)
    then make_call (record self { claiming_keys = true; changed_devices = [] })
        (claim_keys self.changed_devices)
    else make_call (record self { claiming_keys = true })
        (claim_keys (member_devices users self.joined_members []))

-- the upload of keys in ensure_encryption_keys
unfoldable pub upload : CmRoom → Option (List CmUserKey) → CmRoom
upload self none = self
upload self (some []) = self
upload self (some (k ∷ ks)) =
    make_call (record self { uploading_keys = true }) (upload_keys (k ∷ ks))

-- the next step towards the keys of the members, when no step is being taken
unfoldable pub next_step : Users → CmRoom → CmRoom
unfolding load_joined_members_async claim upload is_nil
next_step users self =
    if not self.joined_members_loaded
    then load_joined_members_async self
    else if not (is_nil self.changed_users)
    then make_call (record self { querying_keys = true; keys_claimed = false })
        (load_devices self.changed_users)
    else if not self.keys_claimed || not (is_nil self.changed_devices)
    then claim users self
    else upload self self.one_time_keys

unfoldable pub is_waiting : CmRoom → Bool
is_waiting self =
    self.joined_members_loading
    || (self.querying_keys || (self.claiming_keys || self.uploading_keys))

-- ensure_encryption_keys
unfoldable pub ensure_encryption_keys : Users → CmRoom → CmRoom
unfolding next_step is_waiting is_encrypted
ensure_encryption_keys users self =
    if not (is_encrypted self) then self else if is_waiting self then self else next_step users self

-- the message is given to the network
unfoldable pub send_message : CmRoom → Message → CmRoom
send_message self m =
    if m.is_file
    then make_call self (put_file (is_encrypted self) m)
    else make_call self (send_json (record m { state = sending }))

-- whether an encrypted message can be sent; `has_key` is cm_enc_has_room_group_key
unfoldable pub has_keys : Bool → CmRoom → Bool
unfolding is_nil keys_left
has_keys has_key self = not (
    not has_key
    || (not (is_nil self.changed_users) || (not self.keys_claimed || keys_left self.one_time_keys)))

unfoldable pub send_head : Users → Bool → CmRoom → List Message → CmRoom
unfolding ensure_encryption_keys send_message has_keys
send_head users has_key self [] = self
send_head users has_key self (m ∷ queue) =
    if self.is_sending_message || not (self.retry_timeout_id == 0)
    then self
    else if is_encrypted self && not (has_keys has_key self)
    then ensure_encryption_keys users self
    else send_message (record self { is_sending_message = true; message_queue = queue }) m

-- room_send_message_from_queue
unfoldable pub send_message_from_queue : Users → Bool → CmRoom → CmRoom
unfolding send_head
send_message_from_queue users has_key self = send_head users has_key self self.message_queue
