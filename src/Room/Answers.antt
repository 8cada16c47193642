-- ===== src/Room/Answers.antt =====
-- The answers that a room gets, and what else changes what it waits for: the callbacks of
-- src/cm-room.c, cm_room_send_text_async, cm_room_user_changed and room_user_changed.
use mathlib.Core.Bool.{◌||◌, ◌&&◌, not}
use libcmatrix.Base.{
  ℕ, String, Bool, true, false, Option, none, some, List, [], ◌∷◌, ◌++◌, ◌==◌, any, if◌then◌else◌,
}
use libcmatrix.Base.Table.{lookup, insert, contains}
use libcmatrix.Event.{sending_failed, sent, is_some}
use libcmatrix.EventList.Store.{Item}
use libcmatrix.EventList.Merge.{append_event}
use libcmatrix.Room.{
  Message, CmUserKey, CmRoom, Users, send_json, make_call, is_nil, is_encrypted,
  send_message_from_queue,
}

abbrev pub is_member : List ℕ → ℕ → Bool
is_member refs ref = any (λ (r : ℕ). r == ref) refs

-- room_find_user with add_if_missing
unfoldable pub find_user : Users → CmRoom → String → CmRoom
find_user users self id =
    if is_member self.joined_members (users.find id) then self else record self {
      changed_users =
          if is_encrypted self
          then self.changed_users ++ (users.find id ∷ [])
          else self.changed_users;
      joined_members = self.joined_members ++ (users.find id ∷ []);
      joined_members_table = insert self.joined_members_table id (users.find id);
    }

-- a member of the answer
unfoldable pub add_member : Users → CmRoom → String → CmRoom
unfolding find_user is_some
add_member users self id =
    if is_some (lookup self.joined_members_table id) then self else find_user users self id

unfoldable pub add_members : Users → CmRoom → List String → CmRoom
unfolding add_member
add_members users self [] = self
add_members users self (id ∷ ids) = add_members users (add_member users self id) ids

-- g_ptr_array_set_size (keys, 0)
unfoldable pub emptied : Option (List CmUserKey) → Option (List CmUserKey)
emptied none = none
emptied (some keys) = some []

-- send_cb: the task of the message returns
unfoldable pub send_cb : Bool → Message → CmRoom → CmRoom
send_cb error m self = record self {
  is_sending_message = false;
  returned = self.returned ++ (record m { state = if error then sending_failed else sent } ∷ []);
}

module _ (users : Users) (has_key : Bool) where
  -- get_joined_members_cb; an error is `none`, and an answer the ids of "joined"
  unfoldable pub get_joined_members_cb : Option (List String) → CmRoom → CmRoom
  unfolding add_members send_message_from_queue
  get_joined_members_cb none self = record self { joined_members_loading = false }
  get_joined_members_cb (some ids) self =
      send_message_from_queue users has_key (record (add_members users self ids) {
        joined_members_loaded = true;
        joined_members_loading = false;
      })

  -- room_load_device_keys_cb; the list of users leaves `left` of the shared array
  unfoldable pub load_device_keys_cb : Bool → List ℕ → CmRoom → CmRoom
  unfolding send_message_from_queue
  load_device_keys_cb error left self =
      let next = record self { changed_users = left; querying_keys = false } in
      if error then next else send_message_from_queue users has_key next

  -- room_claim_keys_cb; an error is `none`
  unfoldable pub claim_keys_cb : Option (List CmUserKey) → CmRoom → CmRoom
  unfolding send_message_from_queue
  claim_keys_cb none self = record self { one_time_keys = none; claiming_keys = false }
  claim_keys_cb (some keys) self =
      send_message_from_queue users has_key
        (record self { one_time_keys = some keys; claiming_keys = false; keys_claimed = true })

  -- room_upload_keys_cb
  unfoldable pub upload_keys_cb : Bool → CmRoom → CmRoom
  unfolding send_message_from_queue emptied
  upload_keys_cb true self = record self { uploading_keys = false }
  upload_keys_cb false self =
      send_message_from_queue users has_key
        (record self { uploading_keys = false; one_time_keys = emptied self.one_time_keys })

  -- room_send_file_cb; no URI is an error
  unfoldable pub send_file_cb : Bool → Message → CmRoom → CmRoom
  unfolding send_message_from_queue
  send_file_cb false m self =
      send_message_from_queue users has_key
        (record self { is_sending_message = false; returned = self.returned ++ (m ∷ []) })
  send_file_cb true m self = make_call self (send_json m)

  -- cm_room_send_text_async and cm_room_send_file_async of a message that waits; `item` is its event
  unfoldable pub send_async : String → Message → Item → CmRoom → CmRoom
  unfolding send_message_from_queue find_user append_event
  send_async account_id m item self =
      let next = find_user users self account_id in
      send_message_from_queue users has_key (record next {
        room_event = append_event next.room_event item;
        message_queue = next.message_queue ++ (m ∷ []);
      })

-- the loop of cm_room_user_changed
unfoldable pub mark_changed : Users → CmRoom → List ℕ → CmRoom
mark_changed users self [] = self
mark_changed users self (user ∷ changed) =
    mark_changed users
      (if contains self.joined_members_table (users.id user)
          && not (is_member self.changed_users user)
        then record self { changed_users = self.changed_users ++ (user ∷ []) }
        else self)
      changed

-- cm_room_user_changed
unfoldable pub users_changed : Users → CmRoom → List ℕ → CmRoom
unfolding mark_changed
users_changed users self changed =
    if not (is_encrypted self) then self else mark_changed users self changed

-- room_user_changed, with the ids of the devices that were added and removed, and whether it calls
-- cm_enc_rm_room_group_key. The table of devices is searched for the address of the user, which is
-- no key of it.
unfoldable pub user_changed : Users → CmRoom → ℕ → List ℕ → List ℕ → CmRoom × Bool
unfolding is_nil
user_changed users self user added removed =
    if not (is_encrypted self) || not (contains self.joined_members_table (users.id user))
    then (self, false)
    else if not (is_nil removed)
    then (
      record self {
        keys_claimed = false;
        changed_devices = [];
        changed_users = self.joined_members;
      },
      true,
    )
    else if not (is_nil added)
    then (
      record self { changed_devices = insert self.changed_devices (users.id user) added },
      false,
    )
    else (self, false)
