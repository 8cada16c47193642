-- ===== src/RoomEvent/Laws.antt =====
-- What cm_room_event_new_from_json reads of encryption, member and message events.
use Prim.Native.Nat.{◌<◌}
use libcmatrix.Base.{◌≡◌, refl, Bool, true, false, if◌then◌else◌, none, some, arith}
use libcmatrix.Base.Text.{strcmp0_eq}
use libcmatrix.Json.{JsonObject}
use libcmatrix.Json.Glib.{JsonGlib}
use libcmatrix.Json.Access.{object_get_string, object_get_object}
use libcmatrix.EventType.{first_match, handled_types, room_encryption, room_member}
use libcmatrix.Event.{empty_event, get_state_key, get_sender_id}
use libcmatrix.Event.Laws.{set_json_found}
use libcmatrix.RoomEvent.{
  CmRoomEvent, CmStatus, invite, status_of, room_event_new_from_json, get_encryption,
  get_rotation_count, get_rotation_time, get_status,
}

encryption_found : first_match handled_types (some "m.room.encryption") ≡ some room_encryption
unfolding first_match
encryption_found = refl

member_found : first_match handled_types (some "m.room.member") ≡ some room_member
unfolding first_match
member_found = refl

no_message :
    (strcmp0_eq (some "m.room.encryption") (some "m.room.message") ≡ false)
    × (strcmp0_eq (some "m.room.member") (some "m.room.message") ≡ false)
unfolding strcmp0_eq
no_message = (refl, refl)

abbrev is_invite : CmStatus → Bool
is_invite invite = true
is_invite _ = false

module _ (g : JsonGlib) (root : JsonObject) where
  -- An encryption event made from an object has the object's algorithm, and rotation limits that
  -- are not 0.
  pub new_encryption_event :
      (e : CmRoomEvent)
      → object_get_string g (some root) (some "type") ≡ some "m.room.encryption"
      → room_event_new_from_json g (some root) none ≡ some e
      → (get_encryption e
          ≡ object_get_string g (object_get_object (some root) (some "content")) (some "algorithm"))
        × (0 < get_rotation_count e)
        × (0 < get_rotation_time e)
  unfolding room_event_new_from_json get_encryption get_rotation_count get_rotation_time
  new_encryption_event e h made = ground (
    arith,
    no_message.0,
    (set_json_found g empty_event root room_encryption "m.room.encryption" h encryption_found).0,
  )

  -- A member event made from an object has the status that "membership" names. Its member is the
  -- state key of an invitation, and otherwise the sender.
  pub new_member_event :
      (e : CmRoomEvent)
      → object_get_string g (some root) (some "type") ≡ some "m.room.member"
      → room_event_new_from_json g (some root) none ≡ some e
      → let content = object_get_object (some root) (some "content") in
        let status = status_of (object_get_string g content (some "membership")) in
        (get_status e ≡ status)
        × (e.member_id ≡ (
            if is_invite status
            then get_state_key e.event
            else object_get_string g (some root) (some "sender")))
  unfolding room_event_new_from_json get_status get_sender_id
  new_member_event e h made = ground (
    arith,
    no_message.1,
    set_json_found g empty_event root room_member "m.room.member" h member_found,
  )
