-- ===== src/EventList/Parse.antt =====
-- cm_room_event_list_parse_events of src/events/cm-room-event-list.c: the events of a sync or of a
-- page of history.
pub mod Past
use mathlib.Core.Bool.{Bool, true, false, not, ◌&&◌}
use libcmatrix.Base.{ℕ, suc, String, Option, none, some, List, [], ◌∷◌, ◌++◌, map, if◌then◌else◌}
use libcmatrix.Base.Text.{strcmp0_eq}
use libcmatrix.Json.{JsonNode, JsonObject, elements}
use libcmatrix.Json.Glib.{JsonGlib}
use libcmatrix.Json.Access.{object_get_string, object_get_object, object_get_array, as_object}
use libcmatrix.EventType.{CmEventType}
use libcmatrix.Event.{get_sender_id, is_some}
use libcmatrix.Event.Json.{or_else}
use libcmatrix.RoomEvent.{CmRoomEvent, room_event_new_from_json, get_room_name}
use libcmatrix.EventList.Store.{Item}
use libcmatrix.EventList.Defs.{Room, CmRoomEventList}
use libcmatrix.EventList.Merge.{remove_event_with_txn_id, with_sender, add_events, asked, txn_of}
use libcmatrix.EventList.Slots.{set_event, is_saved, set_local_json_event}

-- what is asked of the room and done to it; `find_user` is cm_room_find_user (room, id, TRUE), which makes
-- an unknown user a member of the room
pub data RoomCall : Type 0 where
  find_user : Option String → RoomCall
  set_name : Option String → RoomCall
  update_user : Item → RoomCall
  notify_name notify_encrypted : RoomCall

-- The variables of the loop: the list, the array of events or NULL, the calls made, and the address
-- of the next object.
pub record Parse : Type 0 where
  pub list : CmRoomEventList
  pub events : Option (List Item)
  pub calls : List RoomCall
  pub next : ℕ

-- event_list_decrypt
unfoldable pub event_list_decrypt : Room → Option JsonObject → Option JsonObject
event_list_decrypt room none = none
event_list_decrypt room (some root) =
    if room.has_enc then room.decrypt (object_get_object (some root) (some "content")) else none

-- the calls for a state event, in the order in which they are made
unfoldable pub room_calls : CmEventType → Item → List RoomCall
room_calls CmEventType.room_name x = set_name (get_room_name x.event) ∷ []
room_calls CmEventType.room_member x = update_user x ∷ []
room_calls CmEventType.room_avatar x = notify_name ∷ []
room_calls CmEventType.room_encryption x = notify_encrypted ∷ []
room_calls type x = []

unfoldable pub save_if : Bool → CmRoomEventList → Item → CmRoomEventList
save_if true self x = record self {
  local_json = set_local_json_event self.local_json x;
  save_pending = true;
}
save_if false self x = self

-- an event that is not of the past changes the state of the room
unfoldable pub apply_state : Item → Parse → Parse
unfolding save_if
apply_state x p =
    let type = x.event.event.event_type in
    record p {
      list = save_if (is_saved type) (set_event p.list type x) x;
      calls = p.calls ++ room_calls type x;
    }

-- a sent message that comes back takes the place of the one that waits in the list
unfoldable pub collect : Item → Parse → Parse
collect x p = elim p.events [
  | none ↦ p
  | some events ↦ record p {
    list =
        if x.event.is_message && is_some (txn_of x)
        then remove_event_with_txn_id p.list (txn_of x)
        else p.list;
    events = some (events ++ x ∷ []);
  }
]

-- one round, for an event that was made
unfoldable pub parse_event : Bool → Item → Parse → Parse
unfolding collect apply_state
parse_event past x p = if past then collect x p else apply_state x (collect x p)

module _ (g : JsonGlib) (room : Room) where
  -- the event of an element, which may be no object
  unfoldable pub new_event : Option JsonObject → Option CmRoomEvent
  unfolding event_list_decrypt
  new_event child =
      if strcmp0_eq (object_get_string g child (some "type")) (some "m.room.encrypted")
      then room_event_new_from_json g (event_list_decrypt room child) child
      else room_event_new_from_json g child none

  unfoldable pub parse_made : Bool → Option CmRoomEvent → Parse → Parse
  unfolding parse_event
  parse_made past none p = p
  parse_made past (some e) p =
      let made : Item = record { ref = p.next; event = e } in
      parse_event past (with_sender made (room.find_user (get_sender_id e.event)))
        (record p { next = suc p.next; calls = p.calls ++ find_user (get_sender_id e.event) ∷ [] })

  unfoldable pub parse_loop : Bool → List JsonNode → Parse → Parse
  unfolding parse_made
  parse_loop past [] p = p
  parse_loop past (node ∷ nodes) p =
      parse_loop past nodes (parse_made past (new_event (as_object node)) p)

  unfoldable pub event_array : JsonObject → List JsonNode
  unfolding or_else
  event_array root =
      elim (or_else (object_get_array (some root) (some "events"))
        (object_get_array (some root) (some "chunk"))) [ none ↦ [] | some array ↦ elements array ]

  -- the events that were collected are added to the list
  unfoldable pub add_collected : Bool → Parse → Parse
  unfolding asked
  add_collected past p = elim p.events [
    | none ↦ p
    | some events ↦
        let (list, left) = add_events room p.list events (not past) in
        record p {
          list = list;
          events = some left;
          calls = p.calls ++ map find_user (asked room events);
        }
  ]

  -- Without an array for the events, they are state events and cannot be of the past.
  unfoldable pub parse_events : Option JsonObject → Bool → Parse → Parse
  unfolding parse_loop event_array add_collected
  parse_events none past p = p
  parse_events (some root) past p =
      if past && not (is_some p.events)
      then p
      else add_collected past (parse_loop past (event_array root) p)
