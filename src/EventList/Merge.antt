-- ===== src/EventList/Merge.antt =====
-- cm_room_event_list_add_events and remove_event_with_txn_id of src/events/cm-room-event-list.c.
pub mod Echo
pub mod Fresh
use mathlib.Core.List.{reverse}
use mathlib.Core.Bool.{Bool, ◌||◌, not}
use libcmatrix.Base.{String, Option, none, some, List, [], ◌∷◌, ◌++◌, map, if◌then◌else◌}
use libcmatrix.Base.Text.{strcmp0_eq}
use libcmatrix.Event.{is_some, Sender, get_sender_id, set_sender}
use libcmatrix.EventList.Store.{Item, remove_list_item, get_last_item}
use libcmatrix.EventList.Defs.{Room, CmRoomEventList}

abbrev pub txn_of : Item → Option String
txn_of x = x.event.event.txn_id

abbrev pub id_of : Item → Option String
id_of x = x.event.event.event_id

-- the first item with the transaction id, which is not NULL
unfoldable pub first_with_txn : String → List Item → Option Item
first_with_txn txn [] = none
first_with_txn txn (x ∷ xs) =
    if strcmp0_eq (some txn) (txn_of x) then some x else first_with_txn txn xs

-- The list is searched from its end.
unfoldable pub remove_event_with_txn_id : CmRoomEventList → Option String → CmRoomEventList
unfolding first_with_txn
remove_event_with_txn_id self none = self
remove_event_with_txn_id self (some txn) = elim (first_with_txn txn (reverse self.events_list)) [
  | none ↦ self
  | some x ↦ record self { events_list = (remove_list_item self.events_list (some x.ref)).0 }
]

-- `cm_event_set_sender (event, user)` where `user` may be NULL
abbrev pub with_sender : Item → Option Sender → Item
with_sender x none = x
with_sender x (some user) = record x {
  event = record x.event { event = set_sender x.event.event user };
}

-- the senders of the events that have none
unfoldable pub find_sender : Room → Item → Item
find_sender room x = elim x.event.event.sender [
  | some old ↦ x
  | none ↦
      if room.has_client then with_sender x (room.find_user (get_sender_id x.event.event)) else x
]

-- the ids for which cm_room_find_user is called on the way
unfoldable pub asked : Room → List Item → List (Option String)
asked room [] = []
asked room (x ∷ xs) =
    let rest = asked room xs in
    if is_some x.event.event.sender || not room.has_client
    then rest
    else get_sender_id x.event.event ∷ rest

-- the loop that takes out the events with the id of the last event; two NULL ids are equal
unfoldable pub without_id : Option String → List Item → List Item
without_id id [] = []
without_id id (x ∷ xs) =
    let rest = without_id id xs in if strcmp0_eq (id_of x) id then rest else x ∷ rest

unfoldable pub new_events : List Item → List Item → List Item
unfolding without_id
new_events old events = elim (get_last_item old) [
  | none ↦ events
  | some last ↦ without_id (id_of last) events
]

-- cm_room_event_list_add_events: the list, and the array of events as the call leaves it
unfoldable pub add_events : Room → CmRoomEventList → List Item → Bool → CmRoomEventList × List Item
unfolding new_events find_sender
add_events room self [] append = (self, [])
add_events room self (x ∷ xs) append =
    let fresh = new_events self.events_list (map (find_sender room) (x ∷ xs)) in
    (
      record self {
        events_list =
            if append then self.events_list ++ fresh else reverse fresh ++ self.events_list;
      },
      fresh,
    )

unfoldable pub append_event : CmRoomEventList → Item → CmRoomEventList
append_event self x = record self { events_list = self.events_list ++ x ∷ [] }
