-- ===== src/EventList/Slots/Reads.antt =====
-- cm_room_event_list_get_event against the assignments of cm_room_event_list_parse_events.
use libcmatrix.Base.{◌≡◌, refl, ◌≢◌, true, some, arith}
use libcmatrix.EventType.{
  CmEventType, room_avatar, room_canonical_alias, room_encryption, room_guest_access,
  room_history_visibility, room_join_rules, room_name, room_power_levels, room_topic,
  room_tombstone,
}
use libcmatrix.EventList.Store.{Item}
use libcmatrix.EventList.Defs.{CmRoomEventList}
use libcmatrix.EventList.Slots.{get_event, set_event, is_saved}

reads_other :
    (self : CmRoomEventList) (t u : CmEventType) (x : Item)
    → u ≢ t
    → u ≢ room_name
    → get_event (set_event self t x) u ≡ get_event self u
unfolding get_event set_event
reads_other self room_avatar u x ne name = ground arith
reads_other self room_canonical_alias u x ne name = ground arith
reads_other self room_encryption u x ne name = ground arith
reads_other self room_guest_access u x ne name = ground arith
reads_other self room_history_visibility u x ne name = ground arith
reads_other self room_join_rules u x ne name = ground arith
reads_other self room_name u x ne name = ground arith
reads_other self room_power_levels u x ne name = ground arith
reads_other self room_topic u x ne name = ground arith
reads_other self room_tombstone u x ne name = ground arith
reads_other self _ u x ne name = refl

-- The event that was set last for a saved type is the one that is read back, and what is read for
-- another type is as before: for every type but the room's name.
pub get_event-set_event :
    (self : CmRoomEventList) (t u : CmEventType) (x : Item)
    → is_saved t ≡ true
    → t ≢ room_name
    → u ≢ t
    → u ≢ room_name
    → (get_event (set_event self t x) t ≡ some x)
      × (get_event (set_event self t x) u ≡ get_event self u)
unfolding get_event set_event
get_event-set_event self t u x h ne differs name =
    (ground arith, reads_other self t u x differs name)

-- The room's name reads as the tombstone: setting the name changes no answer, and setting the
-- tombstone sets the name.
pub get_event-room_name :
    (self : CmRoomEventList) (x : Item) (t : CmEventType)
    → (get_event (set_event self room_name x) t ≡ get_event self t)
      × (get_event (set_event self room_tombstone x) room_name ≡ some x)
unfolding get_event set_event
get_event-room_name self x t = ground arith
