-- ===== src/EventList/Load.antt =====
-- cm_room_event_list_set_local_json of src/events/cm-room-event-list.c: the state events of a room
-- that was saved.
pub mod Saved
use libcmatrix.Base.{ℕ, ◌+◌, String, Bool, Option, none, some, List, [], ◌∷◌, ◌++◌}
use libcmatrix.Json.{JsonObject}
use libcmatrix.Json.Glib.{JsonGlib}
use libcmatrix.Json.Access.{object_get_object}
use libcmatrix.EventType.{
  CmEventType, get_event_type_str, room_avatar, room_canonical_alias, room_create, room_encryption,
  room_guest_access, room_history_visibility, room_join_rules, room_name, room_power_levels,
  room_tombstone, room_topic,
}
use libcmatrix.RoomEvent.{CmRoomEvent, room_event_new_from_json}
use libcmatrix.EventList.Store.{Item}
use libcmatrix.EventList.Defs.{CmRoomEventList}

unfoldable pub item_at : ℕ → Option CmRoomEvent → Option Item
item_at ref none = none
item_at ref (some e) = some (record { ref = ref; event = e })

unfoldable pub append_last : List Item → Option Item → List Item
append_last items none = items
append_last items (some last) = items ++ last ∷ []

module _ (g : JsonGlib) where
  -- set_event_from_json; `ref` is the address of the new object
  unfoldable pub load_event : Option JsonObject → ℕ → CmEventType → Option Item → Option Item
  unfolding item_at
  load_event local ref type old = elim (object_get_object local (get_event_type_str type)) [
    | none ↦ old
    | some child ↦ item_at ref (room_event_new_from_json g (some child) none)
  ]

  unfoldable pub load_events : Option JsonObject → ℕ → CmRoomEventList → CmRoomEventList
  unfolding load_event
  load_events local ref self = record self {
    canonical_alias_event = load_event local ref room_canonical_alias self.canonical_alias_event;
    encryption_event = load_event local (ref + 1) room_encryption self.encryption_event;
    guest_access_event = load_event local (ref + 2) room_guest_access self.guest_access_event;
    history_visibility_event =
        load_event local (ref + 3) room_history_visibility self.history_visibility_event;
    join_rules_event = load_event local (ref + 4) room_join_rules self.join_rules_event;
    power_level_event = load_event local (ref + 5) room_power_levels self.power_level_event;
    room_avatar_event = load_event local (ref + 6) room_avatar self.room_avatar_event;
    room_create_event = load_event local (ref + 7) room_create self.room_create_event;
    room_name_event = load_event local (ref + 8) room_name self.room_name_event;
    room_topic_event = load_event local (ref + 9) room_topic self.room_topic_event;
    tombstone_event = load_event local (ref + 10) room_tombstone self.tombstone_event;
  }

  unfoldable pub set_root_json : Option JsonObject → ℕ → CmRoomEventList → CmRoomEventList
  unfolding load_events
  set_root_json none ref self = self
  set_root_json (some root) ref self =
      load_events (object_get_object (some root) (some "local")) ref
        (record self { local_json = some root })

  -- once, and before there are events
  unfoldable pub set_local_json :
      CmRoomEventList → Option JsonObject → Option Item → ℕ → CmRoomEventList
  unfolding set_root_json append_last
  set_local_json self root last ref = elim self.local_json [
    | some old ↦ self
    | none ↦ elim self.events_list [
      | [] ↦ set_root_json root ref (record self { events_list = append_last [] last })
      | x ∷ xs ↦ self
    ]
  ]
