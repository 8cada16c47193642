-- ===== src/EventList/Slots.antt =====
-- The state events that CmRoomEventList keeps, and the "local" object in which it saves them.
pub mod Reads
use mathlib.Core.Bool.{Bool, true, false}
use libcmatrix.Base.{String, Option, none, some, if◌then◌else◌}
use libcmatrix.Base.Int.{pos}
use libcmatrix.Json.{
  JsonNode, JsonObject, null, boolean, int, string, object, end, member, set_member,
}
use libcmatrix.Json.Access.{object_get_object}
use libcmatrix.EventType.{
  CmEventType, get_event_type_str, room_avatar, room_canonical_alias, room_create, room_encryption,
  room_guest_access, room_history_visibility, room_join_rules, room_name, room_power_levels,
  room_tombstone, room_topic,
}
use libcmatrix.EventList.Store.{Item}
use libcmatrix.EventList.Defs.{Room, CmRoomEventList}

-- cm_room_event_list_get_event
unfoldable pub get_event : CmRoomEventList → CmEventType → Option Item
get_event self room_canonical_alias = self.canonical_alias_event
get_event self room_encryption = self.encryption_event
get_event self room_guest_access = self.guest_access_event
get_event self room_history_visibility = self.history_visibility_event
get_event self room_join_rules = self.join_rules_event
get_event self room_power_levels = self.power_level_event
get_event self room_avatar = self.room_avatar_event
get_event self room_create = self.room_create_event
get_event self room_name = self.tombstone_event
get_event self room_topic = self.room_topic_event
get_event self room_tombstone = self.tombstone_event
get_event self type = none

-- the assignments of cm_room_event_list_parse_events
unfoldable pub set_event : CmRoomEventList → CmEventType → Item → CmRoomEventList
set_event self room_avatar x = record self { room_avatar_event = some x }
set_event self room_canonical_alias x = record self { canonical_alias_event = some x }
set_event self room_encryption x = record self { encryption_event = some x }
set_event self room_guest_access x = record self { guest_access_event = some x }
set_event self room_history_visibility x = record self { history_visibility_event = some x }
set_event self room_join_rules x = record self { join_rules_event = some x }
set_event self room_name x = record self { room_name_event = some x }
set_event self room_power_levels x = record self { power_level_event = some x }
set_event self room_topic x = record self { room_topic_event = some x }
set_event self room_tombstone x = record self { tombstone_event = some x }
set_event self type x = self

-- the types that are written to the local object
abbrev pub is_saved : CmEventType → Bool
is_saved room_avatar = true
is_saved room_canonical_alias = true
is_saved room_encryption = true
is_saved room_guest_access = true
is_saved room_history_visibility = true
is_saved room_join_rules = true
is_saved room_name = true
is_saved room_power_levels = true
is_saved room_topic = true
is_saved room_tombstone = true
is_saved type = false

unfoldable pub node_of : Option JsonObject → JsonNode
node_of none = null
node_of (some o) = object o

-- json_object_set_object_member (local, event_m_type_str (type), cm_event_get_json (event))
unfoldable pub save_event : JsonObject → Item → JsonObject
unfolding node_of
save_event child x = elim (get_event_type_str x.event.event.event_type) [
  | none ↦ child
  | some name ↦ set_member child name (node_of x.event.event.json)
]

-- set_local_json_event: the child is changed in its place
unfoldable pub set_local_json_event : Option JsonObject → Item → Option JsonObject
unfolding save_event
set_local_json_event none x = none
set_local_json_event (some json) x = elim (object_get_object (some json) (some "local")) [
  | none ↦ some json
  | some child ↦ some (set_member json "local" (object (save_event child x)))
]

-- set_json_from_event
unfoldable pub set_json_from_event : Option Item → JsonObject → JsonObject
unfolding save_event
set_json_from_event none child = child
set_json_from_event (some x) child = save_event child x

unfoldable pub string_node : Option String → JsonNode
string_node none = null
string_node (some s) = string s

-- the "local" object of room_event_list_generate_json
unfoldable pub generate_local : Room → CmRoomEventList → JsonObject
unfolding set_json_from_event string_node
generate_local room self =
    let basic =
      set_member
        (set_member
          (set_member (set_member end "alias" (string_node room.name)) "last_alias"
            (string_node room.name))
          "direct" (boolean room.is_direct))
        "encryption" (int (pos (if room.is_encrypted then 1 else 0))) in
    set_json_from_event self.tombstone_event (
      set_json_from_event self.room_topic_event (
        set_json_from_event self.room_name_event (
          set_json_from_event self.room_create_event (
            set_json_from_event self.room_avatar_event (
              set_json_from_event self.power_level_event (
                set_json_from_event self.join_rules_event (
                  set_json_from_event self.history_visibility_event (
                    set_json_from_event self.guest_access_event (
                      set_json_from_event self.encryption_event
                        (set_json_from_event self.canonical_alias_event basic))))))))))

-- cm_room_event_list_get_local_json: the object is made at the first call
unfoldable pub get_local_json : Room → CmRoomEventList → CmRoomEventList × JsonObject
unfolding generate_local
get_local_json room self = elim self.local_json [
  | some json ↦ (self, json)
  | none ↦
      let json = member "local" (object (generate_local room self)) end in
      (record self { local_json = some json }, json)
]
