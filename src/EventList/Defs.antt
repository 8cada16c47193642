-- ===== src/EventList/Defs.antt =====
-- CmRoomEventList of src/events/cm-room-event-list.c: its state, and what it asks of its room.
use mathlib.Core.Bool.{Bool, false}
use libcmatrix.Base.{String, Option, none, List, []}
use libcmatrix.Json.{JsonObject}
use libcmatrix.Event.{Sender}
use libcmatrix.EventList.Store.{Item}

-- what the list asks of its room and of the encryption
pub record Room : Type 0 where
  -- whether cm_room_get_client and cm_client_get_enc give an object
  pub has_client : Bool
  pub has_enc : Bool
  -- the user that cm_room_find_user (room, id, TRUE) returns
  pub find_user : Option String → Option Sender
  -- cm_enc_handle_join_room_encrypted, and the parse of its text
  pub decrypt : Option JsonObject → Option JsonObject
  pub name : Option String
  pub is_direct : Bool
  pub is_encrypted : Bool

pub record CmRoomEventList : Type 0 where
  pub events_list : List Item
  pub canonical_alias_event : Option Item
  pub encryption_event : Option Item
  pub guest_access_event : Option Item
  pub history_visibility_event : Option Item
  pub join_rules_event : Option Item
  pub power_level_event : Option Item
  pub room_avatar_event : Option Item
  pub room_create_event : Option Item
  pub room_name_event : Option Item
  pub room_topic_event : Option Item
  pub tombstone_event : Option Item
  pub local_json : Option JsonObject
  pub save_pending : Bool

abbrev pub empty_list : CmRoomEventList
empty_list = record {
  events_list = [];
  canonical_alias_event = none;
  encryption_event = none;
  guest_access_event = none;
  history_visibility_event = none;
  join_rules_event = none;
  power_level_event = none;
  room_avatar_event = none;
  room_create_event = none;
  room_name_event = none;
  room_topic_event = none;
  tombstone_event = none;
  local_json = none;
  save_pending = false;
}
