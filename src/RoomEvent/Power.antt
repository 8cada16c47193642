-- ===== src/RoomEvent/Power.antt =====
-- cm_room_event_user_has_power of src/events/cm-room-event.c.
pub mod Levels
use mathlib.Core.Bool.{Bool, true, false, ◌&&◌}
use text.Mathlib.Text.{starts_with}
use libcmatrix.Base.{String, Option, none, some, if◌then◌else◌}
use libcmatrix.Base.Int.{ℤ, pos, is_zero, to_int32, geb_ℤ}
use libcmatrix.Json.{JsonObject}
use libcmatrix.Json.Glib.{JsonGlib}
use libcmatrix.Json.Access.{object_get_int, object_get_object, object_has_member}
use libcmatrix.EventType.{CmEventType}
use libcmatrix.RoomEvent.{CmRoomEvent}

abbrev is_power_levels : CmEventType → Bool
is_power_levels CmEventType.room_power_levels = true
is_power_levels _ = false

module _ (g : JsonGlib) where
  -- the level of a user, an `int`; a level of 0 counts as none
  unfoldable pub user_power : Option JsonObject → String → ℤ
  user_power content user_id =
      let own =
        to_int32 (object_get_int g (object_get_object content (some "users")) (some user_id)) in
      if is_zero own then to_int32 (object_get_int g content (some "users_default")) else own

  -- the level of invite, ban and kick, 50 where the content has none
  unfoldable pub action_level : Option JsonObject → String → ℤ
  action_level content name =
      if object_has_member content (some name) then object_get_int g content (some name) else pos 50

  -- the level that an event of the type wants
  unfoldable pub required_level : Option JsonObject → CmEventType → ℤ
  unfolding action_level
  required_level content type =
      let level = λ (name : String).
        object_get_int g (object_get_object content (some "events")) (some name) in
      elim type [
        | CmEventType.room_name ↦ level "m.room.name"
        | CmEventType.room_power_levels ↦ level "m.room.power_levels"
        | CmEventType.room_history_visibility ↦ level "m.room.history_visibility"
        | CmEventType.room_canonical_alias ↦ level "m.room.canonical_alias"
        | CmEventType.room_avatar ↦ level "m.room.avatar"
        | CmEventType.room_tombstone ↦ level "m.room.tombstone"
        | CmEventType.room_server_acl ↦ level "m.room.server_acl"
        | CmEventType.room_encryption ↦ level "m.room.encryption"
        | CmEventType.room_invite ↦ action_level content "invite"
        | CmEventType.room_ban ↦ action_level content "ban"
        | CmEventType.room_kick ↦ action_level content "kick"
        | _ ↦ object_get_int g content (some "events_default")
      ]

  unfoldable pub json_has_power : JsonObject → String → CmEventType → Bool
  json_has_power json user_id type =
      let content = object_get_object (some json) (some "content") in
      geb_ℤ (user_power content user_id) (required_level content type)

  -- FALSE for what is no user id, and for an event that is no power levels event
  unfoldable pub user_has_power : CmRoomEvent → String → CmEventType → Bool
  unfolding json_has_power
  user_has_power self user_id type =
      if starts_with user_id "@" && is_power_levels self.event.event_type
      then elim self.json [ none ↦ false | some json ↦ json_has_power json user_id type ]
      else false
