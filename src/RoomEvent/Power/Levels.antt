-- ===== src/RoomEvent/Power/Levels.antt =====
-- Which level an action wants, and what a level of 0 means.
use text.Mathlib.Text.{starts_with}
use libcmatrix.Base.{String, ◌≡◌, true, some, List, [], ◌∷◌, arith, All}
use libcmatrix.Base.Int.{ℤ, pos, geb_ℤ, FitsInt, to_int32-FitsInt}
use libcmatrix.Json.{JsonObject}
use libcmatrix.Json.Glib.{JsonGlib}
use libcmatrix.Json.Access.{object_get_int, object_get_object}
use libcmatrix.EventType.{
  CmEventType, get_event_type_str, room_name, room_power_levels, room_history_visibility,
  room_canonical_alias, room_avatar, room_tombstone, room_server_acl, room_encryption,
}
use libcmatrix.RoomEvent.{CmRoomEvent}
use libcmatrix.RoomEvent.Power.{user_power, required_level, user_has_power}

-- the state events whose level the code looks up
abbrev pub state_types : List CmEventType
state_types =
    room_name ∷ room_power_levels ∷ room_history_visibility ∷ room_canonical_alias ∷ room_avatar
    ∷ room_tombstone ∷ room_server_acl ∷ room_encryption ∷ []

module _ (g : JsonGlib) where
  -- The level of each of the eight state events is the number under the text of its type in "events",
  -- which is 0 where none is given, whatever the room's default for state events.
  pub required_level-state_types :
      (content : JsonObject)
      → All
          (λ t.
            required_level g (some content) t
            ≡ object_get_int g
                (object_get_object (some content) (some "events"))
                (get_event_type_str t))
          state_types
  unfolding required_level get_event_type_str object_get_int
  required_level-state_types content = ground arith

  module _ (self : CmRoomEvent) (json content : JsonObject) (user_id : String) (type : CmEventType)
      (user : starts_with user_id "@" ≡ true) (levels : self.event.event_type ≡ room_power_levels)
      (holds : self.json ≡ some json)
      (has : object_get_object (some json) (some "content") ≡ some content) where
    -- A power levels event grants what the level of the user grants.
    pub user_has_power_lem :
        user_has_power g self user_id type
        ≡ geb_ℤ (user_power g (some content) user_id) (required_level g (some content) type)
    unfolding user_has_power
    user_has_power_lem = ground arith

    -- A user whose own level is 0 has every power that the default level gives.
    pub zero_level_power :
        (d : ℤ)
        → object_get_int g (object_get_object (some content) (some "users")) (some user_id) ≡ pos 0
        → object_get_int g (some content) (some "users_default") ≡ d
        → FitsInt d
        → user_has_power g self user_id type ≡ geb_ℤ d (required_level g (some content) type)
    unfolding user_power
    zero_level_power d own def fits =
        rw user_has_power_lem
          (ground (arith, to_int32-FitsInt d fits, to_int32-FitsInt (pos 0) (omega arith)))
