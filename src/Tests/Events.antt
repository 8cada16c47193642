-- ===== src/Tests/Events.antt =====
-- Events read from small objects, and the errors of a server.
use mathlib.Core.List.{Mem, mem-cons_of_mem, mem-cons_self}
use libcmatrix.Base.{◌≡◌, ◌≤◌, refl, none, some, String}
use libcmatrix.Base.Int.{pos}
use libcmatrix.Json.{JsonObject, int, string, object, end, member, get_member}
use libcmatrix.Json.Sample.{sample}
use libcmatrix.Json.Access.{find_member, object_get_string}
use libcmatrix.Error.{or_unknown, CmError, name, value, json_node_get_error}
use libcmatrix.Error.Codes.{known_error, json_node_get_error_range}
use libcmatrix.EventType.{
  handled_types, room_topic, room_message, reaction, room_redaction, room_member, room_power_levels,
}
use libcmatrix.Event.{empty_event}
use libcmatrix.RoomEvent.{
  CmRoomEvent, empty_room_event, room_event_new_from_json, set_room_json, new_object,
}

abbrev forbidden : JsonObject
forbidden = member "errcode" (string "M_FORBIDDEN") (member "error" (string "no") end)

forbidden_error :
    json_node_get_error sample (some (object forbidden))
    ≡ some (record { code = 1; message = "no" })
unfolding name value or_unknown object_get_string find_member get_member
forbidden_error = known_error sample forbidden CmError.forbidden (some "no") refl refl

json_node_get_error_range_example : (1 ≤ 1) × (1 ≤ 32)
json_node_get_error_range_example =
    json_node_get_error_range sample (some (object forbidden)) (record { code = 1; message = "no" })
      forbidden_error

handles_topic : Mem room_topic handled_types
handles_topic = mem-cons_of_mem room_message (
    mem-cons_of_mem room_member
      (mem-cons_of_mem reaction (mem-cons_of_mem room_redaction mem-cons_self)))

abbrev typed : String → JsonObject → JsonObject
typed type rest = member "type" (string type) rest

abbrev topic : JsonObject
topic = typed "m.room.topic" (member "event_id" (string "$1") end)

abbrev encrypted : JsonObject
encrypted =
    typed "m.room.encrypted" (member "event_id" (string "$2") (member "sender" (string "@a") end))

abbrev accept : JsonObject
accept = typed "m.key.verification.accept" end

abbrev encryption_event : JsonObject
encryption_event =
    typed "m.room.encryption"
      (member "content" (object (member "algorithm" (string "m.megolm.v1.aes-sha2") end)) end)

abbrev made_of : JsonObject → CmRoomEvent
made_of root = set_room_json sample (new_object sample (some root)) (some root) none

is_made :
    (root : JsonObject) → room_event_new_from_json sample (some root) none ≡ some (made_of root)
unfolding room_event_new_from_json
is_made root = refl

abbrev invitation : JsonObject
invitation = typed "m.room.member" (
    member "sender" (string "@a") (
      member "state_key" (string "@b")
        (member "content" (object (member "membership" (string "invite") end)) end)))

-- the level of "@a" is 0, and the default is 100
abbrev levels_content : JsonObject
levels_content =
    member "users" (object (member "@a" (int (pos 0)) end))
      (member "users_default" (int (pos 100)) end)

abbrev levels_json : JsonObject
levels_json = member "content" (object levels_content) end

abbrev levels_event : CmRoomEvent
levels_event = record empty_room_event {
  event = record empty_event { event_type = room_power_levels };
  json = some levels_json;
}
