-- ===== src/RoomEvent.antt =====
-- CmRoomEvent of src/events/cm-room-event.c, with what cm_room_message_event_new_from_json of
-- src/events/cm-room-message-event.c reads.
pub mod Power
pub mod Laws
use mathlib.Core.Bool.{Bool, true, false, not, ◌&&◌, ◌||◌}
use libcmatrix.Base.{ℕ, String, Option, none, some, ◌==◌, if◌then◌else◌}
use libcmatrix.Base.Int.{ℤ, to_uint32}
use libcmatrix.Base.Text.{strcmp0_eq}
use libcmatrix.Json.{JsonObject}
use libcmatrix.Json.Glib.{JsonGlib}
use libcmatrix.Json.Access.{object_get_string, object_get_int, object_get_object}
use libcmatrix.EventType.{
  CmEventType, room_name, room_encryption, room_member, room_tombstone, room_topic,
}
use libcmatrix.Event.{CmEvent, empty_event, get_state_key, get_sender_id}
use libcmatrix.Event.Json.{or_else, set_json}

pub data CmContentType : Type 0 where
  unknown text emote notice image file location audio video server_notice : CmContentType

pub data CmStatus : Type 0 where
  unknown join leave invite ban knock : CmStatus

-- The fields of the message class are those of a CmRoomMessageEvent. `c` is the union of the
-- replacement room of a tombstone and the topic of a topic event.
pub record CmRoomEvent : Type 0 where
  pub event : CmEvent
  pub is_message : Bool
  pub room_name : Option String
  pub encryption : Option String
  pub member_id : Option String
  pub json : Option JsonObject
  pub member_status : CmStatus
  pub c : Option String
  pub enc_rotation_count : ℕ
  pub enc_rotation_time : ℕ
  pub content_type : CmContentType
  pub body : Option String
  pub mxc_uri : Option String

abbrev pub empty_room_event : CmRoomEvent
empty_room_event = record {
  event = empty_event;
  is_message = false;
  room_name = none;
  encryption = none;
  member_id = none;
  json = none;
  member_status = CmStatus.unknown;
  c = none;
  enc_rotation_count = 0;
  enc_rotation_time = 0;
  content_type = CmContentType.unknown;
  body = none;
  mxc_uri = none;
}

unfoldable pub content_type_of : Option String → CmContentType
content_type_of type =
    if strcmp0_eq type (some "m.text")
    then text
    else if strcmp0_eq type (some "m.file")
    then file
    else if strcmp0_eq type (some "m.image")
    then image
    else if strcmp0_eq type (some "m.audio")
    then audio
    else if strcmp0_eq type (some "m.location")
    then location
    else if strcmp0_eq type (some "m.emote")
    then emote
    else if strcmp0_eq type (some "m.notice")
    then notice
    else CmContentType.unknown

-- the types whose address may stand in a "file" object, as an encrypted upload's does
abbrev has_file : CmContentType → Bool
has_file image = true
has_file file = true
has_file audio = true
has_file _ = false

unfoldable pub status_of : Option String → CmStatus
status_of membership =
    if strcmp0_eq membership (some "join")
    then join
    else if strcmp0_eq membership (some "invite")
    then invite
    else if strcmp0_eq membership (some "leave")
    then leave
    else if strcmp0_eq membership (some "ban")
    then ban
    else if strcmp0_eq membership (some "knock")
    then knock
    else CmStatus.unknown

abbrev is_invite : CmStatus → Bool
is_invite invite = true
is_invite _ = false

unfoldable pub or_default : ℕ → ℕ → ℕ
or_default n default = if n == 0 then default else n

module _ (g : JsonGlib) where
  -- NULL, after a warning, for an object that is no m.room.message
  unfoldable pub message_event_new_from_json : JsonObject → Option CmRoomEvent
  unfolding or_else
  message_event_new_from_json root =
      let child = object_get_object (some root) (some "content") in
      let type = content_type_of (object_get_string g child (some "msgtype")) in
      let url = object_get_string g child (some "url") in
      let file_url = object_get_string g (object_get_object child (some "file")) (some "url") in
      if strcmp0_eq (object_get_string g (some root) (some "type")) (some "m.room.message")
      then some (record empty_room_event {
        is_message = true;
        content_type = type;
        body = object_get_string g child (some "body");
        mxc_uri = if has_file type then or_else url file_url else url;
      })
      else none

  -- the object that the two tries of cm_room_event_new_from_json give
  unfoldable pub new_object : Option JsonObject → CmRoomEvent
  unfolding message_event_new_from_json
  new_object none = empty_room_event
  new_object (some root) = elim (message_event_new_from_json root) [
    | none ↦ empty_room_event
    | some self ↦ self
  ]

  -- the fields that the event's type adds
  unfoldable pub set_content : CmRoomEvent → CmEventType → Option JsonObject → CmRoomEvent
  unfolding or_default
  set_content self CmEventType.room_name child = record self {
    room_name = object_get_string g child (some "name");
  }
  set_content self CmEventType.room_encryption child = record self {
    encryption = object_get_string g child (some "algorithm");
    enc_rotation_count =
        or_default (to_uint32 (object_get_int g child (some "rotation_period_msgs"))) 100;
    enc_rotation_time =
        or_default (to_uint32 (object_get_int g child (some "rotation_period_ms"))) 604800;
  }
  set_content self CmEventType.room_member child =
      let status = status_of (object_get_string g child (some "membership")) in
      record self {
        member_status = status;
        member_id = if is_invite status then get_state_key self.event else get_sender_id self.event;
      }
  set_content self CmEventType.room_tombstone child = record self {
    c = object_get_string g child (some "replacement_room");
  }
  set_content self CmEventType.room_topic child = record self {
    c = object_get_string g child (some "topic");
  }
  set_content self type child = self

  unfoldable pub set_room_root : CmRoomEvent → Option JsonObject → CmRoomEvent
  unfolding set_content
  set_room_root self none = self
  set_room_root self (some root) =
      let self' = record self { json = some root } in
      if self.is_message
      then self'
      else set_content self' self.event.event_type (object_get_object (some root) (some "content"))

  unfoldable pub set_room_json : CmRoomEvent → Option JsonObject → Option JsonObject → CmRoomEvent
  unfolding set_room_root
  set_room_json self root encrypted =
      set_room_root (record self { event = set_json g self.event root encrypted }) root

  -- cm_room_event_new_from_json
  unfoldable pub room_event_new_from_json :
      Option JsonObject → Option JsonObject → Option CmRoomEvent
  unfolding set_room_json new_object
  room_event_new_from_json none none = none
  room_event_new_from_json root encrypted = some (set_room_json (new_object root) root encrypted)

-- A field is read only from an event of its type (`ret_val_if_fail`).
unfoldable pub get_room_name : CmRoomEvent → Option String
get_room_name self = elim self.event.event_type [
  | CmEventType.room_name ↦ self.room_name
  | _ ↦ none
]

unfoldable pub get_encryption : CmRoomEvent → Option String
get_encryption self = elim self.event.event_type [
  | CmEventType.room_encryption ↦ self.encryption
  | _ ↦ none
]

unfoldable pub get_status : CmRoomEvent → CmStatus
get_status self = elim self.event.event_type [
  | CmEventType.room_member ↦ self.member_status
  | _ ↦ CmStatus.unknown
]

unfoldable pub get_replacement_room_id : CmRoomEvent → Option String
get_replacement_room_id self = elim self.event.event_type [
  | CmEventType.room_tombstone ↦ self.c
  | _ ↦ none
]

unfoldable pub get_topic : CmRoomEvent → Option String
get_topic self = elim self.event.event_type [ CmEventType.room_topic ↦ self.c | _ ↦ none ]

unfoldable pub get_rotation_count : CmRoomEvent → ℕ
get_rotation_count self = elim self.event.event_type [
  | CmEventType.room_encryption ↦ self.enc_rotation_count
  | _ ↦ 100
]

unfoldable pub get_rotation_time : CmRoomEvent → ℕ
get_rotation_time self = elim self.event.event_type [
  | CmEventType.room_encryption ↦ self.enc_rotation_time
  | _ ↦ 100
]
