-- ===== src/Room/Keying.antt =====
-- What a room asks of its group session: cm_room_get_encryption_rotation_time and
-- cm_room_get_encryption_msg_count of src/cm-room.c.
use libcmatrix.Base.{ℕ, String, Option, none, some}
use libcmatrix.Base.Int.{ℤ, pos}
use libcmatrix.EventType.{room_encryption}
use libcmatrix.RoomEvent.{get_rotation_count, get_rotation_time}
use libcmatrix.EventList.Store.{Item}
use libcmatrix.EventList.Slots.{get_event}
use libcmatrix.Room.{CmRoom}
use libcmatrix.Enc.Groups.{ChatRoom}

unfoldable pub rotation_time_of : Option Item → ℤ
unfolding get_rotation_time
rotation_time_of none = pos 604800
rotation_time_of (some x) = pos (get_rotation_time x.event)

unfoldable pub get_encryption_rotation_time : CmRoom → ℤ
unfolding rotation_time_of get_event
get_encryption_rotation_time self = rotation_time_of (get_event self.room_event room_encryption)

unfoldable pub msg_count_of : Option Item → ℕ
unfolding get_rotation_count
msg_count_of none = 100
msg_count_of (some x) = get_rotation_count x.event

unfoldable pub get_encryption_msg_count : CmRoom → ℕ
unfolding msg_count_of get_event
get_encryption_msg_count self = msg_count_of (get_event self.room_event room_encryption)

-- the room as the calls of cm-enc.c see it
unfoldable pub chat_room : ℕ → Option String → CmRoom → ChatRoom
unfolding get_encryption_rotation_time get_encryption_msg_count
chat_room ref room_id self = record {
  ref = ref;
  room_id = room_id;
  msg_count = get_encryption_msg_count self;
  rotation_time = get_encryption_rotation_time self;
}
