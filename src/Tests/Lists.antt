-- ===== src/Tests/Lists.antt =====
-- A list with three messages.
use mathlib.Core.List.{Mem}
use libcmatrix.Base.{ℕ, ◌≡◌, ◌↔◌, refl, true, false, none, some, String, [], ◌∷◌, ◌++◌, map}
use libcmatrix.Json.{JsonObject, string, object, array, nil, element, end, member}
use libcmatrix.Json.Sample.{sample}
use libcmatrix.EventType.{room_topic, room_message}
use libcmatrix.Event.{is_some, empty_event}
use libcmatrix.RoomEvent.{empty_room_event}
use libcmatrix.EventList.Store.{Item, get_last_item}
use libcmatrix.EventList.Defs.{Room, CmRoomEventList, empty_list}
use libcmatrix.EventList.Merge.{add_events, find_sender}
use libcmatrix.EventList.Merge.Fresh.{add_events-fresh, HasOtherId}
use libcmatrix.Json.{get_member}
use libcmatrix.Json.Access.{object_get_object, find_member}
use libcmatrix.RoomEvent.{room_event_new_from_json}
use libcmatrix.EventList.Slots.{set_local_json_event}
use libcmatrix.EventList.Load.{set_local_json}
use libcmatrix.EventList.Load.Saved.{slot, event_of, set_local_json-saved}
use libcmatrix.EventList.Parse.{Parse, find_user, parse_loop, event_array, parse_events}
use libcmatrix.EventList.Parse.Past.{state_of, senders, asked_again, parse_events-past}

abbrev item : ℕ → String → String → Item
item ref id txn = record {
  ref = ref;
  event = record empty_room_event {
    event = record empty_event { event_type = room_message; event_id = some id; txn_id = some txn };
    is_message = true;
  };
}

abbrev pub one : Item
one = item 1 "$1" "t1"

abbrev pub two : Item
two = item 2 "$2" "t2"

abbrev three : Item
three = item 3 "$3" "t3"

abbrev messages : CmRoomEventList
messages = record empty_list { events_list = one ∷ two ∷ three ∷ [] }

abbrev room : Room
room = record {
  has_client = false;
  has_enc = false;
  find_user = λ id. none;
  decrypt = λ o. none;
  name = none;
  is_direct = false;
  is_encrypted = false;
}

add_events-fresh_example :
    ((add_events room messages (three ∷ []) true).0.events_list
      ≡ messages.events_list ++ (add_events room messages (three ∷ []) true).1)
    × (Mem three (add_events room messages (three ∷ []) true).1
        ↔ (Mem three (map (find_sender room) (three ∷ [])) × HasOtherId (some "$3") three))
unfolding get_last_item
add_events-fresh_example = add_events-fresh room messages three three three [] true refl

-- a page of history with one topic
abbrev page : JsonObject
page =
    member "chunk"
      (array (
        element
          (object (
            member "type" (string "m.room.topic")
              (member "event_id" (string "$9") (member "sender" (string "@ann:example.org") end))))
          nil))
      end

abbrev reading : Parse
reading = record { list = messages; events = some []; calls = []; next = 10 }

parse_events-past_example :
    let q = parse_loop sample room true (event_array sample room page) reading in
    let done = parse_events sample room (some page) true reading in
    (state_of done.list ≡ state_of messages)
    × (done.calls
        ≡ map find_user (
            senders sample room (event_array sample room page) ++ asked_again sample room q.events))
unfolding is_some
parse_events-past_example = parse_events-past sample room page reading refl

-- a room that was saved, and a new topic
abbrev saved_room : JsonObject
saved_room = member "local" (object end) end

abbrev topic_json : JsonObject
topic_json =
    member "type" (string "m.room.topic")
      (member "content" (object (member "topic" (string "tea") end)) end)

abbrev topic_item : Item
topic_item = record {
  ref = 7;
  event = record empty_room_event {
    event = record empty_event { event_type = room_topic; json = some topic_json };
  };
}

set_local_json-saved_example :
    event_of (
      slot
        (set_local_json sample empty_list
          (set_local_json_event (some saved_room) topic_item)
          none
          20)
        room_topic)
    ≡ room_event_new_from_json sample (some topic_json) none
unfolding object_get_object find_member get_member
set_local_json-saved_example =
    set_local_json-saved sample empty_list saved_room end topic_json topic_item none 20 refl refl
      refl refl refl
