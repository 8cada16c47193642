-- ===== src/Tests/Rooms.antt =====
-- A room with a few users, which sends messages and whose members come and go.
use libcmatrix.Base.{
  ℕ, ◌≤◌, ◌≡◌, refl, true, false, none, some, [], ◌∷◌, ◌==◌, if◌then◌else◌, arith,
}
use libcmatrix.Base.Text.{str_eq, is_empty}
use libcmatrix.Base.Table.{insert, contains}
use libcmatrix.Event.{waiting, sending, is_some}
use libcmatrix.EventList.Defs.{empty_list}
use libcmatrix.RoomEvent.{join, leave}
use libcmatrix.EventList.Merge.{append_event}
use libcmatrix.Tests.Lists.{one, two}
use libcmatrix.Room.{
  Message, CmUserKey, CmRoom, Users, load_devices, send_json, make_call, is_encrypted, has_keys,
  keys_left, is_nil, send_message_from_queue, send_head, send_message,
}
use libcmatrix.Room.Answers.{find_user, send_async, send_cb, claim_keys_cb, user_changed}
use libcmatrix.Room.Counted.{IsCounted}
use libcmatrix.Room.Order.{messages, flight}
use libcmatrix.Room.Course.{Reaches, start, queued}
use libcmatrix.Room.Ordered.{Reaches-messages}
use libcmatrix.Room.Quiet.{IsQuiet, IsSent}
use libcmatrix.Room.Served.{serves}
use libcmatrix.Room.Progress.{serves-IsSent}
use libcmatrix.Room.Failures.{claim_keys_cb-stuck, send_cb-waits}
use libcmatrix.Room.Changes.{user_changed_removed, user_changed_added, update_user_left}
use libcmatrix.Room.Name.{Naming, listed, generate_name, generate_name-described}
use libcmatrix.Room.Members.{update_user, users_left}
use libcmatrix.Room.Members.Agreed.{IsAgreed, members-IsAgreed}

-- the client's user, Ann, who has a display name, and anyone else
abbrev people : Users
people = record {
  find = λ id. if str_eq id "@me" then 0 else if str_eq id "@ann" then 1 else 2;
  id = λ user. if user == 0 then "@me" else if user == 1 then "@ann" else "@bob";
  display_name = λ user. if user == 1 then some "Ann" else none;
  devices = λ user. user ∷ [];
}

abbrev naming : Naming
naming = record { users = people; own = "@me"; show = λ n. "2" }

abbrev new_room : CmRoom
new_room = record {
  room_event = empty_list;
  encryption = none;
  joined_members = [];
  joined_members_table = [];
  invited_members = [];
  invited_members_table = [];
  name = none;
  generated_name = none;
  past_name = none;
  db_save_pending = false;
  changed_users = [];
  changed_devices = [];
  one_time_keys = none;
  message_queue = [];
  retry_timeout_id = 0;
  is_sending_message = false;
  joined_members_loading = false;
  joined_members_loaded = false;
  querying_keys = false;
  claiming_keys = false;
  keys_claimed = false;
  uploading_keys = false;
  calls = [];
  returned = [];
}

abbrev text : ℕ → Message
text id = record { txn_id = id; is_file = false; state = waiting }

new_room-IsCounted : IsCounted new_room
new_room-IsCounted = record {
  loading = refl;
  querying = refl;
  claiming = refl;
  uploading = refl;
  sending = refl;
  one_step = omega arith;
}

-- two messages in a room that is not encrypted
two_queued : Reaches people (1 ∷ 2 ∷ []) (
    send_async people false "@me"
      (text 2)
      two
      (send_async people false "@me" (text 1) one new_room))
two_queued =
    queued false "@me" (text 2) two
      (queued false "@me" (text 1) one (start new_room-IsCounted refl))

Reaches-messages_example :
    let s =
      send_async people false "@me"
        (text 2)
        two
        (send_async people false "@me" (text 1) one new_room) in
    IsCounted s × (messages s ≡ 1 ∷ 2 ∷ [])
Reaches-messages_example = Reaches-messages two_queued

-- after the first was given to the network
abbrev one_given : CmRoom
one_given = record new_room {
  room_event = record empty_list { events_list = one ∷ two ∷ [] };
  joined_members = 0 ∷ [];
  joined_members_table = ("@me", 0) ∷ [];
  message_queue = text 2 ∷ [];
  is_sending_message = true;
  calls = send_json (record (text 1) { state = sending }) ∷ [];
}

one_given-Reaches : Reaches people (1 ∷ 2 ∷ []) one_given
unfolding send_async find_user is_encrypted send_message_from_queue send_head send_message insert
    append_event
one_given-Reaches = two_queued

send_cb-waits_example :
    let next =
      send_cb false (record (text 1) { state = sending }) (record one_given { calls = [] }) in
    (flight next.calls ≡ [])
    × (next.message_queue ≡ text 2 ∷ [])
    × (flight (send_message_from_queue people false next).calls ≡ 2 ∷ [])
unfolding is_encrypted
send_cb-waits_example =
    send_cb-waits people (1 ∷ 2 ∷ []) one_given false false (record (text 1) { state = sending })
      (text 2) [] [] [] one_given-Reaches refl refl refl refl

-- an encrypted room in which a message waits
abbrev secret : CmRoom
secret = record new_room {
  encryption = some "m.megolm.v1.aes-sha2";
  joined_members = 0 ∷ 1 ∷ [];
  joined_members_table = ("@me", 0) ∷ ("@ann", 1) ∷ [];
  message_queue = text 1 ∷ [];
}

secret-IsQuiet : IsQuiet (text 1) [] secret
unfolding is_encrypted is_some
secret-IsQuiet = record {
  encrypted = refl;
  waits = refl;
  idle = refl;
  no_retry = refl;
  no_call = refl;
  not_loading = refl;
  not_querying = refl;
  not_claiming = refl;
  not_uploading = refl;
}

abbrev ann_keys : CmUserKey
ann_keys = record { user = 1; devices = 1 ∷ []; keys = some "key" ∷ [] }

serves-IsSent_example :
    (n : ℕ) × (n ≤ 4)
    × IsSent (text 1) [] (
        serves people false
          ("@bob" ∷ [])
          ann_keys
          []
          n
          (send_message_from_queue people false secret))
serves-IsSent_example =
    serves-IsSent people false ("@bob" ∷ []) ann_keys [] (text 1) [] secret secret-IsQuiet refl

-- the same room when its members are loaded and their keys were claimed
abbrev keyed : CmRoom
keyed = record secret { joined_members_loaded = true; keys_claimed = true; one_time_keys = some [] }

keyed-IsQuiet : IsQuiet (text 1) [] keyed
unfolding is_encrypted is_some
keyed-IsQuiet = record {
  encrypted = refl;
  waits = refl;
  idle = refl;
  no_retry = refl;
  no_call = refl;
  not_loading = refl;
  not_querying = refl;
  not_claiming = refl;
  not_uploading = refl;
}

claim_keys_cb-stuck_example :
    (claim_keys_cb people false (some []) keyed ≡ keyed)
    × (send_message_from_queue people false keyed ≡ keyed)
claim_keys_cb-stuck_example =
    claim_keys_cb-stuck people (text 1) [] keyed keyed-IsQuiet refl refl refl

user_changed_removed_example :
    let (next, key_removed) = user_changed people keyed 1 [] (5 ∷ []) in
    (key_removed ≡ true)
    × (send_message_from_queue people true next
        ≡ make_call (record next { querying_keys = true }) (load_devices (0 ∷ 1 ∷ [])))
unfolding contains
user_changed_removed_example =
    user_changed_removed people (text 1) [] keyed 1 5 keyed-IsQuiet refl true [] [] (1 ∷ []) 0 refl
      refl

user_changed_added_example :
    let (next, key_removed) = user_changed people keyed 1 (5 ∷ []) [] in
    (key_removed ≡ false)
    × (next.changed_devices ≡ insert [] "@ann" (5 ∷ []))
    × IsSent (text 1) [] (send_message_from_queue people true next)
    × ((send_message_from_queue people true next).changed_devices ≡ next.changed_devices)
unfolding has_keys is_nil keys_left contains
user_changed_added_example =
    user_changed_added people (text 1) [] keyed 1 5 keyed-IsQuiet refl [] refl

update_user_left_example :
    IsSent
      (text 1)
      []
      (send_message_from_queue people true (update_user naming keyed leave false "@ann"))
unfolding has_keys is_nil keys_left
update_user_left_example = update_user_left naming (text 1) [] keyed false "@ann" keyed-IsQuiet refl

generate_name-described_example : generate_name naming secret ≡ some "Ann"
unfolding listed is_empty
generate_name-described_example = generate_name-described naming secret (omega arith, tt)

members-IsAgreed_example :
    IsAgreed people (update_user naming secret join false "@bob")
    × IsAgreed people (find_user people secret "@bob")
    × IsAgreed people (users_left secret ("@ann" ∷ []))
unfolding contains
members-IsAgreed_example =
    members-IsAgreed naming secret join false "@bob" ("@ann" ∷ []) refl
      ((refl, (refl, (refl, tt)), ((refl, refl), ((refl, refl), tt))), (refl, tt, tt))
