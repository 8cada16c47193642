-- ===== src/Tests/Groups.antt =====
-- The group session of a room, by the library that encrypts nothing.
use libcmatrix.Base.{ℕ, zero, suc, ◌∷◌, ◌≡◌, refl, false, true, none, some, []}
use libcmatrix.Base.Int.{pos}
use libcmatrix.Base.Text.{is_empty}
use libcmatrix.Base.Table.{lookup}
use libcmatrix.Json.{JsonObject, end}
use libcmatrix.Json.Sample.{sample}
use libcmatrix.Olm.{
  same, CmOlm, CmOlmState, usable, megolm_v1_out, out_group_new, out_group_from, out_group_made,
}
use libcmatrix.Tests.Olm.{plain, plain-IsDocumented}
use libcmatrix.Enc.Groups.{
  ChatEnv, ChatRoom, CmEnc, has_room_group_key, lookup_out_group_session, set_room_group_key,
  rm_room_group_key, encrypt_for_chat,
}
use libcmatrix.Enc.Groups.Received.{handle_join_room_encrypted}
use libcmatrix.Enc.Groups.Paired.{IsPaired, handle-encrypt_for_chat}
use libcmatrix.Room.{CmUserKey}
use libcmatrix.Enc.Groups.Keys.{key_content, key_body, take_body}
use libcmatrix.Enc.Groups.Keys.Create.{KeyEnv, keys_json, create_out_group_keys}
use libcmatrix.Enc.Groups.Keys.Given.{handle-take_body}
use libcmatrix.Enc.Groups.Keys.Made.{create_out_group_keys-IsPaired}
use libcmatrix.Enc.Groups.Rotation.{encrypt_for_chat-rotated, rm_room_group_key-gone}

abbrev chat : ChatEnv
chat = record { glib = sample; parse = λ text. none; has_key_ops = λ text. false; now = 100 }

-- a room whose key is rotated after a message
abbrev lounge : ChatRoom
lounge = record { ref = 7; room_id = some "!lounge"; msg_count = 1; rotation_time = pos (suc 600) }

abbrev new_session : CmOlm Unit Unit ℕ
new_session = record {
  cm_db = none;
  sender_id = none;
  room_id = none;
  account_user_id = none;
  account_device_id = none;
  curve_key = none;
  pickle_key = none;
  session_id = none;
  session_key = some "key";
  in_gp_session = none;
  out_gp_session = some 0;
  olm_session = none;
  created_time = 100000;
  type = megolm_v1_out;
  state = usable;
}

-- the session of the lounge, and its pair at the next address
abbrev session_at : ℕ → CmOlm Unit Unit ℕ
session_at zero = record new_session { session_id = some "id" }
session_at (suc ref) = record new_session { in_gp_session = some tt; out_gp_session = none }

abbrev no_groups : CmEnc Unit Unit ℕ
no_groups = record {
  sessions = λ ref. new_session;
  next = 1;
  in_group_sessions = [];
  out_group_sessions = [];
  out_group_room_session = λ room. none;
  olm_checked = λ room. true;
  enc_files = [];
  saved = [];
  cm_db = none;
  user_id = some "@me:example.org";
  device_id = some "PHONE";
  curve_key = some "curve";
  pickle_key = none;
}

abbrev keys_of : KeyEnv Unit
keys_of = record {
  user_id_of = λ user. "@ann:example.org";
  device_id_of = λ device. "LAPTOP";
  curve_key_of = λ device. some "ann-curve";
  ed_key_of = λ device. some "ann-ed";
  ed_key = some "my-ed";
  json_text = λ body. "body";
  create_session = λ curve_key key. some tt;
  message_type = λ session. pos 0;
  random = "";
  now = 100;
}

abbrev ann : CmUserKey
ann = record { user = 1; devices = 5 ∷ []; keys = some "one-time" ∷ [] }

create_out_group_keys-IsPaired_example :
    (root : JsonObject) × (next : CmEnc Unit Unit ℕ) × (last : CmEnc Unit Unit ℕ)
    × (create_out_group_keys plain keys_of no_groups lounge (ann ∷ []) ≡ some ((root, 1), next))
    × (set_room_group_key plain next lounge 1 ≡ some last)
    × (p : IsPaired plain last 7) × (has_room_group_key plain last lounge none ≡ some (true, last))
    × (root
        ≡ keys_json plain keys_of next
            (key_content lounge (some p.id) (some p.key) 0)
            (ann ∷ [])
            end)
    × (plain.outbound_key p.session ≡ some p.key)
unfolding out_group_new out_group_from out_group_made
create_out_group_keys-IsPaired_example =
    create_out_group_keys-IsPaired plain plain-IsDocumented keys_of no_groups lounge ann []
      (record new_session { curve_key = some "curve" }) none refl refl

abbrev paired : CmEnc Unit Unit ℕ
paired = record no_groups {
  sessions = session_at;
  next = 2;
  in_group_sessions = ("id", 1) ∷ [];
  out_group_sessions = ("id", 0) ∷ [];
  out_group_room_session = λ room. some "id";
}

abbrev paired-IsPaired : IsPaired plain paired 7
unfolding lookup
paired-IsPaired = record {
  id = "id";
  out = 0;
  inbound = 1;
  first = 0;
  session = 0;
  key = "key";
  reader = tt;
  room_has = refl;
  out_has = refl;
  in_has = refl;
  apart = refl;
  sends = refl;
  sends_group = refl;
  named = refl;
  later = same;
  own = refl;
  made = refl;
  reads = refl;
  reads_group = refl;
}

handle-encrypt_for_chat_example :
    let (sent, next) = encrypt_for_chat plain chat paired lounge (some "hello") in
    (object : JsonObject) × (sent ≡ some object)
    × IsPaired plain next 7
    × (last : CmEnc Unit Unit ℕ) × (handle_join_room_encrypted chat plain next (some object) none
        ≡ some (some "hello", last))
unfolding is_empty lookup
handle-encrypt_for_chat_example =
    handle-encrypt_for_chat plain plain-IsDocumented chat paired lounge paired-IsPaired "hello"
      "hello" none refl refl

encrypt_for_chat-rotated_example :
    let next = (encrypt_for_chat plain chat paired lounge (some "hello")).1 in
    ((next.sessions 0).state ≡ CmOlmState.rotated)
    × (has_room_group_key plain next lounge none ≡ some (true, next))
    × (lookup_out_group_session next 7 ≡ some 0)
unfolding is_empty lookup
encrypt_for_chat-rotated_example =
    encrypt_for_chat-rotated plain chat paired lounge paired-IsPaired "hello" none 600 refl refl
      refl refl refl

rm_room_group_key-gone_example :
    let next = rm_room_group_key plain paired lounge in
    (has_room_group_key plain next lounge none ≡ some (false, next))
    × ((next.sessions 0).state ≡ CmOlmState.invalidated)
    × (lookup next.in_group_sessions "id" ≡ some 1)
    × (next.sessions 1 ≡ paired.sessions 1)
unfolding is_empty lookup
rm_room_group_key-gone_example =
    rm_room_group_key-gone plain paired lounge paired-IsPaired none refl

-- the device of another user
abbrev laptop : CmEnc Unit Unit ℕ
laptop = record no_groups { user_id = some "@ann:example.org"; device_id = some "LAPTOP" }

handle-take_body_example :
    (next : CmEnc Unit Unit ℕ) × (take_body sample plain laptop
        (some "ann-ed")
        (some "@me:example.org")
        (some "curve")
        (key_body paired
          (some "my-ed")
          (key_content lounge (some "id") (some "key") 0)
          (some "@ann:example.org")
          (some "ann-ed"))
      ≡ some next)
    × (object : JsonObject) × ((encrypt_for_chat plain chat paired lounge (some "hello")).0
        ≡ some object)
    × (last : CmEnc Unit Unit ℕ) × (handle_join_room_encrypted chat plain next (some object) none
        ≡ some (some "hello", last))
unfolding is_empty lookup
handle-take_body_example =
    handle-take_body plain plain-IsDocumented chat paired laptop lounge paired-IsPaired 0 "key"
      "@me:example.org" "@ann:example.org" "ann-ed" "hello" "hello" (some "my-ed") (some "curve") 0
      none refl same refl refl refl refl refl
