-- ===== src/Lib.antt =====
-- A model of libcmatrix, a library for clients of the Matrix network, and theorems about it.
--
-- The parts that are modelled:
--   * Json (src/cm-utils.c): the guarded accessors of JSON objects (`cm_utils_json_object_get_*`) are
--     Json/Access; `cm_utils_json_get_canonical` and `utils_handle_node` are Json/Canonical, both the
--     text and the object as the call leaves it.
--   * Error (src/cm-utils.c, src/cm-enums.h): `error_codes` and `cm_utils_json_node_get_error`.
--   * EventType (src/cm-enums.h, src/cm-utils.c): `CmEventType` and `cm_utils_get_event_type_str`.
--   * Event (src/events/cm-event.c): the private state of a CmEvent as a record, its setters and
--     getters, and `cm_event_set_json` in Event/Json.
--   * RoomEvent (src/events/cm-room-event.c, src/events/cm-room-message-event.c): the creation of room
--     events from JSON, their getters, and the power levels in RoomEvent/Power.
--   * EventList (src/events/cm-room-event-list.c, the list stores of src/cm-utils.c): Store, the list of
--     messages; Merge, `cm_room_event_list_add_events` and `remove_event_with_txn_id`; Slots, the state
--     events and the saved "local" object; Load, `cm_room_event_list_set_local_json`; Parse, `cm_room_event_list_parse_events`.
--   * Address (src/cm-utils.c): the checks of user ids and home servers, with GLib's parser of URIs and
--     regular expressions as parameters.
--   * Sas (src/cm-olm-sas.c, `cm_verification_event_set_json` of
--     src/events/cm-verification-event.c, `cm_user_find_device` of src/users/cm-user.c): State, the
--     record of a verification; Bytes and Emoji, what the users compare; Mac, the check and the making of
--     MACs; Session, `cm_olm_sas_set_key_verification` and `cm_olm_sas_matches_event`, with the
--     courses of events as a relation in Session/Course; Replies, the events that are sent.
--   * Enc (src/cm-enc.c): `cm_enc_verify`, the check of the signature of a JSON object.
--   * Device (src/cm-device.c): a device made of its keys, and the mark of verification.
--   * User (src/users/cm-user.c): `cm_user_set_devices`, which takes the server's list of devices.
--   * Olm (src/cm-olm.c): the sessions of Olm and Megolm, with libolm inside. Group sessions are made by
--     `cm_olm_out_group_new`, `cm_olm_in_group_new` and `cm_olm_in_group_new_from_out`; State, how long one
--     is used; Group, what the device that made one reads; Shared, what a device reads that gets
--     `cm_olm_get_session_key`.
--   * InputStream (src/cm-input-stream.c): a stream that encrypts or decrypts what is read through it;
--     Base64, the texts of keys; Chunks, `cm_input_stream_read_fn` called until the end of a file; RoundTrip,
--     a file that is sent and read; FileJson, the JSON of a sent file and `cm_enc_get_json_file_enc_info`.
--   * UserList (src/users/cm-user-list.c): the users of an account and the marks of those whose devices
--     changed; Queue and Answer, the requests for device keys, one at a time; Taken and Loads, these
--     operations taken apart; Single, the courses of the list as a relation; Fifo, the abstract queue;
--     Drain, the answers one after the other; Changed, the marks and the claims of keys.
--   * Room (src/cm-room.c): a room as it sends messages. Room has `room_send_message_from_queue` and
--     `ensure_encryption_keys`, the next step towards the keys of the members; Answers, the callbacks of
--     these calls, `cm_room_send_text_async` and `cm_room_send_file_async`, `cm_room_user_changed` and
--     `room_user_changed`; Course, the courses of a room as a relation; Counted and Order, its flags and
--     the order of its messages; Reached and Ordered, both in a course; Quiet, Served and Progress, how a
--     message comes to be sent; Changes, when devices change and members leave; Failures, messages that wait;
--     Name, `cm_room_generate_name`; Members, `cm_room_update_user` and the users that left, with
--     Filed and Agreed, the list stores and their tables; Keying, when its group key is to be rotated.
--   * Enc/Groups (src/cm-enc.c): the group sessions of rooms. `cm_enc_has_room_group_key`,
--     `cm_enc_set_room_group_key`, `cm_enc_rm_room_group_key` and `cm_enc_encrypt_for_chat`; Received,
--     `cm_enc_handle_join_room_encrypted` and `cm_enc_save_file_enc`; Paired, a session and the inbound
--     session made of it; Entered, a group key that is set; Rotation, one that goes and is due to be
--     rotated; Keys, the key as a device gets it, by `handle_m_room_key`; Keys/Create,
--     `cm_enc_create_out_group_keys`; Keys/Given, what that device reads; Keys/Made, the session that is made.
--   * Tests: concrete runs.
-- The parts meet as in the code: the list parses room events, a room event is an event, the list of users
-- sets the devices of users, a device has its signature checked, which takes the canonical text, and
-- every part reads JSON by the accessors and finds types by their texts. A room keeps its members in the
-- list of users and its state events in its list of events, and its group key is a session of Olm.
--
-- How state is modelled: a C struct is a record and a function that changes it returns the new record.
-- A pointer that may be NULL is an `Option`. A GObject that is compared by its address carries a number,
-- `ref`. A chain of `if` on an enum is a function by clauses. The failed checks of
-- `g_return_if_fail` leave the state as it is. The calls that
-- `cm_room_event_list_parse_events` makes of the room are a list of `RoomCall`, also those of
-- `cm_room_find_user`, whose effect on the room is Room/Answers. A NULL that is measured
-- by `strlen` is the outcome `crashed`. Numbers are native; `gint64` values that an `int`, `guint`,
-- `guint8` or `guint16` receives are cut to its width, and timestamps and counters are taken to stay
-- within a `gint64`. All loops are over lists, so there is no fuel.
-- The list of users has a store of user objects and of pointer arrays, since a task shares its array
-- with the room that loads it. The network is the list of requests in flight, and an answer is a step; a
-- task returns by an entry in a log, and its callback is a later step. A failed g_assert is `none`. A
-- hash table lists its entries in the order of insertion.
-- A room keeps the calls that it made and that are not answered as a list, and an answer in any order is
-- a step. A task that returns is an entry of `returned`. The group sessions are objects with
-- addresses, in a store, since the tables of cm-enc.c share them.
--
-- What is a parameter: json-glib's conversions between value types, number formatting and `g_list_sort`
-- (Json/Glib, whose laws are the documented ones: a value of the type asked for is returned, and the
-- sorted list is an ordered rearrangement); libolm, the client's identity, `g_strsplit`, `strlen` and
-- `g_string_truncate` (SasEnv in Sas/State); the decryption of events, the room's users and the room's
-- own state (Room in EventList/Defs); the clock; olm_ed25519_verify (EncEnv in Enc); the handlers of the
-- signal "user-changed"; the sessions of libolm (Libolm in Olm, with IsDocumented: a message takes one index,
-- and the key of an outbound session makes one that reads it); libgcrypt's cipher and GLib's
-- SHA-256 and base64 (Gcrypt and Base64Codec in InputStream, with IsCtr and
-- IsBase64); for rooms, the users as objects with ids, names and devices (Users in Room), the printing of
-- numbers (Naming in Room/Name), and whether there is a group key where only a room is looked at
-- (`has_key`, which is `cm_enc_has_room_group_key`); the session that the database finds, the parser of
-- JSON texts and the search for "key_ops" (ChatEnv in Enc/Groups); the devices' ids and keys, the account's
-- Olm sessions and the printing of JSON (KeyEnv in Enc/Groups/Keys/Create); random bytes. In InputStream a text is a
-- list of bytes and `text` makes it a C string. JSON objects are lists of members in the order of
-- insertion, with json-glib's replacement in place.
--
-- What is not modelled: networking (src/cm-net.c), the database (src/cm-db.c), the secret store
-- (src/cm-secret-store.c), of src/cm-enc.c the account with its one-time keys and the Olm
-- sessions of messages between devices, of src/cm-olm.c the pickles and the matching of sessions, of src/cm-room.c the
-- JSON, the data of a sync but for the users that left, the avatar, invites, past events and read markers, the
-- profile of users (src/users), pushers (src/cm-pusher.c), the file that is sent (src/cm-input-stream.c) and
-- the client (src/cm-client.c, src/cm-matrix.c); reference counts, signals other than those
-- named, and log messages.
pub mod Base
pub mod Json
pub mod Error
pub mod EventType
pub mod Event
pub mod RoomEvent
pub mod EventList
pub mod Address
pub mod Sas
pub mod Enc
pub mod Device
pub mod User
pub mod Olm
pub mod InputStream
pub mod UserList
pub mod Room
pub mod Tests
