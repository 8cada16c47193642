-- ===== src/Enc/Groups.antt =====
-- The group sessions of the rooms: cm_enc_has_room_group_key, cm_enc_set_room_group_key,
-- cm_enc_rm_room_group_key, and cm_enc_encrypt_for_chat of
-- src/cm-enc.c. A session is an object with an address, and a room is its address.
pub mod Received
pub mod Paired
pub mod Entered
pub mod Rotation
pub mod Keys
use libcmatrix.Base.{
  ℕ, suc, String, Bool, true, false, not, ◌||◌, ◌&&◌, Option, none, some, List, [], ◌∷◌, ◌++◌, ◌==◌,
  if◌then◌else◌,
}
use libcmatrix.Base.Int.{ℤ}
use libcmatrix.Base.Text.{is_empty}
use libcmatrix.Base.Table.{Table, lookup, insert, remove, contains}
use libcmatrix.Event.{is_some}
use libcmatrix.Json.{JsonNode, JsonObject, end, set_member, string}
use libcmatrix.Json.Glib.{JsonGlib}
use libcmatrix.Json.Access.{object_get_string, object_get_object}
use libcmatrix.Olm.{
  Libolm, CmOlm, CmSessionType, megolm_v1_out, invalidated, set_state, set_db, set_sender_details,
  set_account_details, update_validity, in_group_new_from_out, encrypt, decrypt,
}
use libcmatrix.InputStream.FileJson.{JsonFileInfo, set_string, get_json_file_enc_info}

-- json-glib, the parser of JSON texts, `strstr (text, "\"key_ops\"")` and the clock, in seconds
pub record ChatEnv : Type 0 where
  pub glib : JsonGlib
  pub parse : String → Option JsonObject
  pub has_key_ops : String → Bool
  pub now : ℕ

-- what a call asks of its room: its address and id, and when its key is to be rotated
pub record ChatRoom : Type 0 where
  pub ref : ℕ
  pub room_id : Option String
  pub msg_count : ℕ
  pub rotation_time : ℤ

-- `sessions` are the objects, `next` is the next free address and `saved` are the sessions that were saved,
-- in order. `olm_checked` is the data "olm-checked" of the rooms.
pub record CmEnc (S I O : Type 0) : Type 0 where
  pub sessions : ℕ → CmOlm S I O
  pub next : ℕ
  pub in_group_sessions : Table ℕ
  pub out_group_sessions : Table ℕ
  pub out_group_room_session : ℕ → Option String
  pub olm_checked : ℕ → Bool
  pub enc_files : Table JsonFileInfo
  pub saved : List ℕ
  pub cm_db : Option ℕ
  pub user_id : Option String
  pub device_id : Option String
  pub curve_key : Option String
  pub pickle_key : Option String

-- a map with another value at an address
unfoldable pub put_at {ℓ} : {A : Type ℓ} → (ℕ → A) → ℕ → A → ℕ → A
put_at f at value i = if i == at then value else f i

unfoldable pub session_of : Table ℕ → Option String → Option ℕ
session_of table none = none
session_of table (some id) = lookup table id

module _ {S I O : Type 0} where
  unfoldable pub id_of_sessions : Libolm S I O → Option S → Option O → Option I → Option String
  id_of_sessions lib (some s) out in_gp = some (lib.olm_session_id s)
  id_of_sessions lib none (some o) in_gp = some (lib.outbound_id o)
  id_of_sessions lib none none (some i) = some (lib.inbound_id i)
  id_of_sessions lib none none none = none

  -- cm_olm_get_session_id, which keeps the id
  unfoldable pub get_session_id : Libolm S I O → CmOlm S I O → Option String × CmOlm S I O
  unfolding id_of_sessions is_some
  get_session_id lib self =
      let id = id_of_sessions lib self.olm_session self.out_gp_session self.in_gp_session in
      if is_some self.session_id
      then (self.session_id, self)
      else (id, record self { session_id = id })

  -- ma_enc_lookup_out_group_session
  unfoldable pub lookup_out_group_session : CmEnc S I O → ℕ → Option ℕ
  unfolding session_of
  lookup_out_group_session self room =
      session_of self.out_group_sessions (self.out_group_room_session room)

  abbrev pub set_session : CmEnc S I O → ℕ → CmOlm S I O → CmEnc S I O
  set_session self ref session = record self { sessions = put_at self.sessions ref session }

  module _ (lib : Libolm S I O) where
    -- The tables get the session at an address and its pair, which is a new object.
    unfoldable pub enter_pair : CmEnc S I O → ℕ → ℕ → String → CmOlm S I O → CmEnc S I O
    unfolding put_at
    enter_pair self room out id in_session = record self {
      sessions = put_at self.sessions self.next in_session;
      next = suc self.next;
      out_group_room_session = put_at self.out_group_room_session room (some id);
      out_group_sessions = insert self.out_group_sessions id out;
      in_group_sessions = insert self.in_group_sessions id self.next;
    }

    -- `none` is the use of a NULL
    unfoldable pub enter_made :
        CmEnc S I O → ℕ → ℕ → Option String → Option (CmOlm S I O) → Option (CmEnc S I O)
    unfolding enter_pair
    enter_made self room out none in_session = none
    enter_made self room out (some id) none = none
    enter_made self room out (some id) (some in_session) =
        some (enter_pair self room out id in_session)

    -- the id of the session at an address, its pair, and the tables
    unfoldable pub enter : CmEnc S I O → ℕ → ℕ → Option (CmEnc S I O)
    unfolding enter_made get_session_id put_at
    enter self room out =
        let (id, session) = get_session_id lib (self.sessions out) in
        enter_made (set_session self out session) room out id
          (in_group_new_from_out lib session self.curve_key)

    -- the session that cm_db_lookup_session finds, if any
    unfoldable pub enter_found :
        CmEnc S I O → ChatRoom → Option (CmOlm S I O) → Option (Bool × CmEnc S I O)
    unfolding enter put_at
    enter_found self room none = some (false, self)
    enter_found self room (some found) =
        let session =
          set_account_details
            (set_sender_details (set_db found self.cm_db) room.room_id self.user_id) self.user_id
            self.device_id in
        let made =
          enter (record (set_session self self.next session) { next = suc self.next }) room.ref
            self.next in
        elim made [ none ↦ none | some entered ↦ some (true, entered) ]

    -- cm_enc_has_room_group_key; `found` is what the database has
    unfoldable pub has_room_group_key :
        CmEnc S I O → ChatRoom → Option (CmOlm S I O) → Option (Bool × CmEnc S I O)
    unfolding enter_found lookup_out_group_session is_some put_at
    has_room_group_key self room found =
        if not (is_some (self.out_group_room_session room.ref))
          && (is_some self.cm_db && not (self.olm_checked room.ref))
        then enter_found (record self { olm_checked = put_at self.olm_checked room.ref true }) room
            found
        else some (is_some (lookup_out_group_session self room.ref), self)

    unfoldable pub is_same : Option ℕ → ℕ → Bool
    is_same none ref = false
    is_same (some r) ref = r == ref

    unfoldable pub is_outbound : CmSessionType → Bool
    is_outbound megolm_v1_out = true
    is_outbound type = false

    unfoldable pub save_pair : Option (CmEnc S I O) → ℕ → ℕ → Option (CmEnc S I O)
    save_pair none out inbound = none
    save_pair (some self) out inbound =
        some (record self { saved = self.saved ++ (out ∷ inbound ∷ []) })

    -- cm_enc_set_room_group_key of the session at an address
    unfoldable pub set_room_group_key : CmEnc S I O → ChatRoom → ℕ → Option (CmEnc S I O)
    unfolding enter save_pair is_same is_outbound lookup_out_group_session
    set_room_group_key self room out =
        if not (is_outbound (self.sessions out).type)
        then some self
        else if is_same (lookup_out_group_session self room.ref) out
        then some self
        else save_pair (enter self room.ref out) out self.next

    unfoldable pub rm_session : CmEnc S I O → Option String → Option ℕ → CmEnc S I O
    unfolding put_at
    rm_session self (some id) (some ref) = record self {
      sessions = put_at self.sessions ref (set_state (self.sessions ref) invalidated);
      out_group_sessions = remove self.out_group_sessions id;
      saved = self.saved ++ (ref ∷ []);
    }
    rm_session self id session = self

    -- cm_enc_rm_room_group_key
    unfoldable pub rm_room_group_key : CmEnc S I O → ChatRoom → CmEnc S I O
    unfolding rm_session lookup_out_group_session put_at
    rm_room_group_key self room =
        let next =
          rm_session self (self.out_group_room_session room.ref)
            (lookup_out_group_session self room.ref) in
        record next { out_group_room_session = put_at next.out_group_room_session room.ref none }

    -- the object that is sent
    unfoldable pub chat_json : CmEnc S I O → Option String → Option String → JsonObject
    unfolding set_string
    chat_json self encrypted session_id =
        let root = set_string end "algorithm" (some "m.megolm.v1.aes-sha2") in
        let root = set_string root "sender_key" self.curve_key in
        let root = set_string root "ciphertext" encrypted in
        let root = set_string root "session_id" session_id in
        set_string root "device_id" self.device_id

    unfoldable pub encrypt_by :
        ChatEnv
        → CmEnc S I O
        → ChatRoom
        → Option String
        → Option ℕ
        → Option JsonObject × CmEnc S I O
    unfolding chat_json get_session_id put_at
    encrypt_by env self room message none = (none, self)
    encrypt_by env self room message (some ref) =
        let (encrypted, session) = encrypt lib (self.sessions ref) message in
        let valid = update_validity lib session room.msg_count room.rotation_time env.now in
        let (session_id, last) = get_session_id lib valid in
        (
          some (chat_json self encrypted session_id),
          record (set_session self ref last) { saved = self.saved ++ (ref ∷ []) },
        )

    -- cm_enc_encrypt_for_chat
    unfoldable pub encrypt_for_chat :
        ChatEnv → CmEnc S I O → ChatRoom → Option String → Option JsonObject × CmEnc S I O
    unfolding encrypt_by lookup_out_group_session is_empty
    encrypt_for_chat env self room message =
        if is_empty message
        then (none, self)
        else encrypt_by env self room message (lookup_out_group_session self room.ref)
