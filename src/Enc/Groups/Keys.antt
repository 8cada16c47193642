-- ===== src/Enc/Groups/Keys.antt =====
-- The key of a room's group session as a device gets it: the object that cm_enc_create_out_group_keys
-- encrypts for a device, what cm_enc_handle_room_encrypted does with the text that was decrypted, but
-- for a new Olm session that it saves, and handle_m_room_key (src/cm-enc.c).
pub mod Given
pub mod Create
pub mod Made
use libcmatrix.Base.{ℕ, suc, String, Bool, ◌&&◌, Option, none, some, [], ◌∷◌, ◌++◌, if◌then◌else◌}
use libcmatrix.Base.Int.{pos}
use libcmatrix.Base.Text.{strcmp0_eq}
use libcmatrix.Base.Table.{lookup, insert}
use libcmatrix.Event.{is_some}
use libcmatrix.Json.{object, int, JsonObject, end, set_member}
use libcmatrix.Json.Glib.{JsonGlib}
use libcmatrix.Json.Access.{object_get_string, object_get_object}
use libcmatrix.InputStream.FileJson.{set_string}
use libcmatrix.Olm.{
  Libolm, CmOlm, in_group_new, set_sender_details, set_account_details, set_key, set_db,
}
use libcmatrix.Enc.Groups.{ChatRoom, CmEnc, put_at, set_session}

-- the member "content", with the message index
unfoldable pub key_content : ChatRoom → Option String → Option String → ℕ → JsonObject
unfolding set_string
key_content room session_id session_key index =
    let named = set_string end "algorithm" (some "m.megolm.v1.aes-sha2") in
    let named = set_string named "room_id" room.room_id in
    let named = set_string named "session_id" session_id in
    let named = set_string named "session_key" session_key in
    set_member named "chain_index" (int (pos index))

module _ {S I O : Type 0} where
  -- the body for a device: `ed_key` is the sender's own key, `recipient` the user that has the device,
  -- and `device_key` the device's key
  unfoldable pub key_body :
      CmEnc S I O → Option String → JsonObject → Option String → Option String → JsonObject
  unfolding set_string
  key_body self ed_key content recipient device_key =
      let body = set_string end "type" (some "m.room_key") in
      let body = set_string body "sender" self.user_id in
      let body = set_string body "sender_device" self.device_id in
      let body = set_member body "keys" (object (set_string end "ed25519" ed_key)) in
      let body = set_member body "content" (object content) in
      let body = set_string body "recipient" recipient in
      set_member body "recipient_keys" (object (set_string end "ed25519" device_key))

  -- The session gets an address. A NULL is entered where the key was no key, and a lookup finds
  -- nothing under the id, as before.
  unfoldable pub keep_group_session :
      CmEnc S I O → String → Option String → Option (CmOlm S I O) → CmEnc S I O
  unfolding put_at set_sender_details set_account_details set_key set_db
  keep_group_session self id room_id none = self
  keep_group_session self id room_id (some session) =
      let session = set_sender_details session room_id self.user_id in
      let session = set_account_details session self.user_id self.device_id in
      let session = set_db (set_key session self.pickle_key) self.cm_db in
      record (set_session self self.next session) {
        next = suc self.next;
        saved = self.saved ++ (self.next ∷ []);
        in_group_sessions = insert self.in_group_sessions id self.next;
      }

  module _ (glib : JsonGlib) (lib : Libolm S I O) where
    -- `none` is the lookup of a NULL id
    unfoldable pub keep_key :
        CmEnc S I O
        → Option String
        → Option String
        → Option String
        → Option String
        → Option (CmEnc S I O)
    unfolding keep_group_session in_group_new is_some
    keep_key self sender_key room_id session_id none = some self
    keep_key self sender_key room_id none (some key) = none
    keep_key self sender_key room_id (some id) (some key) =
        if is_some (lookup self.in_group_sessions id)
        then some self
        else some (keep_group_session self id room_id (in_group_new lib key sender_key (some id)))

    unfoldable pub handle_m_room_key :
        CmEnc S I O → JsonObject → Option String → Option (CmEnc S I O)
    unfolding keep_key
    handle_m_room_key self root sender_key =
        let content = object_get_object (some root) (some "content") in
        keep_key self sender_key (object_get_string glib content (some "room_id"))
          (object_get_string glib content (some "session_id"))
          (object_get_string glib content (some "session_key"))

    -- the body is from the sender of the event, and for this device
    unfoldable pub is_for_device : CmEnc S I O → Option String → Option String → JsonObject → Bool
    unfolding strcmp0_eq
    is_for_device self ed_key sender content =
        let keys = object_get_object (some content) (some "recipient_keys") in
        strcmp0_eq sender (object_get_string glib (some content) (some "sender"))
        && (strcmp0_eq self.user_id (object_get_string glib (some content) (some "recipient"))
            && strcmp0_eq ed_key (object_get_string glib keys (some "ed25519")))

    -- the decrypted body in cm_enc_handle_room_encrypted
    unfoldable pub take_body :
        CmEnc S I O
        → Option String
        → Option String
        → Option String
        → JsonObject
        → Option (CmEnc S I O)
    unfolding handle_m_room_key is_for_device strcmp0_eq
    take_body self ed_key sender sender_key content =
        if is_for_device self ed_key sender content
          && strcmp0_eq (object_get_string glib (some content) (some "type")) (some "m.room_key")
        then handle_m_room_key self content sender_key
        else some self
