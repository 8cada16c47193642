-- ===== src/Enc/Groups/Received.antt =====
-- An event of an encrypted room is decrypted: cm_enc_handle_join_room_encrypted and
-- cm_enc_save_file_enc of src/cm-enc.c.
use libcmatrix.Base.{ℕ, suc, String, not, ◌&&◌, Option, none, some, if◌then◌else◌}
use libcmatrix.Base.Table.{insert, contains}
use libcmatrix.Event.{is_some}
use libcmatrix.Json.{JsonObject}
use libcmatrix.Json.Access.{object_get_string, object_get_object}
use libcmatrix.Olm.{Libolm, CmOlm, decrypt}
use libcmatrix.InputStream.FileJson.{JsonFileInfo, get_json_file_enc_info}
use libcmatrix.Enc.Groups.{ChatEnv, CmEnc, put_at, session_of, set_session}

module _ {S I O : Type 0} where
  unfoldable pub save_uri : CmEnc S I O → JsonFileInfo → Option String → CmEnc S I O
  save_uri self info none = self
  save_uri self info (some uri) =
      if contains self.enc_files uri
      then self
      else record self { enc_files = insert self.enc_files uri info }

  unfoldable pub save_info : CmEnc S I O → Option JsonFileInfo → CmEnc S I O
  unfolding save_uri
  save_info self none = self
  save_info self (some info) = save_uri self info info.mxc_uri

module _ {S I O : Type 0} (env : ChatEnv) where
  -- cm_enc_save_file_enc
  unfoldable pub save_file_enc : CmEnc S I O → Option JsonObject → CmEnc S I O
  unfolding save_info
  save_file_enc self none = self
  save_file_enc self (some root) = save_info self (
      get_json_file_enc_info env.glib
        (object_get_object (object_get_object (some root) (some "content")) (some "file")))

  unfoldable pub keep_files : CmEnc S I O → Option String → CmEnc S I O
  unfolding save_file_enc
  keep_files self none = self
  keep_files self (some text) =
      if env.has_key_ops text then save_file_enc self (env.parse text) else self

  module _ (lib : Libolm S I O) where
    unfoldable pub decrypt_by : CmEnc S I O → String → Option ℕ → Option String × CmEnc S I O
    unfolding keep_files put_at
    decrypt_by self ciphertext none = (none, self)
    decrypt_by self ciphertext (some ref) =
        let (text, session) = decrypt lib (self.sessions ref) 0 (some ciphertext) in
        (text, keep_files (set_session self ref session) text)

    -- The session that cm_db_lookup_session finds gets an address and the id, and `none` is the use of
    -- a NULL id as a key.
    unfoldable pub decrypt_found :
        CmEnc S I O
        → String
        → Option String
        → Option (CmOlm S I O)
        → Option (Option String × CmEnc S I O)
    unfolding decrypt_by
    decrypt_found self ciphertext id none = some (none, self)
    decrypt_found self ciphertext none (some found) = none
    decrypt_found self ciphertext (some id) (some found) = some (
        decrypt_by
          (record (set_session self self.next found) {
            next = suc self.next;
            in_group_sessions = insert self.in_group_sessions id self.next;
          })
          ciphertext (some self.next))

    unfoldable pub decrypt_text :
        CmEnc S I O
        → Option String
        → Option (CmOlm S I O)
        → Option String
        → Option (Option String × CmEnc S I O)
    unfolding decrypt_found decrypt_by session_of
    decrypt_text self id found none = some (none, self)
    decrypt_text self id found (some ciphertext) =
        if not (is_some (session_of self.in_group_sessions id)) && is_some self.cm_db
        then decrypt_found self ciphertext id found
        else some (decrypt_by self ciphertext (session_of self.in_group_sessions id))

    -- cm_enc_handle_join_room_encrypted; `found` is what the database has
    unfoldable pub handle_join_room_encrypted :
        CmEnc S I O
        → Option JsonObject
        → Option (CmOlm S I O)
        → Option (Option String × CmEnc S I O)
    unfolding decrypt_text
    handle_join_room_encrypted self none found = some (none, self)
    handle_join_room_encrypted self (some object) found =
        decrypt_text self (object_get_string env.glib (some object) (some "session_id")) found
          (object_get_string env.glib (some object) (some "ciphertext"))
