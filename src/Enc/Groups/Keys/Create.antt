-- ===== src/Enc/Groups/Keys/Create.antt =====
-- The keys of a room's group session for the devices of its members: cm_enc_create_out_group_keys and
-- ma_create_olm_out_session of src/cm-enc.c.
use libcmatrix.Base.{ℕ, suc, String, Option, none, some, List, [], ◌∷◌}
use libcmatrix.Base.Int.{ℤ}
use libcmatrix.Json.{object, int, JsonObject, end, set_member}
use libcmatrix.InputStream.FileJson.{set_string}
use libcmatrix.Olm.{
  Libolm, CmOlm, set_sender_details, set_account_details, set_key, set_db, out_group_new,
  get_message_index,
}
use libcmatrix.Olm.Shared.{get_session_key}
use libcmatrix.Room.{CmUserKey}
use libcmatrix.Enc.Groups.{
  ChatRoom, CmEnc, put_at, set_session, get_session_id, lookup_out_group_session,
}
use libcmatrix.Enc.Groups.Keys.{key_content, key_body}

-- The ids and keys of users and devices, the account's Ed25519 key, the printing of JSON, what libolm makes of
-- the account, a device's key and a one-time key, the random bytes and the clock.
pub record KeyEnv (S : Type 0) : Type 0 where
  pub user_id_of : ℕ → String
  pub device_id_of : ℕ → String
  pub curve_key_of : ℕ → Option String
  pub ed_key_of : ℕ → Option String
  pub ed_key : Option String
  pub json_text : JsonObject → String
  pub create_session : String → String → Option S
  pub message_type : S → ℤ
  pub random : String
  pub now : ℕ

module _ {S I O : Type 0} (lib : Libolm S I O) (env : KeyEnv S) where
  -- the object for a device
  unfoldable pub device_json : CmEnc S I O → JsonObject → S → String → JsonObject
  unfolding set_string
  device_json self body session curve_key =
      let (encrypted, next) = lib.olm_encrypt session (env.json_text body) in
      let content =
        set_string (set_member end "type" (int (env.message_type next))) "body" encrypted in
      let child = set_string end "algorithm" (some "m.olm.v1.curve25519-aes-sha2") in
      let child = set_string child "sender_key" self.curve_key in
      set_member child "ciphertext" (object (set_member end curve_key (object content)))

  -- a device without a key, a key that is NULL, or one for which there is no session: nothing is given
  unfoldable pub add_device_json :
      CmEnc S I O
      → JsonObject
      → ℕ
      → String
      → Option String
      → Option String
      → JsonObject
      → JsonObject
  unfolding device_json key_body
  add_device_json self content device recipient key none user = user
  add_device_json self content device recipient none (some curve_key) user = user
  add_device_json self content device recipient (some key) (some curve_key) user =
      elim (env.create_session curve_key key) [
        | none ↦ user
        | some session ↦ set_member user (env.device_id_of device) (
            object (
              device_json self
                (key_body self env.ed_key content (some recipient) (env.ed_key_of device)) session
                curve_key))
      ]

  -- the devices of a user and their keys
  unfoldable pub user_json :
      CmEnc S I O → JsonObject → String → List ℕ → List (Option String) → JsonObject → JsonObject
  unfolding add_device_json
  user_json self content recipient [] keys user = user
  user_json self content recipient (d ∷ devices) [] user = user
  user_json self content recipient (d ∷ devices) (key ∷ keys) user =
      user_json self content recipient devices keys
        (add_device_json self content d recipient key (env.curve_key_of d) user)

  unfoldable pub keys_json : CmEnc S I O → JsonObject → List CmUserKey → JsonObject → JsonObject
  unfolding user_json
  keys_json self content [] root = root
  keys_json self content (k ∷ ks) root = keys_json self content ks (
      set_member root (env.user_id_of k.user)
        (object (user_json self content (env.user_id_of k.user) k.devices k.keys end)))

  -- a new session at an address
  unfoldable pub add_session :
      CmEnc S I O → ChatRoom → Option (CmOlm S I O) → Option (ℕ × CmEnc S I O)
  unfolding set_account_details set_sender_details set_key set_db put_at
  add_session self room none = none
  add_session self room (some session) =
      let session = set_account_details session self.user_id self.device_id in
      let session = set_sender_details session room.room_id self.user_id in
      let session = set_db (set_key session self.pickle_key) self.cm_db in
      some (self.next, record (set_session self self.next session) { next = suc self.next })

  -- the session of the room, or a new one
  unfoldable pub find_or_add_session : CmEnc S I O → ChatRoom → Option ℕ → Option (ℕ × CmEnc S I O)
  unfolding add_session out_group_new
  find_or_add_session self room (some ref) = some (ref, self)
  find_or_add_session self room none =
      add_session self room (out_group_new lib env.random env.now self.curve_key)

  -- the id and the key of the session, and the objects
  unfoldable pub keys_of_session :
      ChatRoom → List CmUserKey → Option (ℕ × CmEnc S I O) → Option ((JsonObject × ℕ) × CmEnc S I O)
  unfolding keys_json get_session_id get_session_key get_message_index key_content put_at
  keys_of_session room one_time_keys none = none
  keys_of_session room one_time_keys (some (ref, self)) =
      let (id, session) = get_session_id lib (self.sessions ref) in
      let content =
        key_content room id (get_session_key lib session) (get_message_index lib session) in
      let next = set_session self ref session in
      some ((keys_json next content one_time_keys end, ref), next)

  -- cm_enc_create_out_group_keys: the objects, the address of the session and what is left, or NULL
  unfoldable pub create_out_group_keys :
      CmEnc S I O → ChatRoom → List CmUserKey → Option ((JsonObject × ℕ) × CmEnc S I O)
  unfolding keys_of_session find_or_add_session lookup_out_group_session
  create_out_group_keys self room [] = none
  create_out_group_keys self room (k ∷ ks) =
      keys_of_session room (k ∷ ks)
        (find_or_add_session self room (lookup_out_group_session self room.ref))
