-- ===== src/Olm.antt =====
-- A session of Olm or Megolm: src/cm-olm.c.
pub mod State
pub mod Group
pub mod Shared
use libcmatrix.Base.{
  ℕ, suc, String, ◌≡◌, Bool, true, false, ◌||◌, ◌&&◌, not, ◌+◌, ◌*◌, Option, none, some, List, [],
  ◌∷◌, leb, ◌==◌, if◌then◌else◌,
}
use libcmatrix.Base.Int.{ℤ, pos}
use libcmatrix.Base.Text.{str_eq, is_empty}
use libcmatrix.Event.{is_some}
use libcmatrix.Enc.{starts_with_at}

-- What libolm does, for its types of sessions `S`, of inbound group sessions `I` and of outbound group
-- sessions `O`. A result that is olm_error () is `none`. A call that changes a session returns it. The
-- call that measures a result and the call that fills it are one.
pub record Libolm (S I O : Type 0) : Type 0 where
  pub olm_decrypt : S → ℕ → String → Option String × S
  pub olm_encrypt : S → String → Option String × S
  pub olm_session_id : S → String
  pub group_decrypt : I → String → Option String × I
  pub inbound_id : I → String
  pub init_inbound : String → Option I
  pub group_encrypt : O → String → Option String × O
  pub init_outbound : String → Option O
  pub message_index : O → ℕ
  pub outbound_id : O → String
  pub outbound_key : O → Option String

-- the sessions that an outbound group session becomes as it encrypts
pub data Later {S I O : Type 0} (lib : Libolm S I O) (o : O) : O → Type 0 where
  same : Later lib o o
  encrypted : {p : O} (text : String) → Later lib o p → Later lib o (lib.group_encrypt p text).1

-- What libolm documents of group sessions.
pub record IsDocumented {S I O : Type 0} (lib : Libolm S I O) : Type 0 where
  -- a new session has sent nothing
  pub index-new :
      (random : String) (o : O) → lib.init_outbound random ≡ some o → lib.message_index o ≡ 0
  -- each message takes one index
  pub index-encrypt :
      (o : O) (text cipher : String)
      → (lib.group_encrypt o text).0 ≡ some cipher
      → lib.message_index (lib.group_encrypt o text).1 ≡ suc (lib.message_index o)
  -- the key of a session makes an inbound session, which reads the messages sent from then on
  pub key_accepted :
      (o : O) (key : String)
      → lib.outbound_key o ≡ some key
      → (i : I) × (lib.init_inbound key ≡ some i)
  pub reads :
      (o p : O) (key text cipher : String) (i : I)
      → Later lib o p
      → lib.outbound_key o ≡ some key
      → lib.init_inbound key ≡ some i
      → (lib.group_encrypt p text).0 ≡ some cipher
      → (lib.group_decrypt i cipher).0 ≡ some text

pub data CmSessionType : Type 0 where
  olm_v1_in olm_v1_out megolm_v1_in megolm_v1_out : CmSessionType

pub data CmOlmState : Type 0 where
  usable rotated invalidated not_set : CmOlmState

unfoldable pub state_value : CmOlmState → ℕ
state_value usable = 0
state_value rotated = 1
state_value invalidated = 2
state_value not_set = 8

-- `cm_db` is the address of the database
pub record CmOlm (S I O : Type 0) : Type 0 where
  pub cm_db : Option ℕ
  pub sender_id : Option String
  pub room_id : Option String
  pub account_user_id : Option String
  pub account_device_id : Option String
  pub curve_key : Option String
  pub pickle_key : Option String
  pub session_id : Option String
  pub session_key : Option String
  pub in_gp_session : Option I
  pub out_gp_session : Option O
  pub olm_session : Option S
  pub created_time : ℕ
  pub type : CmSessionType
  pub state : CmOlmState

-- `!s || !*s || *s != '@'`
unfoldable pub is_user_id : Option String → Bool
unfolding starts_with_at
is_user_id none = false
is_user_id (some s) = starts_with_at s

unfoldable pub same_state : CmOlmState → CmOlmState → Bool
unfolding state_value
same_state a b = state_value a == state_value b

module _ {S I O : Type 0} where
  unfoldable pub set_state : CmOlm S I O → CmOlmState → CmOlm S I O
  unfolding same_state
  set_state self state =
      if same_state state self.state
      then self
      else if same_state self.state usable
      then record self { state = state }
      else self

  unfoldable pub set_sender_details : CmOlm S I O → Option String → Option String → CmOlm S I O
  unfolding is_user_id is_some
  set_sender_details self room_id sender_id =
      if is_user_id sender_id && not (is_some self.sender_id)
      then record self { room_id = room_id; sender_id = sender_id }
      else self

  unfoldable pub set_account_details : CmOlm S I O → Option String → Option String → CmOlm S I O
  unfolding is_user_id is_some is_empty
  set_account_details self user_id device_id =
      if is_user_id user_id
        && not (is_empty device_id)
        && (not (is_some self.account_user_id) && not (is_some self.account_device_id))
      then record self { account_user_id = user_id; account_device_id = device_id }
      else self

  unfoldable pub set_db : CmOlm S I O → Option ℕ → CmOlm S I O
  unfolding is_some
  set_db self cm_db =
      if is_some cm_db && not (is_some self.cm_db) then record self { cm_db = cm_db } else self

  unfoldable pub set_key : CmOlm S I O → Option String → CmOlm S I O
  unfolding is_empty is_some
  set_key self key =
      if not (is_empty key) && not (is_some self.pickle_key)
      then record self { pickle_key = key }
      else self

  abbrev new_object : Option String → CmSessionType → CmOlm S I O
  new_object curve_key type = record {
    cm_db = none;
    sender_id = none;
    room_id = none;
    account_user_id = none;
    account_device_id = none;
    curve_key = curve_key;
    pickle_key = none;
    session_id = none;
    session_key = none;
    in_gp_session = none;
    out_gp_session = none;
    olm_session = none;
    created_time = 0;
    type = type;
    state = usable;
  }

  abbrev pub inbound_object : String → Option String → Option String → I → CmOlm S I O
  inbound_object key curve_key session_id session = record (new_object curve_key megolm_v1_in) {
    in_gp_session = some session;
    session_id = session_id;
    session_key = some key;
  }

  -- the fields that the inbound session takes from the outbound one
  unfoldable pub take_details : CmOlm S I O → CmOlm S I O → CmOlm S I O
  unfolding set_account_details set_sender_details set_key set_db
  take_details out_group self =
      let account =
        set_account_details self out_group.account_user_id out_group.account_device_id in
      let sender = set_sender_details account out_group.room_id out_group.sender_id in
      let keyed = set_key sender out_group.pickle_key in
      record (set_db keyed out_group.cm_db) { created_time = out_group.created_time }

  unfoldable pub with_details : CmOlm S I O → Option (CmOlm S I O) → Option (CmOlm S I O)
  unfolding take_details
  with_details out_group none = none
  with_details out_group (some self) = some (take_details out_group self)

  module _ (lib : Libolm S I O) where
    unfoldable pub message_index_of : Option O → ℕ
    message_index_of none = 0
    message_index_of (some session) = lib.message_index session

    unfoldable pub get_message_index : CmOlm S I O → ℕ
    unfolding message_index_of
    get_message_index self = message_index_of self.out_gp_session

    -- `now` is time (NULL), in seconds
    unfoldable pub is_outdated : CmOlm S I O → ℕ → ℕ → ℕ → Bool
    unfolding get_message_index
    is_outdated self count duration now =
        leb count (get_message_index self) || leb (self.created_time + duration) (now * 1000)

    unfoldable pub update_validity : CmOlm S I O → ℕ → ℤ → ℕ → CmOlm S I O
    unfolding is_outdated set_state
    update_validity self count (pos (suc duration)) now =
        if count == 0
        then self
        else if is_outdated self count (suc duration) now
        then set_state self rotated
        else self
    update_validity self count duration now = self

    unfoldable pub in_group_made :
        String → Option String → Option String → Option I → Option (CmOlm S I O)
    in_group_made key curve_key session_id none = none
    in_group_made key curve_key session_id (some session) =
        some (inbound_object key curve_key session_id session)

    -- cm_olm_in_group_new of a session key
    unfoldable pub in_group_new : String → Option String → Option String → Option (CmOlm S I O)
    unfolding in_group_made
    in_group_new key curve_key session_id =
        in_group_made key curve_key session_id (lib.init_inbound key)

    unfoldable pub in_group_of_key :
        CmOlm S I O → Option String → Option String → Option (CmOlm S I O)
    unfolding with_details in_group_new
    in_group_of_key out_group curve_key none = none
    in_group_of_key out_group curve_key (some key) =
        with_details out_group (in_group_new key curve_key out_group.session_id)

    -- cm_olm_in_group_new_from_out; `none` is the use of a NULL, where there is no key or
    -- cm_olm_in_group_new fails
    unfoldable pub in_group_new_from_out : CmOlm S I O → Option String → Option (CmOlm S I O)
    unfolding in_group_of_key
    in_group_new_from_out out_group curve_key =
        in_group_of_key out_group curve_key out_group.session_key

    unfoldable pub out_group_made : ℕ → Option String → O → Option String → Option (CmOlm S I O)
    out_group_made now curve_key session none = none
    out_group_made now curve_key session (some key) =
        some (record (new_object curve_key megolm_v1_out) {
          out_gp_session = some session;
          session_key = some key;
          created_time = now * 1000;
        })

    unfoldable pub out_group_from : ℕ → Option String → Option O → Option (CmOlm S I O)
    unfolding out_group_made
    out_group_from now curve_key none = none
    out_group_from now curve_key (some session) =
        out_group_made now curve_key session (lib.outbound_key session)

    -- cm_olm_out_group_new with the random bytes, at time (NULL)
    unfoldable pub out_group_new : String → ℕ → Option String → Option (CmOlm S I O)
    unfolding out_group_from
    out_group_new random now curve_key = out_group_from now curve_key (lib.init_outbound random)

    unfoldable pub encrypt_group : CmOlm S I O → String → Option O → Option String × CmOlm S I O
    encrypt_group self text none = (none, self)
    encrypt_group self text (some session) =
        let (cipher, next) = lib.group_encrypt session text in
        (cipher, record self { out_gp_session = some next })

    unfoldable pub encrypt_with : CmOlm S I O → String → Option S → Option String × CmOlm S I O
    unfolding encrypt_group
    encrypt_with self text none = encrypt_group self text self.out_gp_session
    encrypt_with self text (some session) =
        let (cipher, next) = lib.olm_encrypt session text in
        (cipher, record self { olm_session = some next })

    -- cm_olm_encrypt, of a session that can encrypt
    unfoldable pub encrypt : CmOlm S I O → Option String → Option String × CmOlm S I O
    unfolding encrypt_with
    encrypt self none = (none, self)
    encrypt self (some text) = encrypt_with self text self.olm_session

    -- group_session_decrypt
    unfoldable pub decrypt_group : CmOlm S I O → String → Option I → Option String × CmOlm S I O
    decrypt_group self message none = (none, self)
    decrypt_group self message (some session) =
        let (text, next) = lib.group_decrypt session message in
        (text, record self { in_gp_session = some next })

    -- cm_olm_decrypt; session_decrypt is the second clause
    unfoldable pub decrypt_with : CmOlm S I O → ℕ → String → Option S → Option String × CmOlm S I O
    unfolding decrypt_group
    decrypt_with self type message none = decrypt_group self message self.in_gp_session
    decrypt_with self type message (some session) =
        let (text, next) = lib.olm_decrypt session type message in
        (text, record self { olm_session = some next })

    unfoldable pub decrypt : CmOlm S I O → ℕ → Option String → Option String × CmOlm S I O
    unfolding decrypt_with
    decrypt self type none = (none, self)
    decrypt self type (some message) = decrypt_with self type message self.olm_session
