-- ===== src/Sas/State.antt =====
-- The state of CmOlmSas (src/cm-olm-sas.c), and the CmVerificationEvent (src/events/cm-verification-event.c)
-- and CmDevice that it uses. What Olm, GLib, the client and the list of users give is a record.
use Prim.Native.String.{◌++◌}
use libcmatrix.Base.{
  ℕ, String, ◌≡◌, Bool, false, true, ◌&&◌, Option, none, some, List, [], ◌∷◌, leb, if◌then◌else◌,
}
use libcmatrix.Base.Text.{str_eq, strcmp0_eq}
use libcmatrix.Json.{JsonObject}
use libcmatrix.Json.Glib.{JsonGlib}
use libcmatrix.Json.Access.{object_get_string, object_get_object}
use libcmatrix.EventType.{
  CmEventType, key_verification_accept, key_verification_start, key_verification_key, value,
}
use libcmatrix.Event.{CmEvent}
use libcmatrix.Event.Json.{set_json}
use libcmatrix.Sas.Bytes.{SasBytes}

pub record CmDevice : Type 0 where
  pub device_id : Option String
  pub ed_key : Option String

-- `ref` is the address of the object
pub record CmVerificationEvent : Type 0 where
  pub ref : ℕ
  pub event : CmEvent
  pub transaction_id : Option String
  pub verification_key : Option String

-- The secret of olm_sas and what surrounds it.
pub record SasEnv : Type 0 where
  pub glib : JsonGlib
  -- cm_client_get_user_id, cm_client_get_device_id and cm_client_get_ed25519_key of a client that is
  -- logged in
  pub user_id : String
  pub device_id : String
  pub ed25519_key : String
  -- olm_sas_get_pubkey, and olm_sha256 of libolm
  pub pubkey : String
  pub sha256 : String → String
  -- olm_sas_calculate_mac and olm_sas_generate_bytes, with the other side's key if it was set
  pub olm_calculate_mac : Option String → String → String → String
  pub olm_generate_bytes : Option String → String → SasBytes
  -- the key that olm_sas_set_their_key leaves, which may refuse the text
  pub olm_set_their_key : String → Option String
  -- g_strsplit by ":", strlen, and g_string_truncate to a length that is shorter by the argument
  pub split : String → List String
  pub strlen : String → ℕ
  pub truncate_by : ℕ → String → String
  pub truncate_by-append : (s t : String) → truncate_by (strlen t) (s ++ t) ≡ s

-- the objects that g_object_set_data attaches to the event that began the verification
pub record Attached : Type 0 where
  pub cancel : Option CmVerificationEvent
  pub done : Option CmVerificationEvent
  pub key : Option CmVerificationEvent
  pub mac : Option CmVerificationEvent
  pub ready : Option CmVerificationEvent
  pub request : Option CmVerificationEvent
  pub start : Option CmVerificationEvent

abbrev pub nothing_attached : Attached
nothing_attached = record {
  cancel = none;
  done = none;
  key = none;
  mac = none;
  ready = none;
  request = none;
  start = none;
}

-- an event that is sent: its local id, and its JSON object
pub record Reply : Type 0 where
  pub type : CmEventType
  pub txn_id : Option String
  pub json : JsonObject

-- `olm_their_key` is the key that olm_sas_set_their_key set; `verified_devices` are the calls of
-- cm_device_set_verified.
pub record CmOlmSas : Type 0 where
  pub our_pub_key : Option String
  pub their_pub_key : Option String
  pub olm_their_key : Option String
  pub their_user_id : Option String
  pub their_device_id : Option String
  pub their_device : Option CmDevice
  pub cancel_code : Option String
  pub key_verification : Option CmVerificationEvent
  pub attached : Attached
  pub key_verification_cancel : Option Reply
  pub key_verification_accept : Option Reply
  pub key_verification_ready : Option Reply
  pub key_verification_mac : Option Reply
  pub key_verification_done : Option Reply
  pub verification_key : Option Reply
  pub commitment_str : String
  pub sas_bytes : Option SasBytes
  pub sas_emojis : Option (List (Option String))
  pub verified : Bool
  pub verified_devices : List CmDevice

-- cm_olm_sas_new
abbrev pub sas_new : CmOlmSas
sas_new = record {
  our_pub_key = none;
  their_pub_key = none;
  olm_their_key = none;
  their_user_id = none;
  their_device_id = none;
  their_device = none;
  cancel_code = none;
  key_verification = none;
  attached = nothing_attached;
  key_verification_cancel = none;
  key_verification_accept = none;
  key_verification_ready = none;
  key_verification_mac = none;
  key_verification_done = none;
  verification_key = none;
  commitment_str = "";
  sas_bytes = none;
  sas_emojis = none;
  verified = false;
  verified_devices = [];
}

-- "%s" of a string that may be NULL
abbrev pub or_null : Option String → String
or_null none = "(null)"
or_null (some s) = s

unfoldable pub find_in : List CmDevice → String → Option CmDevice
find_in [] id = none
find_in (device ∷ devices) id =
    if strcmp0_eq device.device_id (some id) then some device else find_in devices id

-- cm_user_find_device, over the list of the user's devices
unfoldable pub find_device : List CmDevice → Option String → Option CmDevice
find_device devices none = none
find_device devices (some id) = if str_eq id "" then none else find_in devices id

abbrev is_key : CmEventType → Bool
is_key key_verification_key = true
is_key _ = false

-- cm_verification_event_set_json: once, and the fields only for an event of a verification
unfoldable pub set_verification_json :
    JsonGlib → CmVerificationEvent → JsonObject → CmVerificationEvent
unfolding value
set_verification_json g self root = elim self.transaction_id [
  | some id ↦ self
  | none ↦
      let event = set_json g self.event (some root) none in
      let type = value event.event_type in
      let child = object_get_object (some root) (some "content") in
      if leb (value key_verification_accept) type && leb type (value key_verification_start)
      then record self {
        event = event;
        transaction_id = object_get_string g child (some "transaction_id");
        verification_key =
            if is_key event.event_type
            then object_get_string g child (some "key")
            else self.verification_key;
      }
      else record self { event = event }
]
