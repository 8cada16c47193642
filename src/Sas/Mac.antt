-- ===== src/Sas/Mac.antt =====
-- The authentication of the keys: cm_olm_sas_parse_verification_mac and the content of
-- cm_olm_sas_get_mac_event of src/cm-olm-sas.c.
pub mod Exchange
pub mod Checked
use Prim.Native.String.{◌++◌ as ◌⧺◌}
use libcmatrix.Base.{
  String, true, ◌||◌, ◌&&◌, not, Option, none, some, List, [], ◌∷◌, ◌++◌, if◌then◌else◌,
}
use libcmatrix.Base.Text.{str_eq, strcmp0_eq}
use libcmatrix.Json.{JsonObject, end, string, object, set_member, get_members}
use libcmatrix.Json.Access.{object_get_string, object_get_object}
use libcmatrix.Event.{CmEvent, is_some}
use libcmatrix.Sas.State.{CmDevice, CmVerificationEvent, SasEnv, CmOlmSas, or_null, find_device}

unfoldable pub calculate_mac : SasEnv → CmOlmSas → String → String → String
calculate_mac env self input info = env.olm_calculate_mac self.olm_their_key input info

-- every name followed by "," and the last "," removed
unfoldable pub join_key_ids : List String → String
join_key_ids [] = ""
join_key_ids (k ∷ []) = k
join_key_ids (k ∷ l ∷ ks) = k ⧺ ("," ⧺ join_key_ids (l ∷ ks))

abbrev pub mac_info : String → String → String → String → Option String → String
mac_info from_user from_device to_user to_device transaction_id =
    "MATRIX_KEY_VERIFICATION_MAC"
    ⧺ (from_user ⧺ (from_device ⧺ (to_user ⧺ (to_device ⧺ or_null transaction_id))))

-- cm_verification_event_get_transaction_id, of an event that may be NULL
abbrev pub transaction_of : Option CmVerificationEvent → Option String
transaction_of none = none
transaction_of (some event) = event.transaction_id

abbrev pub first_part : List String → Option String
first_part [] = none
first_part (x ∷ xs) = some x

abbrev pub second_part : List String → Option String
second_part [] = none
second_part (x ∷ []) = none
second_part (x ∷ y ∷ ys) = some y

-- what one round of the loop over the keys leaves: the function returns, or the loop goes on with
-- the text of `base_info`
pub data MacStep : Type 0 where
  stop : CmOlmSas → MacStep
  next : String → CmOlmSas → MacStep

abbrev pub mismatch : CmOlmSas → CmOlmSas
mismatch self = record self { cancel_code = some "m.key_mismatch" }

-- the device is the other side's
unfoldable pub accept_device : CmDevice → CmOlmSas → CmOlmSas
accept_device device self = record self {
  verified = true;
  their_device = some device;
  verified_devices = self.verified_devices ++ device ∷ [];
}

module _ (env : SasEnv) where
  -- the MAC of a key of their device; `old` is `base_info` before
  unfoldable pub check_key : Option CmDevice → Option String → String → String → CmOlmSas → MacStep
  unfolding calculate_mac accept_device
  check_key none key_mac item old self = stop (mismatch self)
  check_key (some device) none item old self = stop (mismatch self)
  check_key (some device) (some key_mac) item old self = elim device.ed_key [
    | none ↦ stop (mismatch self)
    | some ed_key ↦
        let info = env.truncate_by (env.strlen "KEY_IDS") old ⧺ item in
        if str_eq key_mac (calculate_mac env self ed_key info)
        then next info (accept_device device self)
        else stop (mismatch self)
  ]

  module _ (devices : List CmDevice) (mac_json : JsonObject) where
    unfoldable pub check_item : String → String → CmOlmSas → MacStep
    unfolding check_key
    check_item item old self =
        if strcmp0_eq (first_part (env.split item)) (some "ed25519")
        then if strcmp0_eq (second_part (env.split item)) self.their_device_id
          then check_key (find_device devices self.their_device_id)
              (object_get_string env.glib (some mac_json) (some item)) item old self
          else next old self
        else stop (mismatch self)

    unfoldable pub check_items : List String → String → CmOlmSas → CmOlmSas
    unfolding check_item
    check_items [] old self = self
    check_items (item ∷ items) old self = elim (check_item item old self) [
      | stop s ↦ s
      | next info s ↦ check_items items info s
    ]

  -- `devices` are those of the sender of the event that began the verification
  unfoldable pub their_info : CmOlmSas → String
  their_info self =
      mac_info (or_null self.their_user_id) (or_null self.their_device_id) env.user_id env.device_id
        (transaction_of self.key_verification)

  unfoldable pub check_keys :
      List CmDevice → Option JsonObject → JsonObject → List String → CmOlmSas → CmOlmSas
  unfolding calculate_mac their_info join_key_ids
  check_keys devices content mac_json [] self = mismatch self
  check_keys devices content mac_json (member ∷ members) self =
      let info = their_info self ⧺ "KEY_IDS" in
      let mac = calculate_mac env self (join_key_ids (member ∷ members)) info in
      if strcmp0_eq (some mac) (object_get_string env.glib content (some "keys"))
      then check_items devices mac_json (member ∷ members) info self
      else mismatch self

  unfoldable pub check_mac : List CmDevice → Option JsonObject → CmOlmSas → CmOlmSas
  unfolding check_keys
  check_mac devices content self = elim (object_get_object content (some "mac")) [
    | none ↦ mismatch self
    | some mac_json ↦
        check_keys devices content mac_json (env.glib.sort (get_members mac_json)) self
  ]

  unfoldable pub parse_verification_mac : List CmDevice → CmEvent → CmOlmSas → CmOlmSas
  unfolding check_mac
  parse_verification_mac devices event self =
      if not (is_some self.attached.key) && not (is_some self.cancel_code)
      then record self { cancel_code = some "m.unexpected_message" }
      else if self.verified || is_some self.cancel_code
      then self
      else check_mac devices (object_get_object event.json (some "content")) self

  -- the content of the event that cm_olm_sas_get_mac_event makes, apart from the transaction
  unfoldable pub mac_content : CmOlmSas → JsonObject → JsonObject
  unfolding calculate_mac
  mac_content self content =
      let key_id = "ed25519:" ⧺ env.device_id in
      let base =
        mac_info env.user_id env.device_id (or_null self.their_user_id)
          (or_null self.their_device_id) (transaction_of self.key_verification) in
      let mac = calculate_mac env self env.ed25519_key (base ⧺ key_id) in
      let info = env.truncate_by (env.strlen key_id) (base ⧺ key_id) ⧺ "KEY_IDS" in
      let keys = calculate_mac env self key_id info in
      set_member (set_member content "mac" (object (set_member end key_id (string mac)))) "keys"
        (string keys)
