-- ===== src/Device.antt =====
-- A device of a user: src/cm-device.c.
pub mod Trust
use Prim.Native.String.{◌++◌}
use libcmatrix.Base.{
  ℕ, String, Bool, true, false, Option, none, some, List, [], ◌∷◌, ◌&&◌, not, if◌then◌else◌,
}
use libcmatrix.Base.Text.{str_eq, strcmp0_eq}
use libcmatrix.Json.{JsonNode, Elements, JsonObject, end, elements}
use libcmatrix.Json.Glib.{JsonGlib}
use libcmatrix.Json.Access.{object_get_string, object_get_object, object_get_array}
use libcmatrix.Enc.{EncEnv, enc_verify}

-- `ref` is the address of the object, and `user` that of its user. The JSON object is shared with
-- whoever gave it.
pub record CmDevice : Type 0 where
  pub ref : ℕ
  pub user : ℕ
  pub json : JsonObject
  pub device_id : Option String
  pub device_name : Option String
  pub ed_key : Option String
  pub curve_key : Option String
  pub meagolm_v1 : Bool
  pub olm_v1 : Bool
  pub signature_failed : Bool
  pub verified : Bool

abbrev pub algorithm_megolm : String
algorithm_megolm = "m.megolm.v1.aes-sha2"

abbrev pub algorithm_olm : String
algorithm_olm = "m.olm.v1.curve25519-aes-sha2"

-- the loop over the algorithms; json_array_get_string_element is `get_string` of the element
unfoldable pub set_algorithms : JsonGlib → List JsonNode → CmDevice → CmDevice
unfolding strcmp0_eq
set_algorithms g [] self = self
set_algorithms g (x ∷ xs) self = set_algorithms g xs (
    if strcmp0_eq (g.get_string x) (some algorithm_megolm)
    then record self { meagolm_v1 = true }
    else if strcmp0_eq (g.get_string x) (some algorithm_olm)
    then record self { olm_v1 = true }
    else self)

unfoldable pub array_elements : Option Elements → List JsonNode
unfolding elements
array_elements none = []
array_elements (some xs) = elements xs

-- what the device holds before the signature is checked
unfoldable pub device_of : JsonGlib → ℕ → ℕ → String → JsonObject → CmDevice
device_of g ref user device_id root = record {
  ref = ref;
  user = user;
  json = root;
  device_id = some device_id;
  device_name =
      object_get_string g (object_get_object (some root) (some "unsigned"))
        (some "device_display_name");
  ed_key =
      object_get_string g (object_get_object (some root) (some "keys"))
        (some ("ed25519:" ++ device_id));
  curve_key = none;
  meagolm_v1 = false;
  olm_v1 = false;
  signature_failed = false;
  verified = false;
}

-- once the signature was checked; `root` is the object as the check left it
unfoldable pub checked : JsonGlib → String → Bool → JsonObject → CmDevice → CmDevice
unfolding set_algorithms array_elements
checked g device_id false root self = record self { json = root; signature_failed = true }
checked g device_id true root self =
    set_algorithms g (array_elements (object_get_array (some root) (some "algorithms")))
      (record self {
        json = root;
        curve_key =
            object_get_string g (object_get_object (some root) (some "keys"))
              (some ("curve25519:" ++ device_id));
      })

-- the object that a check of one leaves
unfoldable pub or_end : Option JsonObject → JsonObject
or_end none = end
or_end (some o) = o

module _ (env : EncEnv) where
  unfoldable pub check_signature : Option String → String → CmDevice → CmDevice
  unfolding checked or_end
  check_signature user_id device_id self =
      let (good, left) = enc_verify env (some self.json) user_id (some device_id) self.ed_key in
      checked env.glib device_id good (or_end left) self

  -- from the reading of the device's id on
  unfoldable pub device_named : ℕ → ℕ → Option String → JsonObject → Option String → Option CmDevice
  unfolding check_signature device_of
  device_named ref user user_id root none = none
  device_named ref user user_id root (some device_id) =
      if str_eq device_id ""
      then none
      else some (check_signature user_id device_id (device_of env.glib ref user device_id root))

  -- cm_device_new of the user with the id, for a client; NULL is `none`
  unfoldable pub device_new : ℕ → ℕ → Option String → JsonObject → Option CmDevice
  unfolding device_named strcmp0_eq
  device_new ref user user_id root =
      if strcmp0_eq user_id (object_get_string env.glib (some root) (some "user_id"))
      then device_named ref user user_id root
          (object_get_string env.glib (some root) (some "device_id"))
      else none

unfoldable pub set_verified : CmDevice → Bool → CmDevice
set_verified self verified = record self { verified = verified }

unfoldable pub is_verified : CmDevice → Bool
is_verified self = not self.signature_failed && self.verified
