-- ===== src/Enc.antt =====
-- Signed JSON objects: cm_enc_verify of src/cm-enc.c.
pub mod Signed
pub mod Groups
use Prim.Native.Char.{code}
use Prim.Native.String.{◌++◌}
use libcmatrix.Base.{String, Bool, true, false, Option, none, some, ◌==◌, ◌||◌, not, if◌then◌else◌}
use libcmatrix.Base.Text.{str_eq}
use libcmatrix.Json.{JsonObject, get_member}
use libcmatrix.Json.Glib.{JsonGlib}
use libcmatrix.Json.Access.{object_get_string, object_get_object}
use libcmatrix.Json.Canonical.{strip, put_back, json_get_canonical, visited_object}

-- json-glib, and olm_ed25519_verify of a key, a text and a signature
pub record EncEnv : Type 0 where
  pub glib : JsonGlib
  pub ed25519_verify : String → String → String → Bool

-- `*s == '@'`
unfoldable pub starts_with_at : String → Bool
starts_with_at String.[] = false
starts_with_at (String.◌∷◌ c s) = code c == 64

module _ (env : EncEnv) where
  -- the signature that the object carries of the device
  unfoldable pub signature_of : JsonObject → String → String → Option String
  signature_of object matrix_id device_id =
      object_get_string env.glib
        (object_get_object (object_get_object (some object) (some "signatures")) (some matrix_id))
        (some ("ed25519:" ++ device_id))

  -- The members are taken out, the text is made, and what was copied is set again. Both copies are
  -- of "signatures".
  unfoldable pub reverted : JsonObject → JsonObject
  reverted object =
      let signatures = get_member object "signatures" in
      let non_signed = get_member object "signatures" in
      put_back (put_back (visited_object (strip object)) "signatures" signatures) "unsigned"
        non_signed

  unfoldable pub enc_verify_text : JsonObject → String → Option String → Bool × Option JsonObject
  unfolding reverted
  enc_verify_text object ed_key none = (false, some object)
  enc_verify_text object ed_key (some signature) = (
    env.ed25519_verify ed_key (json_get_canonical env.glib (strip object) "") signature,
    some (reverted object),
  )

  -- the result, and the object as the call leaves it; any of the arguments may be NULL
  unfoldable pub enc_verify :
      Option JsonObject → Option String → Option String → Option String → Bool × Option JsonObject
  unfolding enc_verify_text signature_of starts_with_at
  enc_verify (some object) (some matrix_id) (some device_id) (some ed_key) =
      if not (starts_with_at matrix_id) || (str_eq device_id "" || str_eq ed_key "")
      then (false, some object)
      else enc_verify_text object ed_key (signature_of object matrix_id device_id)
  enc_verify object _ _ _ = (false, object)
