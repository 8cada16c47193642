-- ===== src/Tests/Users.antt =====
-- Signed objects, devices and the devices of users.
use mathlib.Core.Path.{subst}
use mathlib.Core.Option.{some-injective, none-ne-some}
use mathlib.Core.List.Perm
use libcmatrix.Base.{
  ℕ, String, ◌≡◌, refl, sym, ◌∙◌, true, false, none, some, [], ◌∷◌, arith, eq_iff, ◌&&◌,
  if◌then◌else◌, Bool-cases, inl, inr,
}
use libcmatrix.Base.Text.{str_eq, strcmp0_eq}
use libcmatrix.Base.Table.{lookup, contains}
use libcmatrix.Json.{JsonObject, string, object, end, member, get_member}
use libcmatrix.Json.Access.{find_member, object_get_string, object_get_object}
use libcmatrix.Json.Sample.{sample}
use libcmatrix.Enc.{EncEnv, starts_with_at, signature_of, reverted, enc_verify_text, enc_verify}
use libcmatrix.Enc.Signed.{enc_verify_determined, enc_verify_left}
use libcmatrix.Device.{
  CmDevice, device_of, check_signature, device_named, device_new, is_verified, set_verified,
}
use libcmatrix.Device.Trust.{device_new-IsTrustedBy}
use libcmatrix.User.{CmUser, set_devices}
use libcmatrix.User.Devices.{device_id_of, IsNamed, is_listed, lookup-set_devices}
use libcmatrix.User.Consistent.{IsConsistent, set_devices-IsConsistent}
use libcmatrix.User.Replaced.{listed_twice, set_devices_replaced}

-- a key verifies the signature "good" of every text
abbrev pub sample_enc : EncEnv
sample_enc = record {
  glib = sample;
  ed25519_verify = λ key text signature. str_eq signature "good";
}

abbrev signatures : JsonObject
signatures = member "@a:x" (object (member "ed25519:D" (string "good") end)) end

abbrev keys_of_d : JsonObject
keys_of_d = member "ed25519:D" (string "K") (member "curve25519:D" (string "C") end)

-- the keys of the device "D" of "@a:x"
abbrev device_keys : JsonObject
device_keys = member "user_id" (string "@a:x") (
    member "device_id" (string "D")
      (member "keys" (object keys_of_d) (member "signatures" (object signatures) end)))

abbrev with_name : JsonObject
with_name =
    member "unsigned" (object (member "device_display_name" (string "phone") end)) device_keys

device_keys-IsUnique : libcmatrix.Json.IsUnique device_keys
unfolding get_member
device_keys-IsUnique = (refl, (refl, (refl, (refl, tt))))

same_but_name :
    (k : String) → str_eq "unsigned" k ≡ false → get_member with_name k ≡ get_member device_keys k
unfolding get_member
same_but_name k h = rw h refl

enc_verify_determined_example :
    (enc_verify sample_enc (some with_name) (some "@a:x") (some "D") (some "K")).0
    ≡ (enc_verify sample_enc (some device_keys) (some "@a:x") (some "D") (some "K")).0
unfolding get_member
enc_verify_determined_example =
    enc_verify_determined sample_enc with_name device_keys (some "@a:x") (some "D") (some "K")
      (refl, device_keys-IsUnique) device_keys-IsUnique same_but_name

accepted :
    enc_verify sample_enc (some with_name) (some "@a:x") (some "D") (some "K")
    ≡ (true, some (reverted sample_enc with_name))
unfolding enc_verify enc_verify_text signature_of starts_with_at object_get_string object_get_object
    find_member get_member
accepted = refl

enc_verify_left_example :
    get_member (reverted sample_enc with_name) "unsigned" ≡ some (object signatures)
unfolding get_member
enc_verify_left_example =
    enc_verify_left sample_enc with_name (reverted sample_enc with_name) (some "@a:x") (some "D")
      (some "K") "unsigned" (refl, device_keys-IsUnique) accepted

-- the device that is made of `device_keys`
abbrev new_device : ℕ → CmDevice
new_device ref =
    check_signature sample_enc (some "@a:x") "D" (device_of sample ref 1 "D" device_keys)

made : (ref : ℕ) → device_new sample_enc ref 1 (some "@a:x") device_keys ≡ some (new_device ref)
unfolding device_new device_named strcmp0_eq object_get_string find_member get_member
made ref = refl

device_new-IsTrustedBy_example : is_verified (set_verified (new_device 7) true) ≡ (
    (enc_verify sample_enc
      (some device_keys)
      (some "@a:x")
      (new_device 7).device_id
      (new_device 7).ed_key).0
    && true)
device_new-IsTrustedBy_example =
    (device_new-IsTrustedBy sample_enc 7 1 (some "@a:x") device_keys (new_device 7) true (made 7)).4

-- the server's reply, and a user whose device "D" stands at the address 5
abbrev reply : JsonObject
reply = member "D" (object device_keys) end

abbrev sample_user : CmUser
sample_user = record {
  ref = 1;
  user_id = some "@a:x";
  devices = device_of sample 5 1 "D" device_keys ∷ [];
  devices_table = ("D", 5) ∷ [];
}

nameless : (name : String) → str_eq "D" name ≡ false → device_id_of sample reply name ≡ none
unfolding object_get_string object_get_object find_member get_member
nameless name e = ground (arith, e)

reply-IsNamed : IsNamed sample reply
unfolding object_get_string object_get_object find_member get_member
reply-IsNamed name id h = elim (Bool-cases (str_eq "D" name)) [
  | inl e ↦
      let same = (eq_iff "D" name).0 e in
      sym same
      ∙ some-injective "D" id
          (subst (λ (n : String). device_id_of sample reply n ≡ some id) (sym same) h)
  | inr e ↦ absurd (none-ne-some id (sym (nameless name e) ∙ h))
]

lookup-set_devices_example :
    lookup (set_devices sample_enc 8 sample_user reply).user.devices_table "D"
    ≡ (if is_listed sample reply "D" then some 5 else none)
unfolding lookup get_member
lookup-set_devices_example =
    lookup-set_devices sample_enc 8 sample_user reply "D" 5 (refl, tt) reply-IsNamed refl

set_devices-IsConsistent_example : IsConsistent (set_devices sample_enc 8 sample_user reply).user
unfolding contains get_member device_of
set_devices-IsConsistent_example =
    set_devices-IsConsistent sample_enc 8 sample_user reply (refl, tt) reply-IsNamed
      ((refl, tt), Perm.refl _)

set_devices_replaced_example :
    lookup
      (set_devices sample_enc 8 sample_user
        (listed_twice "E" device_keys "D" device_keys)).user.devices_table
      "D"
    ≡ some (new_device 8).ref
unfolding lookup object_get_string find_member get_member
set_devices_replaced_example =
    set_devices_replaced sample_enc 8 sample_user "E" "D" device_keys device_keys 5 (new_device 8)
      refl refl refl refl refl refl refl (made 8)
