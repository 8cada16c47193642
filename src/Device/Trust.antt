-- ===== src/Device/Trust.antt =====
-- What a device that was made of a JSON object is trusted for (src/cm-device.c).
use mathlib.Core.Option.{some-injective, none-ne-some}
use libcmatrix.Base.{
  ℕ, String, ◌≡◌, refl, Bool, true, false, Option, none, some, List, [], ◌∷◌, ◌&&◌, ◌||◌, not,
  if◌then◌else◌, arith, any, Bool-cases, inl, inr,
}
use libcmatrix.Base.Text.{strcmp0_eq, strcmp0_eq_lem, str_eq}
use libcmatrix.Json.{JsonNode, JsonObject}
use libcmatrix.Json.Access.{object_get_string, object_get_object, object_get_array}
use Prim.Native.String.{◌++◌}
use libcmatrix.Json.Glib.{JsonGlib}
use libcmatrix.Enc.{EncEnv, enc_verify}
use libcmatrix.Device.{
  CmDevice, device_new, set_verified, is_verified, set_algorithms, array_elements, checked, or_end,
  check_signature, device_named, device_of, algorithm_megolm, algorithm_olm,
}

module _ (g : JsonGlib) where
  abbrev pub names : String → List JsonNode → Bool
  names algorithm xs = any (λ x. strcmp0_eq (g.get_string x) (some algorithm)) xs

  not_olm :
      (v : Option String)
      → strcmp0_eq v (some algorithm_megolm) ≡ true
      → strcmp0_eq v (some algorithm_olm) ≡ false
  unfolding strcmp0_eq
  not_olm v h = rw (strcmp0_eq_lem v (some algorithm_megolm) h) refl

  -- the loop changes the two marks alone
  set_algorithms-names :
      (xs : List JsonNode) (self : CmDevice)
      → set_algorithms g xs self ≡ record self {
        meagolm_v1 = names algorithm_megolm xs || self.meagolm_v1;
        olm_v1 = names algorithm_olm xs || self.olm_v1;
      }
  unfolding set_algorithms
  set_algorithms-names [] self = refl
  set_algorithms-names (x ∷ xs) self =
      elim (Bool-cases (strcmp0_eq (g.get_string x) (some algorithm_megolm))) [
        | inl e ↦ rw (e, set_algorithms-names xs, not_olm (g.get_string x) e) (ground arith)
        | inr e ↦ elim (Bool-cases (strcmp0_eq (g.get_string x) (some algorithm_olm))) [
          | inl f ↦ rw (e, f, set_algorithms-names xs) (ground arith)
          | inr f ↦ rw (e, f, set_algorithms-names xs) (ground arith)
        ]
      ]

-- what `checked` makes of a device that holds no more than its names and its Ed25519 key
abbrev IsTrustedBy : JsonGlib → String → Bool → CmDevice → Type 0
IsTrustedBy g device_id good d =
    (d.signature_failed ≡ not good)
    × (d.curve_key ≡ (
        if good
        then object_get_string g (object_get_object (some d.json) (some "keys"))
            (some ("curve25519:" ++ device_id))
        else none))
    × (d.meagolm_v1 ≡ (
        good
        && names g algorithm_megolm
            (array_elements (object_get_array (some d.json) (some "algorithms")))))
    × (d.olm_v1 ≡ (
        good
        && names g algorithm_olm
            (array_elements (object_get_array (some d.json) (some "algorithms")))))

checked-IsTrustedBy :
    (g : JsonGlib) (ref user : ℕ) (device_id : String) (good : Bool) (root left : JsonObject)
    → IsTrustedBy g device_id good
        (checked g device_id good left (device_of g ref user device_id root))
unfolding checked device_of
checked-IsTrustedBy g ref user device_id false root left = (refl, refl, refl, refl)
checked-IsTrustedBy g ref user device_id true root left =
    rw (set_algorithms-names g) (refl, refl, ground arith, ground arith)

checked_kept :
    (g : JsonGlib) (ref user : ℕ) (device_id : String) (good : Bool) (root left : JsonObject)
    → let d = device_of g ref user device_id root in
      let c = checked g device_id good left d in
      (c.device_id ≡ d.device_id) × (c.ed_key ≡ d.ed_key) × (c.verified ≡ false)
unfolding checked device_of
checked_kept g ref user device_id false root left = (refl, refl, refl)
checked_kept g ref user device_id true root left = rw (set_algorithms-names g) (refl, refl, refl)

module _ (env : EncEnv) (ref user : ℕ) (user_id : Option String) (root : JsonObject) where
  -- the device that the check of the signature leaves, and whether it was good
  abbrev made : String → CmDevice
  made device_id =
      check_signature env user_id device_id (device_of env.glib ref user device_id root)

  abbrev good_signature : Option String → Option String → Bool
  good_signature device_id ed_key = (enc_verify env (some root) user_id device_id ed_key).0

  made_id :
      (device_id : String)
      → let d = device_of env.glib ref user device_id root in
        ((made device_id).device_id ≡ some device_id) × ((made device_id).ed_key ≡ d.ed_key)
  unfolding check_signature device_of
  made_id device_id =
      let d = device_of env.glib ref user device_id root in
      let (good, left) = enc_verify env (some root) user_id (some device_id) d.ed_key in
      let (same, key, _) = checked_kept env.glib ref user device_id good root (or_end left) in
      (same, key)

  made-IsTrustedBy :
      (device_id : String)
      → IsTrustedBy env.glib device_id
          (good_signature (made device_id).device_id (made device_id).ed_key)
          (made device_id)
  unfolding check_signature device_of
  made-IsTrustedBy device_id =
      let d = device_of env.glib ref user device_id root in
      let (good, left) = enc_verify env (some root) user_id (some device_id) d.ed_key in
      rw ((made_id device_id).0, (made_id device_id).1)
        (checked-IsTrustedBy env.glib ref user device_id good root (or_end left))

  named-IsTrustedBy :
      (id : Option String) (d : CmDevice)
      → device_named env ref user user_id root id ≡ some d
      → (device_id : String) × (d.device_id ≡ some device_id)
        × (str_eq device_id "" ≡ false)
        × IsTrustedBy env.glib device_id (good_signature d.device_id d.ed_key) d
  unfolding device_named
  named-IsTrustedBy none d h = absurd (none-ne-some d h)
  named-IsTrustedBy (some device_id) d h = elim (Bool-cases (str_eq device_id "")) [
    | inl e ↦ absurd (none-ne-some d (rw e at h))
    | inr e ↦
        rw (← some-injective _ _ (rw e at h))
          (device_id, (made_id device_id).0, e, made-IsTrustedBy device_id)
  ]

-- A device that cm_device_new makes belongs to the user whose id the object holds, and has an id that
-- is not empty. It can be marked as verified exactly where the check of the object's signature by
-- its own Ed25519 key succeeds, and it has the Curve25519 key and the algorithms of the object
-- then, and none otherwise.
pub device_new-IsTrustedBy :
    (env : EncEnv) (ref user : ℕ) (user_id : Option String) (root : JsonObject) (d : CmDevice)
    (verified : Bool)
    → device_new env ref user user_id root ≡ some d
    → let good = (enc_verify env (some root) user_id d.device_id d.ed_key).0 in
      (device_id : String) × (d.device_id ≡ some device_id)
      × (str_eq device_id "" ≡ false)
      × (user_id ≡ object_get_string env.glib (some root) (some "user_id"))
      × (is_verified (set_verified d verified) ≡ (good && verified))
      × IsTrustedBy env.glib device_id good d
unfolding device_new is_verified set_verified
device_new-IsTrustedBy env ref user user_id root d verified h =
    elim (Bool-cases
      (strcmp0_eq user_id (object_get_string env.glib (some root) (some "user_id")))) [
        | inr e ↦ absurd (none-ne-some d (rw e at h))
        | inl e ↦
            let (device_id, named, full, trusted) =
              named-IsTrustedBy env ref user user_id root
                (object_get_string env.glib (some root) (some "device_id")) d (rw e at h) in
            (device_id, named, full, strcmp0_eq_lem _ _ e, ground (arith, trusted.0), trusted)
      ]
