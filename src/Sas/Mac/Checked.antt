-- ===== src/Sas/Mac/Checked.antt =====
-- What a MAC message holds that makes cm_olm_sas_parse_verification_mac of src/cm-olm-sas.c verify.
use mathlib.Core.List.{Mem, mem-cons_of_mem, mem-cons_self}
use mathlib.Core.List.Perm
use mathlib.Core.Bool.{false≢true}
use Prim.Native.String.{◌++◌ as ◌⧺◌}
use libcmatrix.Base.{
  String, ◌≡◌, refl, sym, ◌∙◌, ◌⊎◌, inl, inr, true, false, Option, none, some, List, [], ◌∷◌, arith,
  eq_iff, Bool-cases, Option-cases,
}
use libcmatrix.Base.Text.{str_eq, strcmp0_eq, strcmp0_eq_lem}
use libcmatrix.Json.{JsonObject, get_members}
use libcmatrix.Json.Access.{object_get_string, object_get_object}
use libcmatrix.Event.{CmEvent, is_some}
use libcmatrix.Sas.State.{CmDevice, SasEnv, CmOlmSas, find_device}
use libcmatrix.Sas.Mac.{
  stop, next, mismatch, calculate_mac, check_key, check_item, check_items, check_keys, check_mac,
  parse_verification_mac, first_part, second_part, their_info, join_key_ids,
}

-- The key `item` is the Ed25519 key of a device that the other side is known to have, and the object
-- gives the MAC of that key under the text `base`.
abbrev pub IsConfirmed : SasEnv → List CmDevice → JsonObject → String → CmOlmSas → String → Type 0
IsConfirmed env devices mac_json base self item =
    (device : CmDevice) × (ed_key : String) × (first_part (env.split item) ≡ some "ed25519")
    × (second_part (env.split item) ≡ self.their_device_id)
    × (find_device devices self.their_device_id ≡ some device)
    × (device.ed_key ≡ some ed_key)
    × (object_get_string env.glib (some mac_json) (some item)
        ≡ some (calculate_mac env self ed_key (base ⧺ item)))

module _ (env : SasEnv) (devices : List CmDevice) (mac_json : JsonObject) where
  check_key-cases :
      (found : Option CmDevice) (key_mac : Option String) (item old : String) (self : CmOlmSas)
      → (check_key env found key_mac item old self ≡ stop (mismatch self))
        ⊎ ((device : CmDevice) × (ed_key : String) × (found ≡ some device)
            × (device.ed_key ≡ some ed_key)
            × (key_mac
                ≡ some (
                    calculate_mac env self ed_key
                      (env.truncate_by (env.strlen "KEY_IDS") old ⧺ item))))
  unfolding check_key
  check_key-cases none key_mac item old self = inl refl
  check_key-cases (some device) none item old self = inl refl
  check_key-cases (some device) (some key_mac) item old self = elim (Option-cases device.ed_key) [
    | inl e ↦ inl (rw (e, check_key) refl)
    | inr (ed, e) ↦
        let mac = calculate_mac env self ed (env.truncate_by (env.strlen "KEY_IDS") old ⧺ item) in
        elim (Bool-cases (str_eq key_mac mac)) [
          | inl same ↦ inr (device, ed, refl, e, rw ((eq_iff key_mac mac).0 same) refl)
          | inr differs ↦ inl (rw (e, check_key) (rw differs refl))
        ]
  ]

  -- a round that does not give up skips the key or has confirmed it
  check_item-cases :
      (item base : String) (self : CmOlmSas)
      → (check_item env devices mac_json item (base ⧺ "KEY_IDS") self ≡ stop (mismatch self))
        ⊎ ((check_item env devices mac_json item (base ⧺ "KEY_IDS") self
              ≡ next (base ⧺ "KEY_IDS") self)
            ⊎ IsConfirmed env devices mac_json base self item)
  unfolding check_item
  check_item-cases item base self =
      let type = first_part (env.split item) in
      let id = second_part (env.split item) in
      let found = find_device devices self.their_device_id in
      let key_mac = object_get_string env.glib (some mac_json) (some item) in
      elim (Bool-cases (strcmp0_eq type (some "ed25519"))) [
        | inr other ↦ inl (rw other refl)
        | inl e0 ↦ elim (Bool-cases (strcmp0_eq id self.their_device_id)) [
          | inr other ↦ inr (inl (rw e0 (rw other refl)))
          | inl e1 ↦ elim (check_key-cases found key_mac item (base ⧺ "KEY_IDS") self) [
            | inl e ↦ inl (rw e0 (rw e1 e))
            | inr (device, ed, e2, e3, e4) ↦ inr (
                inr (
                  device,
                  ed,
                  strcmp0_eq_lem type (some "ed25519") e0,
                  strcmp0_eq_lem id self.their_device_id e1,
                  e2,
                  e3,
                  e4 ∙ rw (env.truncate_by-append base "KEY_IDS") refl,
                ))
          ]
        ]
      ]

  check_items-IsConfirmed :
      (items : List String) (base : String) (self : CmOlmSas)
      → self.verified ≡ false
      → (check_items env devices mac_json items (base ⧺ "KEY_IDS") self).verified ≡ true
      → (item : String) × Mem item items × IsConfirmed env devices mac_json base self item
  unfolding check_items
  check_items-IsConfirmed [] base self h k = absurd (false≢true (sym h ∙ k))
  check_items-IsConfirmed (item ∷ items) base self h k = elim (check_item-cases item base self) [
    | inl e ↦ absurd (false≢true (sym h ∙ (rw (e, check_items) at k)))
    | inr (inl e) ↦
        let (found, m, c) = check_items-IsConfirmed items base self h (rw (e, check_items) at k) in
        (found, mem-cons_of_mem item m, c)
    | inr (inr c) ↦ (item, mem-cons_self, c)
  ]

  check_keys-IsConfirmed :
      (content : Option JsonObject) (members : List String) (self : CmOlmSas)
      → self.verified ≡ false
      → (check_keys env devices content mac_json members self).verified ≡ true
      → (object_get_string env.glib content (some "keys")
          ≡ some (calculate_mac env self (join_key_ids members) (their_info env self ⧺ "KEY_IDS")))
        × ((item : String) × Mem item members
            × IsConfirmed env devices mac_json (their_info env self) self item)
  unfolding check_keys
  check_keys-IsConfirmed content [] self h k = absurd (false≢true (sym h ∙ k))
  check_keys-IsConfirmed content (member ∷ members) self h k =
      let mac =
        calculate_mac env self (join_key_ids (member ∷ members))
          (their_info env self ⧺ "KEY_IDS") in
      let keys = object_get_string env.glib content (some "keys") in
      elim (Bool-cases (strcmp0_eq (some mac) keys)) [
        | inl e ↦ (
          sym (strcmp0_eq_lem (some mac) keys e),
          check_items-IsConfirmed (member ∷ members) (their_info env self) self h
              (rw (e, check_keys) at k),
        )
        | inr e ↦ absurd (false≢true (sym h ∙ (rw (e, check_keys) at k)))
      ]

-- what the content of a MAC event must hold to confirm a device
abbrev pub IsProved : SasEnv → List CmDevice → Option JsonObject → CmOlmSas → Type 0
IsProved env devices content self =
    (mac_json : JsonObject) × (object_get_object content (some "mac") ≡ some mac_json)
    × (object_get_string env.glib content (some "keys")
        ≡ some (
            calculate_mac env self (join_key_ids (env.glib.sort (get_members mac_json)))
              (their_info env self ⧺ "KEY_IDS")))
    × ((item : String) × Mem item (get_members mac_json)
        × IsConfirmed env devices mac_json (their_info env self) self item)

check_mac-IsProved :
    (env : SasEnv) (devices : List CmDevice) (content : Option JsonObject) (self : CmOlmSas)
    → self.verified ≡ false
    → (check_mac env devices content self).verified ≡ true
    → IsProved env devices content self
unfolding check_mac
check_mac-IsProved env devices content self h k =
    elim (Option-cases (object_get_object content (some "mac"))) [
      | inl e ↦ absurd (false≢true (sym h ∙ (rw (e, check_mac) at k)))
      | inr (mac_json, e) ↦
          let members = get_members mac_json in
          let (keys, (item, m, c)) =
            check_keys-IsConfirmed env devices mac_json content (env.glib.sort members) self h
              (rw (e, check_mac) at k) in
          (mac_json, e, keys, (item, (Perm.mem_iff (env.glib.sort-perm members)).0 m, c))
    ]

-- where it does not come to the check, nothing is verified
parse_verification_mac-stops :
    (env : SasEnv) (devices : List CmDevice) (event : CmEvent) (self : CmOlmSas)
    → (is_some self.attached.key ≡ false) ⊎ (is_some self.cancel_code ≡ true)
    → (parse_verification_mac env devices event self).verified ≡ self.verified
unfolding parse_verification_mac
parse_verification_mac-stops env devices event self (inl e) =
    elim (Bool-cases (is_some self.cancel_code)) [
      | inl c ↦ ground (arith, e, c)
      | inr c ↦ ground (arith, e, c)
    ]
parse_verification_mac-stops env devices event self (inr e) = ground (arith, e)

parse_verification_mac-goes_on :
    (env : SasEnv) (devices : List CmDevice) (event : CmEvent) (self : CmOlmSas)
    → is_some self.attached.key ≡ true
    → is_some self.cancel_code ≡ false
    → self.verified ≡ false
    → parse_verification_mac env devices event self
      ≡ check_mac env devices (object_get_object event.json (some "content")) self
unfolding parse_verification_mac
parse_verification_mac-goes_on env devices event self e0 e1 e2 = ground (arith, e0, e1, e2)

-- Where cm_olm_sas_parse_verification_mac makes an unverified verification verified, the key event
-- had come, nothing was cancelled, the MAC over the names of all of the keys was right, and one of
-- the keys is the Ed25519 key of a known device of the other side, with the right MAC.
pub parse_verification_mac-IsProved :
    (env : SasEnv) (devices : List CmDevice) (event : CmEvent) (self : CmOlmSas)
    → self.verified ≡ false
    → (parse_verification_mac env devices event self).verified ≡ true
    → (is_some self.attached.key ≡ true)
      × (is_some self.cancel_code ≡ false)
      × IsProved env devices (object_get_object event.json (some "content")) self
parse_verification_mac-IsProved env devices event self h k =
    let stopped = parse_verification_mac-stops env devices event self in
    elim (Bool-cases (is_some self.cancel_code)) [
      | inl e ↦ absurd (false≢true (sym h ∙ sym (stopped (inr e)) ∙ k))
      | inr e ↦ elim (Bool-cases (is_some self.attached.key)) [
        | inr f ↦ absurd (false≢true (sym h ∙ sym (stopped (inl f)) ∙ k))
        | inl f ↦
            let same = parse_verification_mac-goes_on env devices event self f e h in
            (
              f,
              e,
              check_mac-IsProved env devices (object_get_object event.json (some "content")) self h
                  (rw same at k),
            )
      ]
    ]
