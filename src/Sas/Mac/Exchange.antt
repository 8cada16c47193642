-- ===== src/Sas/Mac/Exchange.antt =====
-- The MAC message of one side of a verification, as the other side takes it (src/cm-olm-sas.c).
use Prim.Native.String.{◌++◌ as ◌⧺◌}
use text.Mathlib.TextLemmas.{append-eq-nil_iff}
use mathlib.Core.Bool.{false≢true}
use mathlib.Core.List.{Pairwise-singleton}
use libcmatrix.Base.Sorted.{StrLe}
use libcmatrix.Base.{
  Bool-cases, inl, inr, String, ◌≡◌, refl, ◌∙◌, true, false, Option, none, some, List, [], ◌∷◌,
  arith, eq_iff,
}
use libcmatrix.Base.Text.{str_eq, strcmp0_eq_refl}
use libcmatrix.Json.{
  JsonNode, JsonObject, end, member, string, object, set_member, get_member, get_members,
}
use libcmatrix.Json.Glib.{JsonGlib, sort_sorted}
use libcmatrix.Json.Access.{find_member, object_get_string, object_get_object}
use libcmatrix.Json.Access.Lookup.{find_member-set_member}
use libcmatrix.Event.{CmEvent, is_some}
use libcmatrix.Sas.State.{CmDevice, SasEnv, CmOlmSas, or_null, find_device}
use libcmatrix.Sas.Mac.{
  calculate_mac, mac_content, parse_verification_mac, check_mac, check_keys, check_items,
  check_item, check_key, accept_device, transaction_of, their_info, mac_info, join_key_ids,
}

-- the names of the two sides, the transaction and the shared secret agree
abbrev pub AreMatched : SasEnv → CmOlmSas → SasEnv → CmOlmSas → Type 0
AreMatched a sa b sb =
    (sa.their_user_id ≡ some b.user_id)
    × (sa.their_device_id ≡ some b.device_id)
    × (sb.their_user_id ≡ some a.user_id)
    × (sb.their_device_id ≡ some a.device_id)
    × (transaction_of sa.key_verification ≡ transaction_of sb.key_verification)
    × ((input info : String)
        → a.olm_calculate_mac sa.olm_their_key input info
          ≡ b.olm_calculate_mac sb.olm_their_key input info)

content-mac :
    (content mac : JsonObject) (keys : String)
    → object_get_object
        (some (set_member (set_member content "mac" (object mac)) "keys" (string keys)))
        (some "mac")
      ≡ some mac
unfolding object_get_object
content-mac content mac keys = ground (
  arith,
  find_member-set_member (set_member content "mac" (object mac)) "keys" "mac" (string keys),
  find_member-set_member content "mac" "mac" (object mac),
)

content-keys :
    (g : JsonGlib) (o : JsonObject) (keys : String)
    → object_get_string g (some (set_member o "keys" (string keys))) (some "keys") ≡ some keys
unfolding object_get_string
content-keys g o keys =
    ground (arith, find_member-set_member o "keys" "keys" (string keys), g.get_string-string keys)

named : (d : String) → str_eq ("ed25519:" ⧺ d) "" ≡ false
named d = elim (Bool-cases (str_eq ("ed25519:" ⧺ d) "")) [
  | inl e ↦ absurd (
      false≢true
        ((eq_iff "ed25519:" "").1 (append-eq-nil_iff.0 ((eq_iff ("ed25519:" ⧺ d) "").0 e)).0))
  | inr e ↦ e
]

found :
    (k : String) (v : JsonNode)
    → str_eq k "" ≡ false
    → find_member (some (member k v end)) (some k) ≡ some v
unfolding find_member get_member
found k v h = rw (h, (eq_iff k k).1 refl) refl

text-member :
    (g : JsonGlib) (k text : String)
    → str_eq k "" ≡ false
    → object_get_string g (some (member k (string text) end)) (some k) ≡ some text
unfolding object_get_string
text-member g k text h = ground (arith, found k (string text) h, g.get_string-string text)

-- a key whose MAC is the one that is computed here
check_item-accept :
    (b : SasEnv) (devices : List CmDevice) (mac_json : JsonObject)
    (item old their_id ed mac : String) (device : CmDevice) (sb : CmOlmSas)
    → b.split item ≡ "ed25519" ∷ their_id ∷ []
    → sb.their_device_id ≡ some their_id
    → find_device devices (some their_id) ≡ some device
    → device.ed_key ≡ some ed
    → object_get_string b.glib (some mac_json) (some item) ≡ some mac
    → mac ≡ b.olm_calculate_mac sb.olm_their_key ed (b.truncate_by (b.strlen "KEY_IDS") old ⧺ item)
    → check_items b devices mac_json (item ∷ []) old sb ≡ accept_device device sb
unfolding check_items check_item check_key calculate_mac
check_item-accept b devices mac_json item old their_id ed mac device sb e0 e1 e2 e3 e4 e5 = ground (
  arith,
  e0,
  e1,
  e2,
  e3,
  e4,
  e5,
  strcmp0_eq_refl (some "ed25519"),
  strcmp0_eq_refl (some their_id),
  eq_iff mac mac,
)

-- both sides start from the same text
info_same :
    (a : SasEnv) (sa : CmOlmSas) (b : SasEnv) (sb : CmOlmSas)
    → AreMatched a sa b sb
    → mac_info a.user_id a.device_id
        (or_null sa.their_user_id)
        (or_null sa.their_device_id)
        (transaction_of sa.key_verification)
      ≡ their_info b sb
unfolding their_info
info_same a sa b sb (e0, e1, e2, e3, e4, e5) = rw (e0, e1, e2, e3, e4) refl

-- an object with one key, and the MAC of that key alone
check_keys-accept :
    (b : SasEnv) (devices : List CmDevice) (content : Option JsonObject) (mac_json : JsonObject)
    (item keys : String) (device : CmDevice) (sb : CmOlmSas)
    → object_get_string b.glib content (some "keys") ≡ some keys
    → keys ≡ b.olm_calculate_mac sb.olm_their_key item (their_info b sb ⧺ "KEY_IDS")
    → check_items b devices mac_json (item ∷ []) (their_info b sb ⧺ "KEY_IDS") sb
      ≡ accept_device device sb
    → check_keys b devices content mac_json (item ∷ []) sb ≡ accept_device device sb
unfolding check_keys calculate_mac join_key_ids
check_keys-accept b devices content mac_json item keys device sb e0 e1 e2 =
    ground (arith, e0, e1, e2, strcmp0_eq_refl (some keys))

check_mac-accept :
    (b : SasEnv) (devices : List CmDevice) (content : Option JsonObject) (item mac : String)
    (device : CmDevice) (sb : CmOlmSas)
    → object_get_object content (some "mac") ≡ some (member item (string mac) end)
    → check_keys b devices content (member item (string mac) end) (item ∷ []) sb
      ≡ accept_device device sb
    → check_mac b devices content sb ≡ accept_device device sb
unfolding check_mac get_members
check_mac-accept b devices content item mac device sb e0 e1 =
    ground (arith, e0, e1, sort_sorted b.glib (item ∷ []) (Pairwise-singleton StrLe item))

-- nothing stands against the check
pub parse_verification_mac-checks :
    (b : SasEnv) (devices : List CmDevice) (event : CmEvent) (sb : CmOlmSas)
    → is_some sb.attached.key ≡ true
    → sb.verified ≡ false
    → sb.cancel_code ≡ none
    → parse_verification_mac b devices event sb
      ≡ check_mac b devices (object_get_object event.json (some "content")) sb
unfolding parse_verification_mac is_some
parse_verification_mac-checks b devices event sb e0 e1 e2 = ground (arith, e0, e1, e2)

-- Two sides that name each other, are in one transaction and share the secret of Olm: the content
-- that cm_olm_sas_get_mac_event makes on one side is accepted on the other by
-- cm_olm_sas_parse_verification_mac, which then holds the sender's device as verified. The receiver
-- knows the device with its Ed25519 key, has seen the key event, has neither cancelled nor verified,
-- and GLib splits the key's name into its two parts.
pub mac_content-verified :
    (a : SasEnv) (sa : CmOlmSas) (content : JsonObject) (b : SasEnv) (sb : CmOlmSas)
    (devices : List CmDevice) (device : CmDevice) (event : CmEvent)
    → AreMatched a sa b sb
    → b.split ("ed25519:" ⧺ a.device_id) ≡ "ed25519" ∷ a.device_id ∷ []
    → find_device devices (some a.device_id) ≡ some device
    → device.ed_key ≡ some a.ed25519_key
    → object_get_object event.json (some "content") ≡ some (mac_content a sa content)
    → is_some sb.attached.key ≡ true
    → sb.verified ≡ false
    → sb.cancel_code ≡ none
    → parse_verification_mac b devices event sb ≡ accept_device device sb
unfolding mac_content calculate_mac set_member
mac_content-verified a sa content b sb devices device event matched e1 e2 e3 e4 e5 e6 e7 =
    let (m0, m1, m2, m3, m4, same) = matched in
    let kid = "ed25519:" ⧺ a.device_id in
    let base =
      mac_info a.user_id a.device_id (or_null sa.their_user_id) (or_null sa.their_device_id)
        (transaction_of sa.key_verification) in
    let mac = a.olm_calculate_mac sa.olm_their_key a.ed25519_key (base ⧺ kid) in
    let json = member kid (string mac) end in
    let info = a.truncate_by (a.strlen kid) (base ⧺ kid) ⧺ "KEY_IDS" in
    let keys = a.olm_calculate_mac sa.olm_their_key kid info in
    let sent = some (mac_content a sa content) in
    let here = info_same a sa b sb matched in
    let mac_here : mac
        ≡ b.olm_calculate_mac sb.olm_their_key a.ed25519_key
            (b.truncate_by (b.strlen "KEY_IDS") (their_info b sb ⧺ "KEY_IDS") ⧺ kid) =
      same a.ed25519_key (base ⧺ kid)
      ∙ rw (b.truncate_by-append (their_info b sb) "KEY_IDS", here) refl in
    let keys_here : keys ≡ b.olm_calculate_mac sb.olm_their_key kid (their_info b sb ⧺ "KEY_IDS") =
      same kid info ∙ rw (a.truncate_by-append base kid, here) refl in
    let checked =
      check_mac-accept b devices sent kid mac device sb (content-mac content json keys) (
        check_keys-accept b devices sent json kid keys device sb
          (content-keys b.glib (set_member content "mac" (object json)) keys) keys_here
          (check_item-accept b devices json kid (their_info b sb ⧺ "KEY_IDS") a.device_id
            a.ed25519_key mac device sb e1 m3 e2 e3 (text-member b.glib kid mac (named a.device_id))
            mac_here)) in
    parse_verification_mac-checks b devices event sb e5 e6 e7 ∙ rw e4 checked
