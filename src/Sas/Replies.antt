-- ===== src/Sas/Replies.antt =====
-- The events that src/cm-olm-sas.c sends: each is made once, and kept.
pub mod Made
use libcmatrix.Base.{
  ℕ, suc, String, Bool, true, false, ◌&&◌, ◌||◌, Option, none, some, List, if◌then◌else◌,
}
use libcmatrix.Base.Int.{ℤ, pos}
use libcmatrix.Base.Text.{str_eq}
use libcmatrix.Json.{
  JsonNode, JsonObject, null, string, array, object, nil, element, end, member, set_member,
}
use libcmatrix.Json.Access.{object_get_object}
use libcmatrix.Json.Canonical.{json_get_canonical}
use libcmatrix.EventType.{
  CmEventType, key_verification_accept, key_verification_cancel, key_verification_done,
  key_verification_key, key_verification_mac, key_verification_ready,
}
use libcmatrix.Event.{CmEvent, empty_event, create_txn_id, get_sender_id, is_some}
use libcmatrix.Sas.State.{CmVerificationEvent, SasEnv, CmOlmSas, Reply}
use libcmatrix.Sas.Mac.{mac_content}
use libcmatrix.Sas.Session.{requests}

-- an object under a name that may be NULL, in which `inner` is then filled in: json-glib sets
-- nothing under NULL, and what stands under "" is not found again
unfoldable pub nest : Option String → JsonObject → JsonObject
nest none inner = end
nest (some name) inner =
    if str_eq name "" then member name (object end) end else member name (object inner) end

-- olm_sas_get_message_json, of which `content` is the innermost object in the end
unfoldable pub message_json : Option String → Option String → JsonObject → JsonObject
unfolding nest
message_json user device content = member "messages" (object (nest user (nest device content))) end

abbrev pub text_node : Option String → JsonNode
text_node none = null
text_node (some s) = string s

unfoldable pub transaction_content : CmVerificationEvent → JsonObject
transaction_content first = member "transaction_id" (text_node first.transaction_id) end

abbrev texts : String → String → JsonNode
texts a b = array (element (string a) (element (string b) nil))

-- cm_olm_sas_get_start_event
unfoldable pub get_start_event : CmVerificationEvent → CmOlmSas → Option CmVerificationEvent
get_start_event first self =
    if requests first.event.event_type then self.attached.start else some first

abbrev pub is_cancel_code : String → Bool
is_cancel_code code =
    str_eq code "m.user"
    || (str_eq code "m.timeout"
        || (str_eq code "m.unknown_method"
            || (str_eq code "m.key_mismatch"
                || (str_eq code "m.user_mismatch" || str_eq code "m.unexpected_message"))))

-- what a getter returns, the state, and the number for the next local id
abbrev pub Made : Type 0
Made = Option Reply × CmOlmSas × ℕ

-- `now` is the real time in milliseconds
module _ (env : SasEnv) (now : ℤ) where
  -- cm_event_new, cm_event_create_txn_id and the JSON object
  unfoldable pub reply : CmEventType → CmVerificationEvent → ℕ → JsonObject → Reply
  unfolding create_txn_id message_json
  reply type first id content = record {
    type = type;
    txn_id =
        (create_txn_id env.glib now (record empty_event { event_type = type }) (pos id)).txn_id;
    json = message_json (get_sender_id first.event) first.event.sender_device_id content;
  }

  -- cm_olm_sas_create_commitment. Without a content, nothing is appended. The order in which the call
  -- leaves the members of the start event's content is not kept.
  unfoldable pub canonical_of : Option JsonObject → String → String
  canonical_of none out = out
  canonical_of (some content) out = json_get_canonical env.glib content out

  unfoldable pub create_commitment : CmVerificationEvent → CmOlmSas → CmOlmSas
  unfolding canonical_of
  create_commitment start self =
      let key : String = elim self.our_pub_key [ none ↦ env.pubkey | some old ↦ old ] in
      if str_eq self.commitment_str ""
      then record self {
        our_pub_key = some key;
        commitment_str =
            env.sha256 (canonical_of (object_get_object start.event.json (some "content")) key);
      }
      else self

  unfoldable pub make_cancel : CmVerificationEvent → Option String → CmOlmSas → ℕ → Made
  unfolding reply transaction_content
  make_cancel first code self id =
      let reason : String = elim code [ none ↦ "m.user" | some c ↦ c ] in
      let made =
        reply key_verification_cancel first id
          (set_member (transaction_content first) "code" (string reason)) in
      if is_cancel_code reason
      then (some made, record self { key_verification_cancel = some made }, suc id)
      else (none, self, id)

  unfoldable pub get_cancel_event : Option String → CmOlmSas → ℕ → Made
  unfolding make_cancel
  get_cancel_event code self id = elim self.key_verification [
    | none ↦ (none, self, id)
    | some first ↦ elim self.key_verification_cancel [
      | some old ↦ (some old, self, id)
      | none ↦ make_cancel first code self id
    ]
  ]

  unfoldable pub get_ready_event : CmOlmSas → ℕ → Made
  unfolding reply transaction_content
  get_ready_event self id = elim self.key_verification [
    | none ↦ (none, self, id)
    | some first ↦ elim self.key_verification_ready [
      | some old ↦ (some old, self, id)
      | none ↦
          let methods = array (element (string "m.sas.v1") nil) in
          let made = reply key_verification_ready first id (
            set_member (set_member (transaction_content first) "methods" methods) "from_device"
              (string env.device_id)) in
          (some made, record self { key_verification_ready = some made }, suc id)
    ]
  ]

  unfoldable pub accept_content : CmVerificationEvent → String → JsonObject
  unfolding transaction_content
  accept_content first commitment =
      let a = set_member (transaction_content first) "hash" (string "sha256") in
      let b = set_member a "method" (string "m.sas.v1") in
      let c = set_member b "key_agreement_protocol" (string "curve25519-hkdf-sha256") in
      let d = set_member c "commitment" (string commitment) in
      let e = set_member d "message_authentication_code" (string "hkdf-hmac-sha256") in
      set_member e "short_authentication_string" (texts "emoji" "decimal")

  unfoldable pub get_accept_event : CmOlmSas → ℕ → Made
  unfolding reply accept_content get_start_event create_commitment
  get_accept_event self id = elim self.key_verification [
    | none ↦ (none, self, id)
    | some first ↦ elim self.key_verification_accept [
      | some old ↦ (some old, self, id)
      | none ↦ elim (get_start_event first self) [
        | none ↦ (none, self, id)
        | some start ↦
            let s = create_commitment start self in
            let made =
              reply key_verification_accept first id (accept_content first s.commitment_str) in
            (some made, record s { key_verification_accept = some made }, suc id)
      ]
    ]
  ]

  unfoldable pub get_key_event : CmOlmSas → ℕ → Made
  unfolding reply transaction_content get_start_event create_commitment
  get_key_event self id = elim self.key_verification [
    | none ↦ (none, self, id)
    | some first ↦ elim self.verification_key [
      | some old ↦ (some old, self, id)
      | none ↦ elim (get_start_event first self) [
        | none ↦ (none, self, id)
        | some start ↦
            let s = create_commitment start self in
            let made =
              reply key_verification_key first id
                (set_member (transaction_content first) "key" (text_node s.our_pub_key)) in
            (some made, record s { verification_key = some made }, suc id)
      ]
    ]
  ]

  unfoldable pub get_mac_event : CmOlmSas → ℕ → Made
  unfolding reply transaction_content mac_content
  get_mac_event self id = elim self.key_verification [
    | none ↦ (none, self, id)
    | some first ↦ elim self.verification_key [
      | none ↦ (none, self, id)
      | some sent ↦ elim self.key_verification_mac [
        | some old ↦ (some old, self, id)
        | none ↦
            let made =
              reply key_verification_mac first id
                (mac_content env self (transaction_content first)) in
            (some made, record self { key_verification_mac = some made }, suc id)
      ]
    ]
  ]

  unfoldable pub get_done_event : CmOlmSas → ℕ → Made
  unfolding reply transaction_content
  get_done_event self id = elim self.key_verification [
    | none ↦ (none, self, id)
    | some first ↦ elim self.key_verification_done [
      | some old ↦ (some old, self, id)
      | none ↦
          let made = reply key_verification_done first id (transaction_content first) in
          (some made, record self { key_verification_done = some made }, suc id)
    ]
  ]
