-- ===== src/Sas/Session.antt =====
-- The course of a verification in src/cm-olm-sas.c: the event that begins it, the events that follow,
-- and the emojis.
pub mod Laws
pub mod Keys
pub mod Course
use Prim.Native.String.{◌++◌ as ◌⧺◌}
use Prim.Native.Nat.{ℕ, suc, ◌+◌, ◌/◌, ◌%◌}
use libcmatrix.Base.{
  String, Bool, true, false, ◌&&◌, ◌||◌, not, ◌==◌, ltb, leb, Option, none, some, List, [], ◌∷◌,
  any, if◌then◌else◌,
}
use libcmatrix.Base.Int.{ℤ, pos, negsuc, pos_part, neg_part, sub_ℕ, ltb_ℤ}
use libcmatrix.Base.Text.{str_eq, strcmp0_eq}
use libcmatrix.Json.{JsonNode, JsonObject, Elements, elements, string}
use libcmatrix.Json.Glib.{JsonGlib}
use libcmatrix.Json.Access.{object_get_string, object_get_object, object_get_array}
use libcmatrix.EventType.{
  CmEventType, key_verification_cancel, key_verification_done, key_verification_key,
  key_verification_mac, key_verification_ready, key_verification_request, key_verification_start,
}
use libcmatrix.Event.{CmEvent, is_some, get_sender_id, get_time_stamp}
use libcmatrix.Sas.Bytes.{SasBytes}
use libcmatrix.Sas.Emoji.{sas_emojis}
use libcmatrix.Sas.State.{CmDevice, CmVerificationEvent, SasEnv, Attached, CmOlmSas, or_null}
use libcmatrix.Sas.Mac.{parse_verification_mac, transaction_of}

-- cm_olm_array_has_string; json_array_get_string_element is `get_string` of the element
unfoldable pub olm_array_has_string : JsonGlib → Option JsonObject → String → String → Bool
olm_array_has_string g content name value = elim (object_get_array content (some name)) [
  | none ↦ false
  | some array ↦ any (λ element. strcmp0_eq (g.get_string element) (some value)) (elements array)
]

-- the methods that this side can use
unfoldable pub is_supported : JsonGlib → Option JsonObject → Bool
unfolding olm_array_has_string
is_supported g content =
    strcmp0_eq (object_get_string g content (some "method")) (some "m.sas.v1")
    && (olm_array_has_string g content "key_agreement_protocols" "curve25519-hkdf-sha256"
        && (olm_array_has_string g content "hashes" "sha256"
            && (olm_array_has_string g content "message_authentication_codes" "hkdf-hmac-sha256"
                && olm_array_has_string g content "short_authentication_string" "decimal")))

unfoldable pub parse_verification_start : JsonGlib → CmEvent → CmOlmSas → CmOlmSas
parse_verification_start g event self =
    if is_supported g (object_get_object event.json (some "content"))
    then self
    else record self { cancel_code = some "m.unknown_method" }

-- division and remainder of C, which round towards 0
abbrev pub quot : ℤ → ℕ → ℤ
quot (pos n) k = pos (n / k)
quot (negsuc n) k = sub_ℕ 0 (suc n / k)

abbrev pub rem : ℤ → ℕ → ℤ
rem (pos n) k = pos (n % k)
rem (negsuc n) k = sub_ℕ 0 (suc n % k)

abbrev pub sub_ℤ : ℤ → ℤ → ℤ
sub_ℤ a b = sub_ℕ (pos_part a + neg_part b) (pos_part b + neg_part a)

-- `minutes` of cm_olm_sas_set_key_verification; `now` is the time in seconds
unfoldable pub minutes : ℕ → CmEvent → ℤ
minutes now event = rem (sub_ℤ (pos now) (quot (get_time_stamp now event) 1000)) 60

unfoldable pub check_time : ℤ → CmOlmSas → CmOlmSas
check_time minutes self =
    if not (is_some self.cancel_code) && (ltb_ℤ minutes (negsuc 4) || ltb_ℤ (pos 10) minutes)
    then record self { cancel_code = some "m.timeout" }
    else self

abbrev pub starts : CmEventType → Bool
starts key_verification_start = true
starts _ = false

abbrev pub requests : CmEventType → Bool
requests key_verification_request = true
requests _ = false

unfoldable pub begin_with : JsonGlib → ℕ → CmVerificationEvent → CmOlmSas → CmOlmSas
unfolding parse_verification_start check_time minutes
begin_with g now event self =
    let begun : CmOlmSas = record self {
      key_verification = some event;
      their_user_id = get_sender_id event.event;
      their_device_id = event.event.sender_device_id;
    } in
    check_time (minutes now event.event) (
      if starts event.event.event_type then parse_verification_start g event.event begun else begun)

unfoldable pub set_key_verification : JsonGlib → ℕ → CmVerificationEvent → CmOlmSas → CmOlmSas
unfolding begin_with
set_key_verification g now event self =
    if not (is_some self.key_verification)
      && (starts event.event.event_type || requests event.event.event_type)
    then begin_with g now event self
    else self

-- what cm_olm_sas_matches_event ends with: strlen (NULL), or its result
pub data Outcome : Type 0 where
  crashed : Outcome
  returned : Bool → CmOlmSas → Outcome

-- the text from which the bytes are derived
unfoldable pub sas_info : SasEnv → CmOlmSas → String
sas_info env self =
    "MATRIX_KEY_VERIFICATION_SAS|"
    ⧺ (or_null self.their_user_id
        ⧺ ("|"
            ⧺ (or_null self.their_device_id
                ⧺ ("|"
                    ⧺ (or_null self.their_pub_key
                        ⧺ ("|"
                            ⧺ (env.user_id
                                ⧺ ("|"
                                    ⧺ (env.device_id
                                        ⧺ ("|"
                                            ⧺ (or_null self.our_pub_key
                                                ⧺ ("|"
                                                    ⧺ or_null (
                                                        transaction_of
                                                          self.key_verification)))))))))))))

-- once
unfoldable pub generate_bytes : SasEnv → CmOlmSas → CmOlmSas
unfolding sas_info
generate_bytes env self = elim self.sas_bytes [
  | some bytes ↦ self
  | none ↦ record self {
    sas_bytes = some (env.olm_generate_bytes self.olm_their_key (sas_info env self));
  }
]

unfoldable pub make_emojis : CmOlmSas → CmOlmSas
make_emojis self = elim self.sas_emojis [
  | some made ↦ self
  | none ↦ elim self.sas_bytes [
    | none ↦ self
    | some bytes ↦ record self { sas_emojis = some (sas_emojis bytes) }
  ]
]

-- cm_olm_sas_get_emojis; its result is the field `sas_emojis`, or NULL where it returns early
unfoldable pub get_emojis : SasEnv → CmOlmSas → CmOlmSas
unfolding generate_bytes make_emojis
get_emojis env self =
    if is_some self.key_verification
      && (is_some self.attached.key && (is_some self.our_pub_key && is_some self.their_pub_key))
    then make_emojis (generate_bytes env self)
    else self

-- g_object_set_data_full, under the name for the type
unfoldable pub attach : CmEventType → CmVerificationEvent → Attached → Attached
attach key_verification_cancel event to = record to { cancel = some event }
attach key_verification_done event to = record to { done = some event }
attach key_verification_key event to = record to { key = some event }
attach key_verification_mac event to = record to { mac = some event }
attach key_verification_ready event to = record to { ready = some event }
attach key_verification_request event to = record to { request = some event }
attach key_verification_start event to = record to { start = some event }
attach type event to = to

-- the key of the other side is set once; `none` is strlen (NULL)
unfoldable pub set_their_key : SasEnv → Option String → CmOlmSas → Option CmOlmSas
set_their_key env key self = if is_some self.olm_their_key then some self else elim key [
  | none ↦ none
  | some text ↦
      some (record self { their_pub_key = some text; olm_their_key = env.olm_set_their_key text })
]

-- what follows for the type of the event; `devices` are those of the sender of the first event
unfoldable pub react :
    SasEnv → List CmDevice → CmVerificationEvent → CmEventType → CmOlmSas → CmOlmSas
unfolding parse_verification_start get_emojis
react env devices event key_verification_start self =
    parse_verification_start env.glib event.event self
react env devices event key_verification_mac self =
    parse_verification_mac env devices event.event self
react env devices event key_verification_cancel self = elim self.cancel_code [
  | none ↦ record self { cancel_code = some "m.timeout" }
  | some code ↦ self
]
react env devices event key_verification_key self = get_emojis env self
react env devices event type self = self

unfoldable pub take_event : SasEnv → List CmDevice → CmVerificationEvent → CmOlmSas → CmOlmSas
unfolding attach react
take_event env devices event self =
    let type = event.event.event_type in
    react env devices event type (record self { attached = attach type event self.attached })

abbrev pub brings_key : CmEventType → Bool
brings_key key_verification_key = true
brings_key _ = false

-- an event of the transaction
unfoldable pub follow : SasEnv → List CmDevice → CmVerificationEvent → CmOlmSas → Outcome
unfolding set_their_key take_event
follow env devices event self =
    if brings_key event.event.event_type
    then elim (set_their_key env event.verification_key self) [
      | none ↦ crashed
      | some s ↦ returned true (take_event env devices event s)
    ]
    else returned true (take_event env devices event self)

-- without a first event, nothing matches
unfoldable pub matches_event : SasEnv → List CmDevice → CmVerificationEvent → CmOlmSas → Outcome
unfolding follow
matches_event env devices event self = elim self.key_verification [
  | none ↦ returned false self
  | some first ↦
      if event.ref == first.ref
      then returned true self
      else if strcmp0_eq event.transaction_id first.transaction_id
      then follow env devices event self
      else returned false self
]
