-- ===== src/Event.antt =====
-- CmEvent of src/events/cm-event.c: its state and its operations. A pointer that may be NULL is an
-- `Option`.
pub mod Json
pub mod Laws
use Prim.Native.String.{◌++◌}
use Prim.Native.Nat.{◌*◌}
use mathlib.Core.Bool.{Bool, true, false, ◌&&◌, ◌||◌}
use libcmatrix.Base.{ℕ, String, Option, none, some, ◌==◌, leb, if◌then◌else◌}
use libcmatrix.Base.Int.{ℤ, pos, is_zero}
use libcmatrix.Base.Text.{str_eq}
use libcmatrix.Json.{JsonObject}
use libcmatrix.Json.Glib.{JsonGlib}
use libcmatrix.Json.Access.{object_get_object, object_has_member}
use libcmatrix.EventType.{CmEventType, key_verification_accept, key_verification_start, value}

-- what an event uses of its sender, a CmUser: its id, and whether it is the CmAccount of the client
pub record Sender : Type 0 where
  pub id : Option String
  pub is_account : Bool

pub data CmEventState : Type 0 where
  unknown draft waiting sending sending_failed sent received : CmEventState

pub record CmEvent : Type 0 where
  pub sender : Option Sender
  pub sender_id : Option String
  pub sender_device_id : Option String
  pub event_id : Option String
  pub replaces_event_id : Option String
  pub reply_to_event_id : Option String
  pub txn_id : Option String
  pub transaction_id : Option String
  pub verification_key : Option String
  pub state_key : Option String
  pub json : Option JsonObject
  pub encrypted_json : Option JsonObject
  pub time_stamp : ℤ
  pub event_type : CmEventType
  pub event_state : CmEventState

-- g_object_new (CM_TYPE_EVENT): every field is zero
abbrev pub empty_event : CmEvent
empty_event = record {
  sender = none;
  sender_id = none;
  sender_device_id = none;
  event_id = none;
  replaces_event_id = none;
  reply_to_event_id = none;
  txn_id = none;
  transaction_id = none;
  verification_key = none;
  state_key = none;
  json = none;
  encrypted_json = none;
  time_stamp = pos 0;
  event_type = CmEventType.unknown;
  event_state = CmEventState.unknown;
}

-- `none` is the NULL of a failed check
unfoldable pub event_new : CmEventType → Option CmEvent
unfolding value
event_new type =
    if value type == 0
      || (leb (value key_verification_accept) (value type)
          && leb (value type) (value key_verification_start))
    then some (record empty_event { event_type = type })
    else none

-- an id is set once
unfoldable pub set_id : CmEvent → Option String → CmEvent
set_id self id = elim self.event_id [ none ↦ record self { event_id = id } | some old ↦ self ]

-- the local id of an event that the server has not named; `now` is the real time in milliseconds
unfoldable pub create_txn_id : JsonGlib → ℤ → CmEvent → ℤ → CmEvent
create_txn_id g now self id = elim self.event_id [
  | none ↦ record self { txn_id = some ("cm" ++ (g.format_int now ++ ("." ++ g.format_int id))) }
  | some old ↦ self
]

-- an empty state key counts as none
unfoldable pub get_state_key : CmEvent → Option String
get_state_key self = elim self.state_key [
  | none ↦ none
  | some key ↦ if str_eq key "" then none else some key
]

unfoldable pub set_m_type : CmEvent → CmEventType → CmEvent
unfolding value
set_m_type self type =
    if value self.event_type == 0 && (if value type == 0 then false else true)
    then record self { event_type = type }
    else self

abbrev is_unknown : CmEventState → Bool
is_unknown CmEventState.unknown = true
is_unknown _ = false

abbrev from_account : Option Sender → Bool
from_account none = false
from_account (some s) = s.is_account

unfoldable pub get_state : CmEvent → CmEventState
get_state self =
    if is_unknown self.event_state && from_account self.sender then sent else self.event_state

pub CmEventState-discrete : Discrete CmEventState
CmEventState-discrete = hlevel

-- the new state, and whether "updated" is emitted
unfoldable pub set_state : CmEvent → CmEventState → CmEvent × Bool
set_state self state = elim (CmEventState-discrete self.event_state state) [
  | yes same ↦ (self, false)
  | no differs ↦ (record self { event_state = state }, true)
]

unfoldable pub get_sender_id : CmEvent → Option String
get_sender_id self = elim self.sender [ none ↦ self.sender_id | some s ↦ s.id ]

-- a sender is set once; the message about another id than `sender_id` is only logged
unfoldable pub set_sender : CmEvent → Sender → CmEvent
set_sender self sender = elim self.sender [
  | none ↦ record self { sender = some sender }
  | some old ↦ self
]

unfoldable pub is_some {ℓ} : {A : Type ℓ} → Option A → Bool
is_some none = false
is_some (some a) = true

unfoldable pub is_encrypted : CmEvent → Bool
unfolding is_some
is_encrypted self = is_some self.encrypted_json

unfoldable pub is_decrypted : CmEvent → Bool
unfolding is_some
is_decrypted self = is_some self.json

unfoldable pub has_encrypted_content : CmEvent → Bool
has_encrypted_content self = elim self.encrypted_json [
  | none ↦ false
  | some encrypted ↦
      object_has_member (object_get_object (some encrypted) (some "content")) (some "ciphertext")
]

-- in milliseconds; `now` is the time in seconds
unfoldable pub get_time_stamp : ℕ → CmEvent → ℤ
get_time_stamp now self = if is_zero self.time_stamp then pos (now * 1000) else self.time_stamp
