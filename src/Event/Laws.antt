-- ===== src/Event/Laws.antt =====
-- What cm_event_set_json makes of a plain event, of an encrypted one, and of a decrypted one.
use mathlib.Core.Option.{none-ne-some}
use mathlib.Core.List.{Mem}
use libcmatrix.Base.{
  String, ◌≡◌, refl, true, false, none, some, arith, eq_iff, Bool-cases, inl, inr,
}
use libcmatrix.Base.Text.{str_eq, strcmp0_eq}
use libcmatrix.Json.{JsonObject}
use libcmatrix.Json.Glib.{JsonGlib}
use libcmatrix.Json.Access.{object_get_string, object_get_int}
use libcmatrix.EventType.{
  CmEventType, room_encrypted, get_event_type_str, first_match, handled_types,
}
use libcmatrix.EventType.RoundTrip.{first_match_iff}
use libcmatrix.Event.{CmEvent, is_encrypted, is_decrypted}
use libcmatrix.Event.Json.{set_json, or_else}

-- "m.room.encrypted" is none of the types that are searched
not_encrypted :
    (t : CmEventType) (s : String)
    → first_match handled_types (some s) ≡ some t
    → strcmp0_eq (some s) (get_event_type_str room_encrypted) ≡ false
unfolding first_match strcmp0_eq
not_encrypted t s h = elim (Bool-cases (str_eq s "m.room.encrypted")) [
  | inl e ↦ absurd (none-ne-some t (rw ((eq_iff s "m.room.encrypted").0 e) at h))
  | inr e ↦ e
]

type_of_encrypted : strcmp0_eq (some "m.room.encrypted") (get_event_type_str room_encrypted) ≡ true
unfolding strcmp0_eq get_event_type_str
type_of_encrypted = refl

no_accept :
    (first_match handled_types (some "m.key.verification.accept") ≡ none)
    × (strcmp0_eq (some "m.key.verification.accept") (get_event_type_str room_encrypted) ≡ false)
unfolding first_match strcmp0_eq get_event_type_str
no_accept = (refl, refl)

module _ (g : JsonGlib) where
  pub set_json_found :
      (self : CmEvent) (root : JsonObject) (t : CmEventType) (s : String)
      → object_get_string g (some root) (some "type") ≡ some s
      → first_match handled_types (some s) ≡ some t
      → let e = set_json g self (some root) none in
        (e.event_type ≡ t)
        × (e.json ≡ some root)
        × (e.encrypted_json ≡ self.encrypted_json)
        × (e.event_id ≡ object_get_string g (some root) (some "event_id"))
        × (e.sender_id ≡ or_else (object_get_string g (some root) (some "sender")) self.sender_id)
        × (e.state_key ≡ object_get_string g (some root) (some "state_key"))
        × (e.sender ≡ self.sender)
  unfolding set_json
  set_json_found self root t s h found = ground (arith, found, not_encrypted t s found)

  -- A plain event whose text is that of a handled type gets that type, and its object, id, sender and
  -- state key are those of the object; what was encrypted before is kept.
  pub set_json_plain :
      (self : CmEvent) (root : JsonObject) (t : CmEventType) (s : String)
      → object_get_string g (some root) (some "type") ≡ some s
      → get_event_type_str t ≡ some s
      → Mem t handled_types
      → let e = set_json g self (some root) none in
        (e.event_type ≡ t)
        × (e.json ≡ some root)
        × (e.encrypted_json ≡ self.encrypted_json)
        × (e.event_id ≡ object_get_string g (some root) (some "event_id"))
        × (e.sender_id ≡ or_else (object_get_string g (some root) (some "sender")) self.sender_id)
        × (e.state_key ≡ object_get_string g (some root) (some "state_key"))
        × (e.sender ≡ self.sender)
  set_json_plain self root t s h k m =
      set_json_found self root t s h ((first_match_iff t s).1 (k, m))

  -- The protocol's name of the acceptance of a verification is not read: the type stays what it was.
  pub set_json_accept :
      (self : CmEvent) (root : JsonObject)
      → object_get_string g (some root) (some "type") ≡ some "m.key.verification.accept"
      → (set_json g self (some root) none).event_type ≡ self.event_type
  unfolding set_json
  set_json_accept self root h = ground (arith, no_accept.0, no_accept.1)

  -- An encrypted event that nothing decrypts is kept as encrypted: its type is `room_encrypted`, it
  -- holds no plain object that it did not hold before, and its id and time are read from it.
  pub set_json_encrypted :
      (self : CmEvent) (root : JsonObject)
      → object_get_string g (some root) (some "type") ≡ some "m.room.encrypted"
      → let e = set_json g self (some root) none in
        (e.event_type ≡ room_encrypted)
        × (e.json ≡ self.json)
        × (e.encrypted_json ≡ some root)
        × (is_encrypted e ≡ true)
        × (e.event_id ≡ object_get_string g (some root) (some "event_id"))
        × (e.time_stamp ≡ object_get_int g (some root) (some "origin_server_ts"))
  unfolding set_json is_encrypted
  set_json_encrypted self root h = ground (arith, type_of_encrypted)

  -- Of an event that came encrypted and was decrypted, the id and the sender are those of
  -- the encrypted object, and the type and the state key those of the decrypted one.
  pub set_json_decrypted :
      (self : CmEvent) (root encrypted : JsonObject) (t : CmEventType) (s : String)
      → object_get_string g (some root) (some "type") ≡ some s
      → get_event_type_str t ≡ some s
      → Mem t handled_types
      → let e = set_json g self (some root) (some encrypted) in
        (e.event_type ≡ t)
        × (e.json ≡ some root)
        × (e.encrypted_json ≡ some encrypted)
        × (is_encrypted e ≡ true)
        × (is_decrypted e ≡ true)
        × (e.event_id ≡ object_get_string g (some encrypted) (some "event_id"))
        × (e.sender_id
            ≡ or_else (object_get_string g (some encrypted) (some "sender")) self.sender_id)
        × (e.state_key ≡ object_get_string g (some root) (some "state_key"))
  unfolding set_json is_encrypted is_decrypted
  set_json_decrypted self root encrypted t s h k m =
      let found : first_match handled_types (some s) ≡ some t = (first_match_iff t s).1 (k, m) in
      ground (arith, found, not_encrypted t s found)
