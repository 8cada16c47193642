-- ===== src/Event/Json.antt =====
-- cm_event_set_json and event_parse_relations of src/events/cm-event.c.
use libcmatrix.Base.{Bool, true, false, String, Option, none, some, if◌then◌else◌}
use libcmatrix.Base.Int.{is_zero}
use libcmatrix.Base.Text.{strcmp0_eq}
use libcmatrix.Json.{JsonObject}
use libcmatrix.Json.Glib.{JsonGlib}
use libcmatrix.Json.Access.{object_get_string, object_get_int, object_get_object, object_has_member}
use libcmatrix.EventType.{
  CmEventType, room_encrypted, room_redaction, key_verification_request, key_verification_start,
  get_event_type_str, first_match, handled_types,
}
use libcmatrix.Event.{CmEvent, empty_event}

-- `a ?: b`
unfoldable pub or_else {ℓ} : {A : Type ℓ} → Option A → Option A → Option A
or_else none b = b
or_else (some a) b = some a

module _ (g : JsonGlib) where
  -- the redacted event, for a redaction
  unfoldable pub redacts : Option JsonObject → Option String
  redacts root =
      if strcmp0_eq (get_event_type_str room_redaction) (object_get_string g root (some "type"))
      then object_get_string g root (some "redacts")
      else none

  -- the four places that name the replaced event, in order; `m.relates_to` writes the field even where
  -- it holds no id
  unfoldable pub parse_relations : CmEvent → Option JsonObject → CmEvent
  unfolding or_else redacts
  parse_relations self root =
      let relates =
        object_get_object (object_get_object root (some "content")) (some "m.relates_to") in
      let unsigned = object_get_object root (some "unsigned") in
      let replace =
        object_get_object (object_get_object unsigned (some "m.relations")) (some "m.replace") in
      let first =
        if strcmp0_eq (object_get_string g relates (some "rel_type")) (some "m.replace")
        then object_get_string g relates (some "event_id")
        else self.replaces_event_id in
      let second = or_else first (object_get_string g unsigned (some "replaces_state")) in
      let third = or_else second (object_get_string g replace (some "event_id")) in
      record self { replaces_event_id = or_else third (redacts root) }

  -- `source` is `encrypted ?: root`
  unfoldable pub set_envelope : CmEvent → Option JsonObject → CmEvent
  unfolding or_else
  set_envelope self source =
      let unsigned = object_get_object source (some "unsigned") in
      record self {
        event_id = object_get_string g source (some "event_id");
        time_stamp = object_get_int g source (some "origin_server_ts");
        sender_id = or_else (object_get_string g source (some "sender")) self.sender_id;
        txn_id =
            if object_has_member unsigned (some "transaction_id")
            then object_get_string g unsigned (some "transaction_id")
            else self.txn_id;
      }

  unfoldable pub type_or : CmEventType → Option CmEventType → CmEventType
  type_or old none = old
  type_or old (some t) = t

  abbrev is_start : CmEventType → Bool
  is_start key_verification_request = true
  is_start key_verification_start = true
  is_start _ = false

  -- the device and the time of a verification that begins
  unfoldable pub set_verification : CmEvent → JsonObject → CmEvent
  set_verification self root =
      let content = object_get_object (some root) (some "content") in
      if is_start self.event_type
      then record self {
        sender_device_id = object_get_string g content (some "from_device");
        time_stamp =
            if is_zero self.time_stamp
            then object_get_int g content (some "timestamp")
            else self.time_stamp;
      }
      else self

  -- the part of cm_event_set_json after `if (!root) return`
  unfoldable pub set_root : CmEvent → JsonObject → CmEvent
  unfolding parse_relations type_or set_verification
  set_root self root =
      let related = parse_relations self (some root) in
      let type = first_match handled_types (object_get_string g (some root) (some "type")) in
      set_verification
        (record related {
          state_key = object_get_string g (some root) (some "state_key");
          json = some root;
          event_type = type_or related.event_type type;
        })
        root

  unfoldable pub set_encrypted : CmEvent → Option JsonObject → CmEvent
  set_encrypted self none = self
  set_encrypted self (some encrypted) = record self { encrypted_json = some encrypted }

  unfoldable pub relate_encrypted : CmEvent → Option JsonObject → CmEvent
  unfolding parse_relations
  relate_encrypted self none = self
  relate_encrypted self (some encrypted) = parse_relations self (some encrypted)

  unfoldable pub set_root_if : CmEvent → Option JsonObject → CmEvent
  unfolding set_root
  set_root_if self none = self
  set_root_if self (some root) = set_root self root

  -- cm_event_set_json after an encrypted `root` has been taken as `encrypted`
  unfoldable pub set_parts : CmEvent → Option JsonObject → Option JsonObject → CmEvent
  unfolding set_root_if relate_encrypted set_envelope set_encrypted or_else
  set_parts self root encrypted =
      set_root_if
        (relate_encrypted (set_envelope (set_encrypted self encrypted) (or_else encrypted root))
          encrypted)
        root

  -- the type of the event, as the start of cm_event_set_json reads it
  unfoldable pub outer_type : Option JsonObject → Option JsonObject → Option String
  unfolding or_else
  outer_type root encrypted =
      or_else (object_get_string g root (some "type")) (object_get_string g encrypted (some "type"))

  -- an encrypted root with nothing to stand for it is what was encrypted
  unfoldable pub set_outer : CmEvent → Option JsonObject → Option JsonObject → CmEvent
  unfolding set_parts
  set_outer self root none = set_parts self none root
  set_outer self root (some encrypted) = set_parts self root (some encrypted)

  unfoldable pub set_json : CmEvent → Option JsonObject → Option JsonObject → CmEvent
  unfolding outer_type set_outer
  set_json self none none = self
  set_json self root encrypted =
      if strcmp0_eq (outer_type root encrypted) (get_event_type_str room_encrypted)
      then set_outer (record self { event_type = room_encrypted }) root encrypted
      else set_parts self root encrypted

  unfoldable pub event_new_from_json : Option JsonObject → Option JsonObject → Option CmEvent
  unfolding set_json
  event_new_from_json none none = none
  event_new_from_json root encrypted = some (set_json empty_event root encrypted)
