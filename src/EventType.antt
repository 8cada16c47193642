-- ===== src/EventType.antt =====
-- CmEventType of src/cm-enums.h and its texts, cm_utils_get_event_type_str of src/cm-utils.c.
pub mod RoundTrip
use libcmatrix.Base.{ℕ, String, Option, none, some, List, [], ◌∷◌, if◌then◌else◌}
use libcmatrix.Base.Text.{strcmp0_eq}

pub data CmEventType : Type 0 where
  unknown call_answer call_asserted_identity call_asserted_identity_prefix call_candidates
        call_hangup call_invite call_negotiate call_reject call_replaces call_select_answer direct
        dummy forwarded_room_key fully_read ignored_user_list key_verification_accept
        key_verification_cancel key_verification_done key_verification_key key_verification_mac
        key_verification_ready key_verification_request key_verification_start presence push_rules
        reaction receipt room_aliases room_avatar room_bot_options room_canonical_alias room_create
        room_encrypted room_encryption room_guest_access room_history_visibility room_join_rules
        room_key room_key_request room_member room_message room_message_feedback room_name
        room_pinned_events room_plumbing room_power_levels room_redaction room_related_groups
        room_server_acl room_third_party_invite room_tombstone room_topic secret_request secret_send
        secret_storage_default_key space_child space_parent sticker tag typing user_status
        room_invite room_ban room_kick :
      CmEventType

-- the enum's values
unfoldable pub value : CmEventType → ℕ
value unknown = 0
value call_answer = 1
value call_asserted_identity = 2
value call_asserted_identity_prefix = 3
value call_candidates = 4
value call_hangup = 5
value call_invite = 6
value call_negotiate = 7
value call_reject = 8
value call_replaces = 9
value call_select_answer = 10
value direct = 11
value dummy = 12
value forwarded_room_key = 13
value fully_read = 14
value ignored_user_list = 15
value key_verification_accept = 16
value key_verification_cancel = 17
value key_verification_done = 18
value key_verification_key = 19
value key_verification_mac = 20
value key_verification_ready = 21
value key_verification_request = 22
value key_verification_start = 23
value presence = 24
value push_rules = 25
value reaction = 26
value receipt = 27
value room_aliases = 28
value room_avatar = 29
value room_bot_options = 30
value room_canonical_alias = 31
value room_create = 32
value room_encrypted = 33
value room_encryption = 34
value room_guest_access = 35
value room_history_visibility = 36
value room_join_rules = 37
value room_key = 38
value room_key_request = 39
value room_member = 40
value room_message = 41
value room_message_feedback = 42
value room_name = 43
value room_pinned_events = 44
value room_plumbing = 45
value room_power_levels = 46
value room_redaction = 47
value room_related_groups = 48
value room_server_acl = 49
value room_third_party_invite = 50
value room_tombstone = 51
value room_topic = 52
value secret_request = 53
value secret_send = 54
value secret_storage_default_key = 55
value space_child = 56
value space_parent = 57
value sticker = 58
value tag = 59
value typing = 60
value user_status = 256
value room_invite = 257
value room_ban = 258
value room_kick = 259

-- NULL for the types that have no text
unfoldable pub get_event_type_str : CmEventType → Option String
get_event_type_str unknown = none
get_event_type_str call_answer = some "m.call.answer"
get_event_type_str call_asserted_identity = some "m.call.asserted_identity"
get_event_type_str call_asserted_identity_prefix = some "org.matrix.call.asserted_identity"
get_event_type_str call_candidates = some "m.call.candidates"
get_event_type_str call_hangup = some "m.call.hangup"
get_event_type_str call_invite = some "m.call.invite"
get_event_type_str call_negotiate = some "m.call.negotiate"
get_event_type_str call_reject = some "m.call.reject"
get_event_type_str call_replaces = some "m.call.replaces"
get_event_type_str call_select_answer = some "m.call.select_answer"
get_event_type_str direct = some "m.direct"
get_event_type_str dummy = some "m.dummy"
get_event_type_str forwarded_room_key = some "m.forwarded_room_key"
get_event_type_str fully_read = some "m.fully_read"
get_event_type_str ignored_user_list = some "m.ignored_user_list"
get_event_type_str key_verification_accept = some "m.key.verification_accept"
get_event_type_str key_verification_cancel = some "m.key.verification.cancel"
get_event_type_str key_verification_done = some "m.key.verification.done"
get_event_type_str key_verification_key = some "m.key.verification.key"
get_event_type_str key_verification_mac = some "m.key.verification.mac"
get_event_type_str key_verification_ready = some "m.key.verification.ready"
get_event_type_str key_verification_request = some "m.key.verification.request"
get_event_type_str key_verification_start = some "m.key.verification.start"
get_event_type_str presence = some "m.presence"
get_event_type_str push_rules = some "m.push_rules"
get_event_type_str reaction = some "m.reaction"
get_event_type_str receipt = some "m.receipt"
get_event_type_str room_aliases = some "m.room.aliases"
get_event_type_str room_avatar = some "m.room.avatar"
get_event_type_str room_bot_options = some "m.room.bot.options"
get_event_type_str room_canonical_alias = some "m.room.canonical_alias"
get_event_type_str room_create = some "m.room.create"
get_event_type_str room_encrypted = some "m.room.encrypted"
get_event_type_str room_encryption = some "m.room.encryption"
get_event_type_str room_guest_access = some "m.room.guest_access"
get_event_type_str room_history_visibility = some "m.room.history_visibility"
get_event_type_str room_join_rules = some "m.room.join_rules"
get_event_type_str room_key = some "m.room_key"
get_event_type_str room_key_request = some "m.room_key.request"
get_event_type_str room_member = some "m.room.member"
get_event_type_str room_message = some "m.room.message"
get_event_type_str room_message_feedback = some "m.room.message.feedback"
get_event_type_str room_name = some "m.room.name"
get_event_type_str room_pinned_events = some "m.room.pinned_events"
get_event_type_str room_plumbing = some "m.room.plumbing"
get_event_type_str room_power_levels = some "m.room.power_levels"
get_event_type_str room_redaction = some "m.room.redaction"
get_event_type_str room_related_groups = some "m.room.related_groups"
get_event_type_str room_server_acl = some "m.room.server_acl"
get_event_type_str room_third_party_invite = some "m.room.third_party_invite"
get_event_type_str room_tombstone = some "m.room.tombstone"
get_event_type_str room_topic = some "m.room.topic"
get_event_type_str secret_request = some "m.secret.request"
get_event_type_str secret_send = some "m.secret.send"
get_event_type_str secret_storage_default_key = some "m.secret_storage.default_key"
get_event_type_str space_child = some "m.space.child"
get_event_type_str space_parent = some "m.space.parent"
get_event_type_str sticker = some "m.sticker"
get_event_type_str tag = some "m.tag"
get_event_type_str typing = some "m.typing"
get_event_type_str user_status = none
get_event_type_str room_invite = none
get_event_type_str room_ban = none
get_event_type_str room_kick = none

-- the types that cm_event_set_json compares a text with, in its order
abbrev pub handled_types : List CmEventType
handled_types =
    room_message ∷ room_member ∷ reaction ∷ room_redaction ∷ room_topic ∷ room_avatar ∷ call_invite
    ∷ call_candidates ∷ call_answer ∷ call_select_answer ∷ call_hangup ∷ room_canonical_alias
    ∷ room_name ∷ room_create ∷ room_power_levels ∷ room_guest_access ∷ room_history_visibility
    ∷ room_join_rules ∷ room_server_acl ∷ room_encryption ∷ room_third_party_invite
    ∷ room_related_groups ∷ room_tombstone ∷ room_pinned_events ∷ room_plumbing ∷ room_bot_options
    ∷ key_verification_accept ∷ key_verification_cancel ∷ key_verification_done
    ∷ key_verification_key ∷ key_verification_mac ∷ key_verification_ready
    ∷ key_verification_request ∷ key_verification_start ∷ []

unfoldable pub first_match : List CmEventType → Option String → Option CmEventType
unfolding strcmp0_eq get_event_type_str
first_match [] s = none
first_match (t ∷ ts) s = if strcmp0_eq s (get_event_type_str t) then some t else first_match ts s
