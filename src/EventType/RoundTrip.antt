-- ===== src/EventType/RoundTrip.antt =====
-- The texts of the event types, and the search for the type of a text in cm_event_set_json of
-- src/events/cm-event.c.
use mathlib.Core.Option
use mathlib.Core.Bool.{false≢true}
use mathlib.Core.Option.{some-injective, none-ne-some}
use mathlib.Core.Logic.Or
use mathlib.Core.List.{Mem, mem-cons, not-mem-nil}
use libcmatrix.Base.{
  String, ◌≡◌, refl, sym, ap, ◌∙◌, ◌↔◌, some, List, [], ◌∷◌, Option, Bool-cases, inl, inr,
}
use libcmatrix.Base.Text.{strcmp0_eq, strcmp0_eq_lem, strcmp0_eq_refl}
use libcmatrix.EventType.{
  CmEventType, unknown, get_event_type_str, first_match, handled_types, call_answer,
  call_asserted_identity, call_asserted_identity_prefix, call_candidates, call_hangup, call_invite,
  call_negotiate, call_reject, call_replaces, call_select_answer, direct, dummy, forwarded_room_key,
  fully_read, ignored_user_list, key_verification_accept, key_verification_cancel,
  key_verification_done, key_verification_key, key_verification_mac, key_verification_ready,
  key_verification_request, key_verification_start, presence, push_rules, reaction, receipt,
  room_aliases, room_avatar, room_bot_options, room_canonical_alias, room_create, room_encrypted,
  room_encryption, room_guest_access, room_history_visibility, room_join_rules, room_key,
  room_key_request, room_member, room_message, room_message_feedback, room_name, room_pinned_events,
  room_plumbing, room_power_levels, room_redaction, room_related_groups, room_server_acl,
  room_third_party_invite, room_tombstone, room_topic, secret_request, secret_send,
  secret_storage_default_key, space_child, space_parent, sticker, tag, typing,
}

-- the types that have a text
abbrev named_types : List CmEventType
named_types =
    call_answer ∷ call_asserted_identity ∷ call_asserted_identity_prefix ∷ call_candidates
    ∷ call_hangup ∷ call_invite ∷ call_negotiate ∷ call_reject ∷ call_replaces ∷ call_select_answer
    ∷ direct ∷ dummy ∷ forwarded_room_key ∷ fully_read ∷ ignored_user_list ∷ key_verification_accept
    ∷ key_verification_cancel ∷ key_verification_done ∷ key_verification_key ∷ key_verification_mac
    ∷ key_verification_ready ∷ key_verification_request ∷ key_verification_start ∷ presence
    ∷ push_rules ∷ reaction ∷ receipt ∷ room_aliases ∷ room_avatar ∷ room_bot_options
    ∷ room_canonical_alias ∷ room_create ∷ room_encrypted ∷ room_encryption ∷ room_guest_access
    ∷ room_history_visibility ∷ room_join_rules ∷ room_key ∷ room_key_request ∷ room_member
    ∷ room_message ∷ room_message_feedback ∷ room_name ∷ room_pinned_events ∷ room_plumbing
    ∷ room_power_levels ∷ room_redaction ∷ room_related_groups ∷ room_server_acl
    ∷ room_third_party_invite ∷ room_tombstone ∷ room_topic ∷ secret_request ∷ secret_send
    ∷ secret_storage_default_key ∷ space_child ∷ space_parent ∷ sticker ∷ tag ∷ typing ∷ []

-- each text leads back to its type
inverse :
    (t : CmEventType)
    → first_match named_types (get_event_type_str t) ≡ Option.map (λ _. t) (get_event_type_str t)
unfolding first_match
inverse unknown = refl
inverse _ = refl

-- No two event types have the same text.
pub get_event_type_str_injective :
    (t u : CmEventType) (s : String)
    → get_event_type_str t ≡ some s
    → get_event_type_str u ≡ some s
    → t ≡ u
get_event_type_str_injective t u s h k =
    some-injective t u (sym (inverse t ∙ rw h) ∙ (rw (h, ← k) (inverse u ∙ rw k)))

first_match_finds :
    (ts : List CmEventType) (t : CmEventType) (s : String)
    → get_event_type_str t ≡ some s
    → Mem t ts
    → first_match ts (some s) ≡ some t
unfolding first_match
first_match_finds [] t s h m = absurd (not-mem-nil m)
first_match_finds (u ∷ ts) t s h m =
    elim (Bool-cases (strcmp0_eq (some s) (get_event_type_str u))) [
      | inl e ↦ rw e (ap some (get_event_type_str_injective u t s (sym (strcmp0_eq_lem _ _ e)) h))
      | inr e ↦ rw e (
          Or.elim (hlevel) (mem-cons.0 m)
            (λ q. absurd (false≢true (sym e ∙ rw (← q, h) (strcmp0_eq_refl (some s)))))
            (first_match_finds ts t s h))
    ]

first_match_sound :
    (ts : List CmEventType) (t : CmEventType) (s : Option String)
    → first_match ts s ≡ some t
    → (get_event_type_str t ≡ s) × Mem t ts
unfolding first_match
first_match_sound [] t s h = absurd (none-ne-some t h)
first_match_sound (u ∷ ts) t s h = elim (Bool-cases (strcmp0_eq s (get_event_type_str u))) [
  | inl e ↦
      let q : u ≡ t = some-injective u t (rw e at h) in
      (rw (← q) (sym (strcmp0_eq_lem _ _ e)), mem-cons.1 (Or.inl (sym q)))
  | inr e ↦ let (same, m) = first_match_sound ts t s (rw e at h) in (same, mem-cons.1 (Or.inr m))
]

-- The search of cm_event_set_json gives a type exactly when the type is one of those it handles and
-- the text is that type's.
pub first_match_iff :
    (t : CmEventType) (s : String)
    → (first_match handled_types (some s) ≡ some t)
      ↔ ((get_event_type_str t ≡ some s) × Mem t handled_types)
first_match_iff t s =
    (first_match_sound handled_types t (some s), λ h. first_match_finds handled_types t s h.0 h.1)
