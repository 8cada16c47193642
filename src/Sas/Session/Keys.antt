-- ===== src/Sas/Session/Keys.antt =====
-- The key of the other side and the emojis in the course of a verification.
use libcmatrix.Base.{
  ◌≡◌, ◌≢◌, ◌↔◌, true, false, none, some, List, arith, ◌==◌, inl, inr, Option-cases,
}
use libcmatrix.Base.Text.{strcmp0_eq}
use libcmatrix.EventType.{key_verification_key}
use libcmatrix.Event.{is_some}
use libcmatrix.Sas.State.{CmDevice, CmVerificationEvent, SasEnv, CmOlmSas}
use libcmatrix.Sas.Session.{crashed, matches_event, follow, set_their_key}

follow-crashed :
    (env : SasEnv) (devices : List CmDevice) (event : CmVerificationEvent) (self : CmOlmSas)
    → (follow env devices event self ≡ crashed) ↔ (
        (event.event.event_type ≡ key_verification_key)
        × (event.verification_key ≡ none)
        × (self.olm_their_key ≡ none))
unfolding follow set_their_key is_some
follow-crashed env devices event self = ground arith

no_first :
    (env : SasEnv) (devices : List CmDevice) (event : CmVerificationEvent) (self : CmOlmSas)
    → self.key_verification ≡ none
    → matches_event env devices event self ≢ crashed
unfolding matches_event
no_first env devices event self e = ground (arith, e)

first_found :
    (env : SasEnv) (devices : List CmDevice) (event : CmVerificationEvent) (self : CmOlmSas)
    (first : CmVerificationEvent)
    → self.key_verification ≡ some first
    → matches_event env devices event self ≡ crashed
    → ((event.ref == first.ref) ≡ false)
      × (strcmp0_eq event.transaction_id first.transaction_id ≡ true)
      × (follow env devices event self ≡ crashed)
unfolding matches_event
first_found env devices event self first e h = ground (arith, e, h)

-- The one way in which cm_olm_sas_matches_event takes the length of a NULL: the first event of the
-- transaction that should bring the key of the other side holds no key.
pub matches_event-crashed :
    (env : SasEnv) (devices : List CmDevice) (event : CmVerificationEvent) (self : CmOlmSas)
    → (matches_event env devices event self ≡ crashed) ↔ (
        (event.event.event_type ≡ key_verification_key)
        × (event.verification_key ≡ none)
        × (self.olm_their_key ≡ none)
        × ((first : CmVerificationEvent) × (self.key_verification ≡ some first)
            × ((event.ref == first.ref) ≡ false)
            × (strcmp0_eq event.transaction_id first.transaction_id ≡ true)))
unfolding matches_event
matches_event-crashed env devices event self = (
  λ h. elim (Option-cases self.key_verification) [
    | inl e ↦ absurd (no_first env devices event self e h)
    | inr (first, e) ↦
        let (other, ours, crash) = first_found env devices event self first e h in
        let (type, no_key, unset) = (follow-crashed env devices event self).0 crash in
        (type, no_key, unset, (first, e, other, ours))
  ],
  λ (type, no_key, unset, (first, e, other, ours)).
      rw (e, matches_event)
        (rw other (rw ours ((follow-crashed env devices event self).1 (type, no_key, unset)))),
)
