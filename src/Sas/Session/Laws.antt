-- ===== src/Sas/Session/Laws.antt =====
-- The cancel code, the time of a request and the verified mark in the course of a verification
-- (src/cm-olm-sas.c).
use libcmatrix.Base.{
  none, ltb, ℕ, ◌+◌, ◌*◌, ◌/◌, ◌≤◌, ◌<◌, String, ◌≡◌, ◌≢◌, refl, sym, ap, ◌∙◌, not, ◌||◌, ◌&&◌, ◌⊎◌,
  inl, inr, Bool, true, false, ◌==◌, Option, some, List, arith, Bool-cases, Option-cases,
  if◌then◌else◌,
}
use mathlib.Core.Bool.{false≢true}
use libcmatrix.Base.Int.{ℤ, pos}
use libcmatrix.Base.Text.{strcmp0_eq, strcmp0_eq_lem}
use libcmatrix.Json.Glib.{JsonGlib}
use libcmatrix.Json.Access.{object_get_object}
use libcmatrix.EventType.{CmEventType, key_verification_mac, key_verification_request}
use libcmatrix.Event.{CmEvent, is_some, get_sender_id, get_time_stamp}
use libcmatrix.Sas.State.{CmDevice, CmVerificationEvent, SasEnv, CmOlmSas}
use libcmatrix.Sas.Mac.{parse_verification_mac, their_info, calculate_mac}
use libcmatrix.Sas.Mac.Checked.{IsProved, parse_verification_mac-IsProved}
use libcmatrix.Sas.Session.{
  crashed, returned, brings_key, matches_event, follow, take_event, react, get_emojis,
  generate_bytes, make_emojis, parse_verification_start, set_their_key, attach,
  set_key_verification, begin_with, check_time, starts, requests, minutes, parse_verification_start,
}

-- the age of an event in whole minutes does not count
minutes_later :
    (now t k : ℕ) (event : CmEvent)
    → event.time_stamp ≡ pos t
    → 0 < t
    → t / 1000 ≤ now
    → minutes (now + 60 * k) event ≡ minutes now event
unfolding minutes get_time_stamp
minutes_later now t k event e p q = ground (arith, e, p, q)

-- whatever the event is, the verification is the same at any number of whole minutes later
set_key_verification_later :
    (g : JsonGlib) (now t k : ℕ) (event : CmVerificationEvent) (self : CmOlmSas)
    → event.event.time_stamp ≡ pos t
    → 0 < t
    → t / 1000 ≤ now
    → set_key_verification g (now + 60 * k) event self ≡ set_key_verification g now event self
unfolding set_key_verification begin_with
set_key_verification_later g now t k event self e p q =
    let begun : CmOlmSas = record self {
      key_verification = some event;
      their_user_id = get_sender_id event.event;
      their_device_id = event.event.sender_device_id;
    } in
    let ready =
      if starts event.event.event_type
      then parse_verification_start g event.event begun
      else begun in
    ap
      (λ (m : ℤ).
        if not (is_some self.key_verification)
          && (starts event.event.event_type || requests event.event.event_type)
        then check_time m ready
        else self)
      (minutes_later now t k event.event e p q)

-- the cancel code of a request within a minute
set_key_verification_early :
    (g : JsonGlib) (r t : ℕ) (event : CmVerificationEvent) (self : CmOlmSas)
    → self.key_verification ≡ none
    → self.cancel_code ≡ none
    → event.event.event_type ≡ key_verification_request
    → event.event.time_stamp ≡ pos t
    → 0 < t
    → r < 60
    → (set_key_verification g (t / 1000 + r) event self).cancel_code
      ≡ (if ltb 10 r then some "m.timeout" else none)
unfolding set_key_verification begin_with check_time minutes get_time_stamp is_some
set_key_verification_early g r t event self e0 e1 e2 e3 p q = ground (arith, e0, e1, e2, e3, p, q)

-- A new verification gets a request that carries its time, when the request is `k` whole minutes and `r` further
-- seconds old. It becomes what it becomes when the request is `r` seconds old, and is cancelled with
-- "m.timeout" exactly where `r` is more than 10, whatever `k` is.
pub set_key_verification-minutes :
    (g : JsonGlib) (t k r : ℕ) (event : CmVerificationEvent) (self : CmOlmSas)
    → self.key_verification ≡ none
    → self.cancel_code ≡ none
    → event.event.event_type ≡ key_verification_request
    → event.event.time_stamp ≡ pos t
    → 0 < t
    → r < 60
    → (set_key_verification g (t / 1000 + r + 60 * k) event self
        ≡ set_key_verification g (t / 1000 + r) event self)
      × ((set_key_verification g (t / 1000 + r + 60 * k) event self).cancel_code
          ≡ (if ltb 10 r then some "m.timeout" else none))
set_key_verification-minutes g t k r event self e0 e1 e2 e3 p q =
    let same = set_key_verification_later g (t / 1000 + r) t k event self e3 p (omega arith) in
    (
      same,
      ap (λ (s : CmOlmSas). s.cancel_code) same
          ∙ set_key_verification_early g r t event self e0 e1 e2 e3 p q,
    )

-- the other fields are not touched by the emojis
get_emojis-kept :
    (env : SasEnv) (self : CmOlmSas)
    → ((get_emojis env self).cancel_code ≡ self.cancel_code)
      × ((get_emojis env self).verified ≡ self.verified)
unfolding get_emojis make_emojis generate_bytes
get_emojis-kept env self = ground arith

parse_verification_mac-cancelled :
    (env : SasEnv) (devices : List CmDevice) (event : CmEvent) (self : CmOlmSas)
    → is_some self.cancel_code ≡ true
    → parse_verification_mac env devices event self ≡ self
unfolding parse_verification_mac
parse_verification_mac-cancelled env devices event self h = ground (arith, h)

react-cancelled :
    (env : SasEnv) (devices : List CmDevice) (event : CmVerificationEvent) (type : CmEventType)
    (self : CmOlmSas)
    → is_some self.cancel_code ≡ true
    → (is_some (react env devices event type self).cancel_code ≡ true)
      × ((react env devices event type self).verified ≡ self.verified)
unfolding react parse_verification_start is_some
react-cancelled env devices event type self h = ground (
  arith,
  h,
  parse_verification_mac-cancelled env devices event.event self h,
  get_emojis-kept env self,
)

-- of the types of events, only one verifies
react-verified :
    (env : SasEnv) (devices : List CmDevice) (event : CmVerificationEvent) (type : CmEventType)
    (self : CmOlmSas)
    → (type ≡ key_verification_mac) ⊎ ((react env devices event type self).verified ≡ self.verified)
unfolding react parse_verification_start
react-verified env devices event type self = ground (arith, get_emojis-kept env self)

-- the key of the other side may be set before the event is taken
set_their_key-kept :
    (env : SasEnv) (key : Option String) (self s : CmOlmSas)
    → set_their_key env key self ≡ some s
    → (s.cancel_code ≡ self.cancel_code) × (s.verified ≡ self.verified)
unfolding set_their_key
set_their_key-kept env key self s h = ground (arith, h)

returned-injective : (a b : Bool) (s t : CmOlmSas) → returned a s ≡ returned b t → (a ≡ b) × (s ≡ t)
returned-injective a b s t h = ground (arith, h)

crashed-ne-returned : (b : Bool) (s : CmOlmSas) → crashed ≢ returned b s
crashed-ne-returned b s = ground arith

-- an event of the transaction is taken, by a state that differs in the other side's key at most
follow-cases :
    (env : SasEnv) (devices : List CmDevice) (event : CmVerificationEvent) (self s : CmOlmSas)
    (result : Bool)
    → follow env devices event self ≡ returned result s
    → (s0 : CmOlmSas) × (s ≡ take_event env devices event s0)
      × (result ≡ true)
      × (s0.cancel_code ≡ self.cancel_code)
      × (s0.verified ≡ self.verified)
unfolding follow
follow-cases env devices event self s result h =
    elim (Bool-cases (brings_key event.event.event_type)) [
      | inr e ↦
          let (a, b) =
            returned-injective true result (take_event env devices event self) s (rw e at h) in
          (self, sym b, sym a, refl, refl)
      | inl e ↦ elim (Option-cases (set_their_key env event.verification_key self)) [
        | inl none_set ↦ absurd (crashed-ne-returned result s (rw none_set at (rw e at h)))
        | inr (s0, set) ↦
            let (a, b) =
              returned-injective true result (take_event env devices event s0) s
                (rw set at (rw e at h)) in
            let (c, d) = set_their_key-kept env event.verification_key self s0 set in
            (s0, sym b, sym a, c, d)
      ]
    ]

follow-cancelled :
    (env : SasEnv) (devices : List CmDevice) (event : CmVerificationEvent) (self s : CmOlmSas)
    (result : Bool)
    → is_some self.cancel_code ≡ true
    → follow env devices event self ≡ returned result s
    → (is_some s.cancel_code ≡ true) × (s.verified ≡ self.verified)
unfolding take_event
follow-cancelled env devices event self s result h k =
    let (s0, made, done, code, was) = follow-cases env devices event self s result k in
    let type = event.event.event_type in
    let s1 : CmOlmSas = record s0 { attached = attach type event s0.attached } in
    let (a, b) = react-cancelled env devices event type s1 (rw code h) in rw made (a, b ∙ was)

-- Once a verification has a cancel code, no event removes it or makes the device verified.
pub matches_event-cancelled :
    (env : SasEnv) (devices : List CmDevice) (event : CmVerificationEvent) (self s : CmOlmSas)
    (result : Bool)
    → is_some self.cancel_code ≡ true
    → matches_event env devices event self ≡ returned result s
    → (is_some s.cancel_code ≡ true) × (s.verified ≡ self.verified)
unfolding matches_event
matches_event-cancelled env devices event self s result h k =
    ground (arith, h, k, follow-cancelled env devices event self s result h)

follow-mac :
    (env : SasEnv) (devices : List CmDevice) (event : CmVerificationEvent) (self : CmOlmSas)
    → event.event.event_type ≡ key_verification_mac
    → follow env devices event self
      ≡ returned true (
          parse_verification_mac env devices event.event
            (record self { attached = record self.attached { mac = some event } }))
unfolding follow take_event react attach
follow-mac env devices event self e = rw e refl

-- what it says of a device that becomes verified
abbrev pub IsProvedBy : SasEnv → List CmDevice → CmVerificationEvent → CmOlmSas → Type 0
IsProvedBy env devices event self =
    (event.event.event_type ≡ key_verification_mac)
    × (is_some self.attached.key ≡ true)
    × (is_some self.cancel_code ≡ false)
    × IsProved env devices (object_get_object event.event.json (some "content")) self

follow-verified :
    (env : SasEnv) (devices : List CmDevice) (event : CmVerificationEvent) (self s : CmOlmSas)
    (result : Bool)
    → self.verified ≡ false
    → s.verified ≡ true
    → follow env devices event self ≡ returned result s
    → IsProvedBy env devices event self
unfolding take_event their_info calculate_mac
follow-verified env devices event self s result h v k =
    let (s0, made, done, code, was) = follow-cases env devices event self s result k in
    let type = event.event.event_type in
    let s1 : CmOlmSas = record s0 { attached = attach type event s0.attached } in
    elim (react-verified env devices event type s1) [
      | inr same ↦ absurd (false≢true (sym h ∙ sym was ∙ sym same ∙ (rw made at v)))
      | inl mac ↦
          let s2 : CmOlmSas = record self {
            attached = record self.attached { mac = some event };
          } in
          let (done2, parsed) =
            returned-injective true result (parse_verification_mac env devices event.event s2) s
              (sym (follow-mac env devices event self mac) ∙ k) in
          let (key, free, proved) =
            parse_verification_mac-IsProved env devices event.event s2 h (rw (sym parsed) at v) in
          (mac, key, free, proved)
    ]

-- The only events that make a verification verified are those that carry its transaction, of type
-- m.key.verification.mac, after the key of the other side came and while nothing was cancelled, and
-- their MACs prove the names of the keys and the Ed25519 key of a known device of the other side.
pub matches_event-verified :
    (env : SasEnv) (devices : List CmDevice) (event : CmVerificationEvent) (self s : CmOlmSas)
    (result : Bool)
    → self.verified ≡ false
    → s.verified ≡ true
    → matches_event env devices event self ≡ returned result s
    → ((first : CmVerificationEvent) × (self.key_verification ≡ some first)
        × (event.transaction_id ≡ first.transaction_id))
      × IsProvedBy env devices event self
unfolding matches_event
matches_event-verified env devices event self s result h v k =
    elim (Option-cases self.key_verification) [
      | inl e ↦
          let (a, b) = returned-injective false result self s (rw (e, matches_event) at k) in
          absurd (false≢true (sym h ∙ (rw (sym b) at v)))
      | inr (first, e) ↦ elim (Bool-cases (event.ref == first.ref)) [
        | inl same ↦
            let (a, b) =
              returned-injective true result self s (rw same at (rw (e, matches_event) at k)) in
            absurd (false≢true (sym h ∙ (rw (sym b) at v)))
        | inr other ↦
            let k2 = rw other at (rw (e, matches_event) at k) in
            elim (Bool-cases (strcmp0_eq event.transaction_id first.transaction_id)) [
              | inr foreign ↦
                  let (a, b) = returned-injective false result self s (rw foreign at k2) in
                  absurd (false≢true (sym h ∙ (rw (sym b) at v)))
              | inl ours ↦ (
                (first, e, strcmp0_eq_lem event.transaction_id first.transaction_id ours),
                follow-verified env devices event self s result h v (rw ours at k2),
              )
            ]
      ]
    ]
