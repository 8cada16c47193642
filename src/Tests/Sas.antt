-- ===== src/Tests/Sas.antt =====
-- A verification of Alice's device by Bob.
use libcmatrix.Base.{arith, ◌+◌, ◌*◌, ◌≡◌, refl, true, false, none, some, ap, [], ◌∷◌}
use libcmatrix.Base.Int.{pos}
use libcmatrix.Json.Sample.{sample}
use libcmatrix.Json.Access.{object_get_object, find_member}
use libcmatrix.Json.{get_member, set_member, end, array, element, nil, string}
use libcmatrix.Event.{is_some}
use libcmatrix.Base.Text.{strcmp0_eq}
use libcmatrix.Sas.State.{CmOlmSas, sas_new, find_device, find_in}
use libcmatrix.Sas.Mac.{mac_content, parse_verification_mac, accept_device}
use libcmatrix.Sas.Mac.Exchange.{mac_content-verified}
use libcmatrix.Sas.Mac.Checked.{IsProved, parse_verification_mac-IsProved}
use libcmatrix.Sas.Session.{
  returned, matches_event, follow, take_event, react, attach, set_key_verification,
}
use libcmatrix.Sas.Session.Laws.{IsProvedBy, matches_event-verified, set_key_verification-minutes}
use libcmatrix.Sas.Session.Course.{Leads, here, WasProved, verified-WasProved, cancelled-Leads}
use libcmatrix.Sas.State.{CmVerificationEvent, Reply}
use libcmatrix.Sas.Replies.{reply, transaction_content}
use libcmatrix.EventType.{key_verification_request, key_verification_ready}
use libcmatrix.Tests.SasSample.{
  first, event_of, alice, bob, of_alice, of_bob, device_of_alice, mac_step,
}

mac_content-verified_example :
    parse_verification_mac bob (device_of_alice ∷ []) mac_step.event of_bob
    ≡ accept_device device_of_alice of_bob
unfolding find_device find_in strcmp0_eq is_some object_get_object find_member get_member
    mac_content
mac_content-verified_example =
    mac_content-verified alice of_alice end bob of_bob (device_of_alice ∷ []) device_of_alice
      mac_step.event (refl, refl, refl, refl, refl, λ input info. refl) refl refl refl refl refl
      refl refl

-- Bob's state once the MAC event is taken
abbrev verified_bob : CmOlmSas
verified_bob =
    accept_device device_of_alice
      (record of_bob { attached = record of_bob.attached { mac = some mac_step } })

taken : matches_event bob (device_of_alice ∷ []) mac_step of_bob ≡ returned true verified_bob
unfolding matches_event follow take_event react attach strcmp0_eq find_device find_in is_some
    object_get_object find_member get_member mac_content accept_device
taken = ap (returned true) (
    mac_content-verified alice of_alice end bob
      (record of_bob { attached = record of_bob.attached { mac = some mac_step } })
      (device_of_alice ∷ []) device_of_alice mac_step.event
      (refl, refl, refl, refl, refl, λ input info. refl) refl refl refl refl refl refl refl)

matches_event-verified_example :
    ((e : CmVerificationEvent) × (of_bob.key_verification ≡ some e)
      × (mac_step.transaction_id ≡ e.transaction_id))
    × IsProvedBy bob (device_of_alice ∷ []) mac_step of_bob
unfolding accept_device
matches_event-verified_example =
    matches_event-verified bob (device_of_alice ∷ []) mac_step of_bob verified_bob true refl refl
      taken

parse_verification_mac-IsProved_example :
    (is_some of_bob.attached.key ≡ true)
    × (is_some of_bob.cancel_code ≡ false)
    × IsProved bob
        (device_of_alice ∷ [])
        (object_get_object mac_step.event.json (some "content"))
        of_bob
unfolding accept_device
parse_verification_mac-IsProved_example =
    parse_verification_mac-IsProved bob (device_of_alice ∷ []) mac_step.event of_bob refl
      (ap (λ (s : CmOlmSas). s.verified) mac_content-verified_example)

abbrev cancelled : CmOlmSas
cancelled = record of_bob { cancel_code = some "m.user" }

abbrev cancelled_after : CmOlmSas
cancelled_after = record cancelled { attached = record of_bob.attached { mac = some mac_step } }

abbrev waiting : CmOlmSas
waiting = record sas_new { key_verification = some first }

-- sent at 1000 seconds
abbrev old_request : CmVerificationEvent
old_request = record first {
  event = record (event_of key_verification_request none) { time_stamp = pos 1000000 };
}

-- a request that is two hours and a second old
set_key_verification-minutes_example :
    (set_key_verification sample (1000 + 1 + 60 * 120) old_request sas_new
      ≡ set_key_verification sample (1000 + 1) old_request sas_new)
    × ((set_key_verification sample (1000 + 1 + 60 * 120) old_request sas_new).cancel_code ≡ none)
set_key_verification-minutes_example =
    set_key_verification-minutes sample 1000000 120 1 old_request sas_new refl refl refl refl
      (omega arith) (omega arith)

abbrev ready_reply : Reply
ready_reply = reply alice (pos 1) key_verification_ready first 5 (
    set_member
      (set_member (transaction_content first) "methods" (array (element (string "m.sas.v1") nil)))
      "from_device" (string "A"))

abbrev ready_alice : CmOlmSas
ready_alice = record of_alice { key_verification_ready = some ready_reply }

verified-WasProved_example : WasProved bob of_bob verified_bob
unfolding accept_device
verified-WasProved_example =
    verified-WasProved bob of_bob verified_bob
      (Leads.event (device_of_alice ∷ []) mac_step true here taken) refl refl

cancelled_step :
    matches_event bob (device_of_alice ∷ []) mac_step cancelled ≡ returned true cancelled_after
unfolding matches_event follow take_event react attach strcmp0_eq is_some parse_verification_mac
cancelled_step = refl

cancelled-Leads_example :
    (is_some cancelled_after.cancel_code ≡ true) × (cancelled_after.verified ≡ cancelled.verified)
unfolding is_some
cancelled-Leads_example =
    cancelled-Leads bob cancelled cancelled_after
      (Leads.event (device_of_alice ∷ []) mac_step true here cancelled_step) refl
