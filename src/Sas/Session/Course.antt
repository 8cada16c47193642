-- ===== src/Sas/Session/Course.antt =====
-- The courses that a verification of src/cm-olm-sas.c can take: the states that events lead to, in any
-- order and number, while the list of the user's devices may change.
use mathlib.Core.Bool.{false≢true}
use libcmatrix.Base.{◌≡◌, refl, sym, ◌∙◌, Bool, true, false, inl, inr, Bool-cases, List, some}
use libcmatrix.Event.{is_some}
use libcmatrix.Sas.State.{CmDevice, CmVerificationEvent, SasEnv, CmOlmSas}
use libcmatrix.Sas.Session.{returned, matches_event}
use libcmatrix.Sas.Session.Laws.{IsProvedBy, matches_event-verified, matches_event-cancelled}

pub data Leads (env : SasEnv) (s : CmOlmSas) : CmOlmSas → Type 0 where
  here : Leads env s s
  event :
      {t u : CmOlmSas} (devices : List CmDevice) (e : CmVerificationEvent) (result : Bool)
      → Leads env s t
      → matches_event env devices e t ≡ returned result u
      → Leads env s u

-- on the way from `s` to `u`, the step by an event of the transaction, which proves a device, made the
-- verification verified
abbrev pub WasProved : SasEnv → CmOlmSas → CmOlmSas → Type 0
WasProved env s u =
    (t : CmOlmSas) × (v : CmOlmSas) × (devices : List CmDevice) × (e : CmVerificationEvent)
    × (result : Bool) × Leads env s t
    × (matches_event env devices e t ≡ returned result v)
    × Leads env v u
    × (t.verified ≡ false)
    × (v.verified ≡ true)
    × ((first : CmVerificationEvent) × (t.key_verification ≡ some first)
        × (e.transaction_id ≡ first.transaction_id))
    × IsProvedBy env devices e t

-- Whatever events come to a verification that is not verified: if it is verified in the end, then one
-- step of the course made it so. The event of that step was a MAC event of the transaction, which proved
-- the Ed25519 key of a device that was known then, to a state that was not verified, had the other side's
-- key and had no cancel code.
pub verified-WasProved :
    (env : SasEnv) (s u : CmOlmSas)
    → Leads env s u
    → s.verified ≡ false
    → u.verified ≡ true
    → WasProved env s u
verified-WasProved env s _ here h v = absurd (false≢true (sym h ∙ v))
verified-WasProved env s u (event {t = t} devices e result way step) h v =
    elim (Bool-cases t.verified) [
      | inl was ↦
          let (t', v', known, e', done, before, turn, after, not_yet, now, ours, proved) =
            verified-WasProved env s t way h was in
          (
            t',
            v',
            known,
            e',
            done,
            before,
            turn,
            Leads.event devices e result after step,
            not_yet,
            now,
            ours,
            proved,
          )
      | inr not_yet ↦
          let (ours, proved) = matches_event-verified env devices e t u result not_yet v step in
          (t, u, devices, e, result, way, step, here, not_yet, v, ours, proved)
    ]

-- A verification with a cancel code has one after all events that come, and is verified only if it
-- was before.
pub cancelled-Leads :
    (env : SasEnv) (s u : CmOlmSas)
    → Leads env s u
    → is_some s.cancel_code ≡ true
    → (is_some u.cancel_code ≡ true) × (u.verified ≡ s.verified)
cancelled-Leads env s _ here h = (h, refl)
cancelled-Leads env s u (event {t = t} devices e result way step) h =
    let (code, same) = cancelled-Leads env s t way h in
    let (code', same') = matches_event-cancelled env devices e t u result code step in
    (code', same' ∙ same)
