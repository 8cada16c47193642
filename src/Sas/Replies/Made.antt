-- ===== src/Sas/Replies/Made.antt =====
-- The getters of the events that src/cm-olm-sas.c sends, called again.
use libcmatrix.Base.{ℕ, String, ◌≡◌, Option, some, arith}
use libcmatrix.Base.Int.{ℤ}
use libcmatrix.Sas.State.{SasEnv, CmOlmSas, Reply}
use libcmatrix.Sas.Replies.{
  Made, make_cancel, create_commitment, get_cancel_event, get_ready_event, get_accept_event,
  get_key_event, get_mac_event, get_done_event,
}

pub data Getter : Type 0 where
  cancel ready accept key mac done : Getter

abbrev pub get_event : SasEnv → ℤ → Option String → Getter → CmOlmSas → ℕ → Made
get_event env now code cancel = get_cancel_event env now code
get_event env now code ready = get_ready_event env now
get_event env now code accept = get_accept_event env now
get_event env now code key = get_key_event env now
get_event env now code mac = get_mac_event env now
get_event env now code done = get_done_event env now

module _ (env : SasEnv) (now afterwards : ℤ) where
  -- An event that a getter of a verification returned is returned by every later call of the getter,
  -- whatever the time and the cancel code, and the call leaves the state and takes no new number.
  pub get_event-kept :
      (getter : Getter) (code other : Option String) (self s : CmOlmSas) (id next later : ℕ)
      (r : Reply)
      → get_event env now code getter self id ≡ (some r, s, next)
      → get_event env afterwards other getter s later ≡ (some r, s, later)
  unfolding get_cancel_event make_cancel get_ready_event get_accept_event create_commitment
      get_key_event get_mac_event get_done_event
  get_event-kept cancel code other self s id next later r h = ground (arith, h)
  get_event-kept ready code other self s id next later r h = ground (arith, h)
  get_event-kept accept code other self s id next later r h = ground (arith, h)
  get_event-kept key code other self s id next later r h = ground (arith, h)
  get_event-kept mac code other self s id next later r h = ground (arith, h)
  get_event-kept done code other self s id next later r h = ground (arith, h)
