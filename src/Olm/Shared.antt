-- ===== src/Olm/Shared.antt =====
-- A room's group session as a device reads it that gets its key later (cm_olm_get_session_key of
-- src/cm-olm.c).
use mathlib.Core.Path.{subst}
use libcmatrix.Base.{ℕ, String, ◌≡◌, refl, sym, ap, ◌∙◌, Option, none, some}
use libcmatrix.Olm.{
  Libolm, Later, IsDocumented, CmOlm, in_group_made, inbound_object, in_group_new, out_group_new,
  encrypt, encrypt_with, encrypt_group, decrypt,
}
use libcmatrix.Olm.State.{Sends, no_message, message, Sends-HasSent}
use libcmatrix.Olm.Group.{decrypt-Reads}

module _ {S I O : Type 0} (lib : Libolm S I O) where
  unfoldable pub key_of : Option O → Option String
  key_of none = none
  key_of (some session) = lib.outbound_key session

  -- cm_olm_get_session_key; what it returns is also kept in `current_session_key`, which is read
  -- nowhere else
  unfoldable pub get_session_key : CmOlm S I O → Option String
  unfolding key_of
  get_session_key self = key_of self.out_gp_session

  -- `self` sends with what the session `first` has become
  abbrev IsOpen : O → CmOlm S I O → Type 0
  IsOpen first self =
      (session : O) × (self.out_gp_session ≡ some session)
      × (self.olm_session ≡ none)
      × Later lib first session

  pub encrypted_by :
      (self : CmOlm S I O) (session : O) (text : String)
      → self.out_gp_session ≡ some session
      → self.olm_session ≡ none
      → encrypt lib self (some text) ≡ (
        (lib.group_encrypt session text).0,
        record self { out_gp_session = some (lib.group_encrypt session text).1 },
      )
  unfolding encrypt encrypt_with encrypt_group
  encrypted_by self session text out no_olm =
      ap (encrypt_with lib self text) no_olm ∙ ap (encrypt_group lib self text) out

  Sends-IsOpen :
      (first : O) (self : CmOlm S I O) (n : ℕ) (u : CmOlm S I O)
      → IsOpen first self
      → Sends lib self n u
      → IsOpen first u
  Sends-IsOpen first self _ _ ready no_message = ready
  Sends-IsOpen first self _ u ready (message {n = n} {t = t} text cipher sent h) =
      let (session, out, no_olm, later) = Sends-IsOpen first self n t ready sent in
      subst (IsOpen first) (ap (λ r. r.1) (sym (encrypted_by t session text out no_olm) ∙ h))
        ((lib.group_encrypt session text).1, refl, no_olm, Later.encrypted text later)

  key_at :
      (self : CmOlm S I O) (session : O) (key : String)
      → self.out_gp_session ≡ some session
      → get_session_key self ≡ some key
      → lib.outbound_key session ≡ some key
  unfolding get_session_key key_of
  key_at self session key out h = sym (ap key_of out) ∙ h

  made_inbound :
      (key : String) (i : I) (curve_key session_id : Option String)
      → lib.init_inbound key ≡ some i
      → in_group_new lib key curve_key session_id ≡ some (inbound_object key curve_key session_id i)
  unfolding in_group_new in_group_made
  made_inbound key i curve_key session_id ok = ap (in_group_made lib key curve_key session_id) ok

-- The key that cm_olm_get_session_key returns once a group session has sent some messages makes a
-- session on the device that gets it, which decrypts every message that is sent from then on.
pub decrypt-get_session_key :
    {S I O : Type 0} (lib : Libolm S I O) (laws : IsDocumented lib) (random : String)
    (made_at n k type : ℕ) (curve_key sender_key session_id : Option String)
    (self out sender next : CmOlm S I O) (key text cipher : String)
    → out_group_new lib random made_at curve_key ≡ some self
    → Sends lib self n out
    → get_session_key lib out ≡ some key
    → Sends lib out k sender
    → encrypt lib sender (some text) ≡ (some cipher, next)
    → (inbound : CmOlm S I O) × (in_group_new lib key sender_key session_id ≡ some inbound)
      × ((decrypt lib inbound type (some cipher)).0 ≡ some text)
decrypt-get_session_key lib laws random made_at n k type curve_key sender_key session_id self out
      sender next key text cipher made sent current more h =
    let (session, _, _, has, no_olm, _, _, _, _, _, _) =
      Sends-HasSent lib laws random made_at curve_key self n out made sent in
    let own = key_at lib out session key has current in
    let (i, ok) = laws.key_accepted session key own in
    let (last, has_last, no_last, later) =
      Sends-IsOpen lib session out k sender (session, has, no_olm, Later.same) more in
    let sends = ap (λ r. r.0) (sym (encrypted_by lib sender last text has_last no_last) ∙ h) in
    (
      inbound_object key sender_key session_id i,
      made_inbound lib key i sender_key session_id ok,
      decrypt-Reads lib i (inbound_object key sender_key session_id i) type cipher (refl, refl)
          ∙ laws.reads session last key text cipher i later own ok sends,
    )
