-- ===== src/Olm/Group.antt =====
-- A room's group session as the device that made it reads it (src/cm-olm.c).
use libcmatrix.Base.{ℕ, String, ◌≡◌, refl, sym, ap, ◌∙◌, Option, none, some, if_both, ◌&&◌, not}
use libcmatrix.Event.{is_some}
use libcmatrix.Olm.{
  Libolm, IsDocumented, CmOlm, set_account_details, set_sender_details, set_key, set_db,
  take_details, with_details, in_group_made, inbound_object, in_group_new, in_group_of_key,
  in_group_new_from_out, out_group_new, encrypt, encrypt_with, encrypt_group, decrypt, decrypt_with,
  decrypt_group,
}
use libcmatrix.Olm.State.{Sends, Sends-HasSent}

module _ {S I O : Type 0} (lib : Libolm S I O) where
  -- the sessions of the object
  abbrev pub Reads : I → CmOlm S I O → Type 0
  Reads i self = (self.in_gp_session ≡ some i) × (self.olm_session ≡ none)

  take_details-Reads :
      (i : I) (out self : CmOlm S I O) → Reads i self → Reads i (take_details out self)
  unfolding take_details set_account_details set_sender_details set_key set_db
  take_details-Reads i out self h =
      let account = set_account_details self out.account_user_id out.account_device_id in
      let sender = set_sender_details account out.room_id out.sender_id in
      let keyed = set_key sender out.pickle_key in
      if_both (Reads i) (is_some out.cm_db && not (is_some keyed.cm_db)) {y = keyed} keyed-Reads
        keyed-Reads
    where
      account-Reads : Reads i (set_account_details self out.account_user_id out.account_device_id)
      account-Reads = if_both (Reads i) _ h h

      sender-Reads : Reads i (
          set_sender_details
            (set_account_details self out.account_user_id out.account_device_id)
            out.room_id
            out.sender_id)
      sender-Reads = if_both (Reads i) _ account-Reads account-Reads

      keyed-Reads : Reads i (
          set_key
            (set_sender_details
              (set_account_details self out.account_user_id out.account_device_id)
              out.room_id
              out.sender_id)
            out.pickle_key)
      keyed-Reads = if_both (Reads i) _ sender-Reads sender-Reads

  pub made_of_key :
      (out : CmOlm S I O) (curve_key : Option String) (key : String) (i : I)
      → out.session_key ≡ some key
      → lib.init_inbound key ≡ some i
      → (self : CmOlm S I O) × (in_group_new_from_out lib out curve_key ≡ some self) × Reads i self
  unfolding in_group_new_from_out in_group_of_key in_group_new in_group_made with_details
  made_of_key out curve_key key i keyed ok = (
    take_details out (inbound_object key curve_key out.session_id i),
    ap (in_group_of_key lib out curve_key) keyed
        ∙ ap (λ (s : Option I). with_details out (in_group_made lib key curve_key out.session_id s))
            ok,
    take_details-Reads i out (inbound_object key curve_key out.session_id i) (refl, refl),
  )

  pub decrypt-Reads :
      (i : I) (self : CmOlm S I O) (type : ℕ) (cipher : String)
      → Reads i self
      → (decrypt lib self type (some cipher)).0 ≡ (lib.group_decrypt i cipher).0
  unfolding decrypt decrypt_with decrypt_group
  decrypt-Reads i self type cipher (in_gp, no_olm) =
      ap (λ (s : Option S). (decrypt_with lib self type cipher s).0) no_olm
      ∙ ap (λ (s : Option I). (decrypt_group lib self cipher s).0) in_gp

-- The device that made a group session reads what it sends: after any number of messages, a session
-- made by cm_olm_in_group_new_from_out decrypts the next message to its text.
pub decrypt-encrypt :
    {S I O : Type 0} (lib : Libolm S I O) (laws : IsDocumented lib) (random : String)
    (made_at n type : ℕ) (curve_key sender_key : Option String) (self out next : CmOlm S I O)
    (text cipher : String)
    → out_group_new lib random made_at curve_key ≡ some self
    → Sends lib self n out
    → encrypt lib out (some text) ≡ (some cipher, next)
    → (inbound : CmOlm S I O) × (in_group_new_from_out lib out sender_key ≡ some inbound)
      × ((decrypt lib inbound type (some cipher)).0 ≡ some text)
unfolding encrypt encrypt_with encrypt_group
decrypt-encrypt {S = S} {O = O} lib laws random made_at n type curve_key sender_key self out next
      text cipher made sent h =
    let (session, first, key, has, no_olm, keyed, own, later, _, _, _) =
      Sends-HasSent lib laws random made_at curve_key self n out made sent in
    let (i, ok) = laws.key_accepted first key own in
    let (inbound, run, reads) = made_of_key lib out sender_key key i keyed ok in
    let sends =
      sym (
        ap (λ (s : Option S). (encrypt_with lib out text s).0) no_olm
        ∙ ap (λ (s : Option O). (encrypt_group lib out text s).0) has)
      ∙ ap (λ r. r.0) h in
    (
      inbound,
      run,
      decrypt-Reads lib i inbound type cipher reads
          ∙ laws.reads first session key text cipher i later own ok sends,
    )
