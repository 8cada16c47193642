-- ===== src/Enc/Groups/Paired.antt =====
-- A group session and its pair: what a room encrypts, the device itself can read (src/cm-enc.c).
use mathlib.Core.Path.{subst}
use libcmatrix.Base.{
  ℕ, zero, suc, String, ◌≡◌, refl, sym, ap, ◌∙◌, false, not, ◌&&◌, Option, none, some, [], ◌∷◌,
  ◌++◌, ◌==◌, if◌then◌else◌, if_both, if_true, if_false, arith,
}
use libcmatrix.Base.Int.{ℤ, pos, negsuc}
use libcmatrix.Base.Text.{is_empty}
use libcmatrix.Base.Table.{lookup}
use libcmatrix.Event.{is_some}
use libcmatrix.Json.{JsonObject, get_member, set_member}
use libcmatrix.Json.Access.{find_member, holds_value, object_get_string}
use libcmatrix.InputStream.FileJson.{string_node, set_string}
use libcmatrix.Olm.{
  Libolm, Later, IsDocumented, CmOlm, CmOlmState, set_state, same_state, is_outdated,
  update_validity,
}
use libcmatrix.Olm.Group.{decrypt-Reads}
use libcmatrix.Olm.Shared.{encrypted_by}
use libcmatrix.Enc.Groups.{
  ChatEnv, ChatRoom, CmEnc, put_at, get_session_id, session_of, lookup_out_group_session,
  set_session, chat_json, encrypt_by, encrypt_for_chat,
}
use libcmatrix.Enc.Groups.Received.{
  decrypt_by, decrypt_found, decrypt_text, handle_join_room_encrypted,
}

-- The room's outbound session sends with what the session `first` has become, and under its id there is
-- an inbound session made of the key of `first`, which has read nothing.
pub record IsPaired {S I O : Type 0} (lib : Libolm S I O) (self : CmEnc S I O) (room : ℕ)
    : Type 0 where
  pub id : String
  pub out : ℕ
  pub inbound : ℕ
  pub first : O
  pub session : O
  pub key : String
  pub reader : I
  pub room_has : self.out_group_room_session room ≡ some id
  pub out_has : lookup self.out_group_sessions id ≡ some out
  pub in_has : lookup self.in_group_sessions id ≡ some inbound
  pub apart : (inbound == out) ≡ false
  pub sends : (self.sessions out).out_gp_session ≡ some session
  pub sends_group : (self.sessions out).olm_session ≡ none
  pub named : (self.sessions out).session_id ≡ some id
  pub later : Later lib first session
  pub own : lib.outbound_key first ≡ some key
  pub made : lib.init_inbound key ≡ some reader
  pub reads : (self.sessions inbound).in_gp_session ≡ some reader
  pub reads_group : (self.sessions inbound).olm_session ≡ none

module _ {S I O : Type 0} (lib : Libolm S I O) where
  -- the sessions of the object and its id
  abbrev Same : CmOlm S I O → CmOlm S I O → Type 0
  Same s t =
      (t.out_gp_session ≡ s.out_gp_session)
      × (t.olm_session ≡ s.olm_session)
      × (t.session_id ≡ s.session_id)

  set_state-Same : (s : CmOlm S I O) (state : CmOlmState) → Same s (set_state s state)
  unfolding set_state
  set_state-Same s state =
      if_both (Same s) (same_state state s.state) (refl, refl, refl)
        (if_both (Same s) (same_state s.state CmOlmState.usable) (refl, refl, refl)
          (refl, refl, refl))

  update_validity-Same :
      (s : CmOlm S I O) (count : ℕ) (duration : ℤ) (now : ℕ)
      → Same s (update_validity lib s count duration now)
  unfolding update_validity
  update_validity-Same s count (pos zero) now = (refl, refl, refl)
  update_validity-Same s count (negsuc n) now = (refl, refl, refl)
  update_validity-Same s count (pos (suc n)) now =
      if_both (Same s) (count == 0) (refl, refl, refl)
        (if_both (Same s) (is_outdated lib s count (suc n) now)
          (set_state-Same s CmOlmState.rotated) (refl, refl, refl))

  pub id_known :
      (s : CmOlm S I O) (id : String) → s.session_id ≡ some id → get_session_id lib s ≡ (some id, s)
  unfolding get_session_id is_some
  id_known s id e =
      if_true (is_some s.session_id) _ _ (ap is_some e) ∙ ap (λ (o : Option String). (o, s)) e

  module _ (env : ChatEnv) (self : CmEnc S I O) (room : ChatRoom) (p : IsPaired lib self room.ref)
      (message : String) (some_text : is_empty (some message) ≡ false) where
    abbrev pub cipher_of : Option String
    cipher_of = (lib.group_encrypt p.session message).0

    abbrev pub encrypted : CmOlm S I O
    encrypted = record (self.sessions p.out) {
      out_gp_session = some (lib.group_encrypt p.session message).1;
    }

    abbrev pub valid : CmOlm S I O
    valid = update_validity lib encrypted room.msg_count room.rotation_time env.now

    abbrev pub after : CmEnc S I O
    after = record (set_session self p.out valid) { saved = self.saved ++ (p.out ∷ []) }

    pub encrypt_for_chat_path :
        encrypt_for_chat lib env self room (some message)
        ≡ (some (chat_json lib self cipher_of (some p.id)), after)
    unfolding encrypt_for_chat encrypt_by lookup_out_group_session session_of
    encrypt_for_chat_path =
        let same = update_validity-Same encrypted room.msg_count room.rotation_time env.now in
        if_false (is_empty (some message)) _ _ some_text
        ∙ ap
            (λ (id : Option String).
              encrypt_by lib env self room (some message) (session_of self.out_group_sessions id))
            p.room_has
        ∙ ap (encrypt_by lib env self room (some message)) p.out_has
        ∙ ap
            (λ (r : Option String × CmOlm S I O).
              let (session_id, last) =
                get_session_id lib
                  (update_validity lib r.1 room.msg_count room.rotation_time env.now) in
              (
                some (chat_json lib self r.0 session_id),
                record (set_session self p.out last) { saved = self.saved ++ (p.out ∷ []) },
              ))
            (encrypted_by lib (self.sessions p.out) p.session message p.sends p.sends_group)
        ∙ ap
            (λ (r : Option String × CmOlm S I O). (
              some (chat_json lib self cipher_of r.0),
              record (set_session self p.out r.1) { saved = self.saved ++ (p.out ∷ []) },
            ))
            (id_known valid p.id (same.2 ∙ p.named))

    pub paired_after : IsPaired lib after room.ref
    unfolding put_at
    paired_after =
        let same = update_validity-Same encrypted room.msg_count room.rotation_time env.now in
        let at_out : put_at self.sessions p.out valid p.out ≡ valid =
          if_true (p.out == p.out) _ _ (ground arith) in
        let at_in : put_at self.sessions p.out valid p.inbound ≡ self.sessions p.inbound =
          if_false (p.inbound == p.out) _ _ p.apart in
        record {
          id = p.id;
          out = p.out;
          inbound = p.inbound;
          first = p.first;
          session = (lib.group_encrypt p.session message).1;
          key = p.key;
          reader = p.reader;
          room_has = p.room_has;
          out_has = p.out_has;
          in_has = p.in_has;
          apart = p.apart;
          sends = ap (λ (s : CmOlm S I O). s.out_gp_session) at_out ∙ same.0;
          sends_group = ap (λ (s : CmOlm S I O). s.olm_session) at_out ∙ same.1 ∙ p.sends_group;
          named = ap (λ (s : CmOlm S I O). s.session_id) at_out ∙ same.2 ∙ p.named;
          later = Later.encrypted message p.later;
          own = p.own;
          made = p.made;
          reads = ap (λ (s : CmOlm S I O). s.in_gp_session) at_in ∙ p.reads;
          reads_group = ap (λ (s : CmOlm S I O). s.olm_session) at_in ∙ p.reads_group;
        }

    -- the members of the object that was sent
    sent_id :
        object_get_string env.glib
          (some (chat_json lib self cipher_of (some p.id)))
          (some "session_id")
        ≡ some p.id
    unfolding chat_json set_string set_member string_node object_get_string find_member get_member
        holds_value
    sent_id = env.glib.get_string-string p.id

    sent_cipher :
        (cipher : String)
        → cipher_of ≡ some cipher
        → object_get_string env.glib
            (some (chat_json lib self cipher_of (some p.id)))
            (some "ciphertext")
          ≡ some cipher
    unfolding chat_json set_string set_member string_node object_get_string find_member get_member
        holds_value
    sent_cipher cipher e =
        ap
          (λ (c : Option String).
            object_get_string env.glib (some (chat_json lib self c (some p.id)))
              (some "ciphertext"))
          e
        ∙ env.glib.get_string-string cipher

    decrypted_after :
        (laws : IsDocumented lib) (cipher : String)
        → cipher_of ≡ some cipher
        → (decrypt_by env lib after cipher (some p.inbound)).0 ≡ some message
    unfolding decrypt_by paired_after
    decrypted_after laws cipher e =
        let q = paired_after in
        decrypt-Reads lib p.reader (after.sessions p.inbound) 0 cipher (q.reads, q.reads_group)
        ∙ laws.reads p.first p.session p.key message cipher p.reader p.later p.own p.made e

    -- whoever holds an inbound session under the id decrypts by it
    pub handle_sent :
        (device : CmEnc S I O) (inbound : ℕ) (cipher : String) (found : Option (CmOlm S I O))
        → lookup device.in_group_sessions p.id ≡ some inbound
        → cipher_of ≡ some cipher
        → handle_join_room_encrypted env lib device
            (some (chat_json lib self cipher_of (some p.id)))
            found
          ≡ some (decrypt_by env lib device cipher (some inbound))
    unfolding handle_join_room_encrypted decrypt_text session_of is_some
    handle_sent device inbound cipher found held e =
        ap
          (λ (id : Option String). decrypt_text env lib device id found (
            object_get_string env.glib (some (chat_json lib self cipher_of (some p.id)))
              (some "ciphertext")))
          sent_id
        ∙ ap (decrypt_text env lib device (some p.id) found) (sent_cipher cipher e)
        ∙ ap
            (λ (r : Option ℕ).
              if not (is_some r) && is_some device.cm_db
              then decrypt_found env lib device cipher (some p.id) found
              else some (decrypt_by env lib device cipher r))
            held

-- A room has a group session and its pair, which has read nothing, after any number of messages. A text that libolm
-- encrypts is sent, and the session stays paired; and the device that sent it decrypts the object to the
-- text, without the database.
pub handle-encrypt_for_chat :
    {S I O : Type 0} (lib : Libolm S I O) (laws : IsDocumented lib) (env : ChatEnv)
    (self : CmEnc S I O) (room : ChatRoom) (p : IsPaired lib self room.ref)
    (message cipher : String) (found : Option (CmOlm S I O))
    → is_empty (some message) ≡ false
    → (lib.group_encrypt p.session message).0 ≡ some cipher
    → let (sent, next) = encrypt_for_chat lib env self room (some message) in
      (object : JsonObject) × (sent ≡ some object)
      × IsPaired lib next room.ref
      × (last : CmEnc S I O) × (handle_join_room_encrypted env lib next (some object) found
          ≡ some (some message, last))
handle-encrypt_for_chat {S = S} {I = I} {O = O} lib laws env self room p message cipher found
      some_text e =
    subst
      (λ (r : Option JsonObject × CmEnc S I O).
        (object : JsonObject) × (r.0 ≡ some object)
        × IsPaired lib r.1 room.ref
        × (last : CmEnc S I O) × (handle_join_room_encrypted env lib r.1 (some object) found
            ≡ some (some message, last)))
      (sym (encrypt_for_chat_path lib env self room p message some_text))
      (
        chat_json lib self (cipher_of lib env self room p message some_text) (some p.id),
        refl,
        paired_after lib env self room p message some_text,
        (decrypt_by env lib (after lib env self room p message some_text) cipher
            (some p.inbound)).1,
        handle_sent lib env self room p message some_text
              (after lib env self room p message some_text) p.inbound cipher found p.in_has e
            ∙ ap
                (λ (t : Option String). some (
                  t,
                  (decrypt_by env lib (after lib env self room p message some_text) cipher
                      (some p.inbound)).1,
                ))
                (decrypted_after lib env self room p message some_text laws cipher e),
      )
