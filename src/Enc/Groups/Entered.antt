-- ===== src/Enc/Groups/Entered.antt =====
-- The group session that is set for a room (cm_enc_set_room_group_key of src/cm-enc.c).
use libcmatrix.Base.{
  ℕ, String, ◌≡◌, refl, sym, ap, ◌∙◌, true, false, not, ◌&&◌, Option, none, some, List, ◌++◌, ◌∷◌,
  [], ◌==◌, if_true, if_false, Option-cases, inl, inr, arith, eq_iff,
}
use libcmatrix.Base.Table.{Table, lookup, insert, lookup-insert}
use libcmatrix.Base.Text.{str_eq}
use libcmatrix.Event.{is_some}
use libcmatrix.Olm.{
  Libolm, Later, IsDocumented, CmOlm, megolm_v1_out, CmSessionType, in_group_new_from_out,
}
use libcmatrix.Olm.Group.{Reads, made_of_key}
use libcmatrix.Enc.Groups.{
  ChatRoom, CmEnc, put_at, id_of_sessions, get_session_id, session_of, lookup_out_group_session,
  set_session, enter_pair, enter_made, enter, has_room_group_key, is_same, is_outbound,
  set_room_group_key, save_pair,
}
use libcmatrix.Enc.Groups.Paired.{IsPaired}

module _ {S I O : Type 0} (lib : Libolm S I O) where
  -- the id that an outbound session gets or has
  pub named_by :
      (s : CmOlm S I O) (session : O)
      → s.out_gp_session ≡ some session
      → s.olm_session ≡ none
      → (id : String) × (t : CmOlm S I O) × (get_session_id lib s ≡ (some id, t))
        × (t.session_id ≡ some id)
        × (t.out_gp_session ≡ some session)
        × (t.olm_session ≡ none)
        × (t.session_key ≡ s.session_key)
        × (t.type ≡ s.type)
  unfolding get_session_id is_some id_of_sessions
  named_by s session out no_olm = elim (Option-cases s.session_id) [
    | inl e ↦ (
      lib.outbound_id session,
      record s { session_id = some (lib.outbound_id session) },
      if_false (is_some s.session_id) _ _ (ap is_some e)
          ∙ ap (λ (id : Option String). (id, record s { session_id = id })) (known s.in_gp_session),
      refl,
      out,
      no_olm,
      refl,
      refl,
    )
    | inr (id, e) ↦ (
      id,
      s,
      if_true (is_some s.session_id) _ _ (ap is_some e) ∙ ap (λ (o : Option String). (o, s)) e,
      e,
      out,
      no_olm,
      refl,
      refl,
    )
  ]
    where
      known :
          (i : Option I)
          → id_of_sessions lib s.olm_session s.out_gp_session i ≡ some (lib.outbound_id session)
      known i =
          ap (λ (o : Option S). id_of_sessions lib o s.out_gp_session i) no_olm
          ∙ ap (λ (o : Option O). id_of_sessions lib none o i) out

  pub same_at : {A : Type 0} (f : ℕ → A) (at : ℕ) (value : A) → put_at f at value at ≡ value
  unfolding put_at
  same_at f at value = if_true (at == at) _ _ (ground arith)

  -- the tables after a session was entered
  entered_lookup :
      (table : Table ℕ) (id : String) (ref : ℕ) → lookup (insert table id ref) id ≡ some ref
  entered_lookup table id ref =
      lookup-insert table id id ref ∙ if_true (str_eq id id) _ _ ((eq_iff id id).1 refl)

  pub has_entered :
      (self : CmEnc S I O) (room : ChatRoom) (id : String) (out : ℕ) (found : Option (CmOlm S I O))
      → self.out_group_room_session room.ref ≡ some id
      → lookup self.out_group_sessions id ≡ some out
      → has_room_group_key lib self room found ≡ some (true, self)
  unfolding has_room_group_key lookup_out_group_session session_of is_some
  has_entered self room id out found room_has out_has =
      if_false
        (not (is_some (self.out_group_room_session room.ref))
          && (is_some self.cm_db && not (self.olm_checked room.ref)))
        _ _
        (ap
          (λ (o : Option String).
            not (is_some o) && (is_some self.cm_db && not (self.olm_checked room.ref)))
          room_has)
      ∙ ap (λ (o : Option String). some (is_some (session_of self.out_group_sessions o), self))
          room_has
      ∙ ap (λ (o : Option ℕ). some (is_some o, self)) out_has

  module _ (laws : IsDocumented lib) (self : CmEnc S I O) (room : ChatRoom) (out : ℕ)
      (session first : O) (key : String) (sends : (self.sessions out).out_gp_session ≡ some session)
      (group : (self.sessions out).olm_session ≡ none)
      (keyed : (self.sessions out).session_key ≡ some key) (later : Later lib first session)
      (own : lib.outbound_key first ≡ some key) (fresh : (self.next == out) ≡ false) where
    entered_pair :
        (id : String) (t inbound : CmOlm S I O) (i : I) (saved : List ℕ)
        → t.session_id ≡ some id
        → t.out_gp_session ≡ some session
        → t.olm_session ≡ none
        → lib.init_inbound key ≡ some i
        → Reads lib i inbound
        → (p : IsPaired lib
            (record (enter_pair lib (set_session self out t) room.ref out id inbound) {
              saved = saved;
            })
            room.ref)
          × (p.id ≡ id)
          × (p.session ≡ session)
          × (p.key ≡ key)
    unfolding enter_pair put_at
    entered_pair id t inbound i saved named out_session no_olm made (in_session, in_group) =
        let sessions = put_at (put_at self.sessions out t) self.next inbound in
        let at_out : sessions out ≡ t =
          if_false (out == self.next) _ _ (ground (arith, fresh)) ∙ same_at self.sessions out t in
        let at_in : sessions self.next ≡ inbound =
          same_at (put_at self.sessions out t) self.next inbound in
        (
          record {
            id = id;
            out = out;
            inbound = self.next;
            first = first;
            session = session;
            key = key;
            reader = i;
            room_has = same_at self.out_group_room_session room.ref (some id);
            out_has = entered_lookup self.out_group_sessions id out;
            in_has = entered_lookup self.in_group_sessions id self.next;
            apart = fresh;
            sends = ap (λ (s : CmOlm S I O). s.out_gp_session) at_out ∙ out_session;
            sends_group = ap (λ (s : CmOlm S I O). s.olm_session) at_out ∙ no_olm;
            named = ap (λ (s : CmOlm S I O). s.session_id) at_out ∙ named;
            later = later;
            own = own;
            made = made;
            reads = ap (λ (s : CmOlm S I O). s.in_gp_session) at_in ∙ in_session;
            reads_group = ap (λ (s : CmOlm S I O). s.olm_session) at_in ∙ in_group;
          },
          refl,
          refl,
          refl,
        )

    -- A group session whose key is that of the session it began with is set for a room that has none. It is then the
    -- room's group key, and it is paired with a new inbound session under its id and key.
    pub set_room_group_key-IsPaired :
        (found : Option (CmOlm S I O))
        → (self.sessions out).type ≡ megolm_v1_out
        → self.out_group_room_session room.ref ≡ none
        → (next : CmEnc S I O) × (set_room_group_key lib self room out ≡ some next)
          × (p : IsPaired lib next room.ref) × (some p.id
              ≡ (get_session_id lib (self.sessions out)).0)
          × (p.session ≡ session)
          × (p.key ≡ key)
          × (has_room_group_key lib next room found ≡ some (true, next))
    unfolding set_room_group_key enter enter_made lookup_out_group_session session_of is_same
        is_outbound
    set_room_group_key-IsPaired found outbound none_yet =
        let (id, t, path, named, out_session, no_olm, same_key, same_type) =
          named_by (self.sessions out) session sends group in
        let (i, ok) = laws.key_accepted first key own in
        let (inbound, run, reads) = made_of_key lib t self.curve_key key i (same_key ∙ keyed) ok in
        let pair = enter_pair lib (set_session self out t) room.ref out id inbound in
        let next = record pair { saved = pair.saved ++ (out ∷ self.next ∷ []) } in
        let entered : enter lib self room.ref out ≡ some pair =
          ap
            (λ (r : Option String × CmOlm S I O).
              enter_made lib (set_session self out r.1) room.ref out r.0
                (in_group_new_from_out lib r.1 self.curve_key))
            path
          ∙ ap (enter_made lib (set_session self out t) room.ref out (some id)) run in
        let (p, same_id, same_session, p_key) =
          entered_pair id t inbound i next.saved named out_session no_olm ok reads in
        (
          next,
          if_false (not (is_outbound lib (self.sessions out).type)) _ _
                (ap (λ (c : CmSessionType). not (is_outbound lib c)) outbound)
              ∙ if_false (is_same lib (lookup_out_group_session self room.ref) out) _ _ (
                  ap (λ (o : Option String). is_same lib (session_of self.out_group_sessions o) out)
                    none_yet)
              ∙ ap (λ (r : Option (CmEnc S I O)). save_pair lib r out self.next) entered,
          p,
          ap some same_id ∙ sym (ap (λ (r : Option String × CmOlm S I O). r.0) path),
          same_session,
          p_key,
          has_entered next room p.id p.out found p.room_has p.out_has,
        )
