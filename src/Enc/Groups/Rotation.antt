-- ===== src/Enc/Groups/Rotation.antt =====
-- The group key of a room goes and is due to be rotated (src/cm-enc.c).
use mathlib.Core.Path.{subst}
use libcmatrix.Base.{
  refl, ℕ, suc, ◌+◌, ◌*◌, String, ◌≡◌, sym, ap, ◌∙◌, true, false, not, ◌||◌, ◌&&◌, Option, none,
  some, ◌==◌, if_true, if_false, arith, leb,
}
use libcmatrix.Base.Int.{ℤ, pos}
use libcmatrix.Base.Table.{lookup}
use libcmatrix.Base.Text.{is_empty}
use libcmatrix.Event.{is_some}
use libcmatrix.Json.{JsonObject}
use libcmatrix.Olm.{
  Libolm, CmOlm, CmOlmState, update_validity, is_outdated, set_state, same_state, state_value,
  get_message_index, message_index_of,
}
use libcmatrix.Enc.Groups.{
  ChatEnv, ChatRoom, CmEnc, put_at, session_of, lookup_out_group_session, has_room_group_key,
  rm_session, rm_room_group_key, encrypt_for_chat,
}
use libcmatrix.Enc.Groups.Paired.{
  IsPaired, encrypted, valid, after, encrypt_for_chat_path, paired_after,
}
use libcmatrix.Enc.Groups.Entered.{same_at, has_entered}

module _ {S I O : Type 0} (lib : Libolm S I O) where
  rotated_after :
      (s : CmOlm S I O) (count d now : ℕ)
      → s.state ≡ CmOlmState.usable
      → (count == 0) ≡ false
      → is_outdated lib s count (suc d) now ≡ true
      → (update_validity lib s count (pos (suc d)) now).state ≡ CmOlmState.rotated
  unfolding update_validity set_state same_state state_value
  rotated_after s count d now usable some_count reached =
      ap (λ (t : CmOlm S I O). t.state)
        (if_false (count == 0) _ _ some_count
          ∙ if_true (is_outdated lib s count (suc d) now) _ _ reached
          ∙ if_false (state_value CmOlmState.rotated == state_value s.state) _ _
              (ap (λ (c : CmOlmState). state_value CmOlmState.rotated == state_value c) usable)
          ∙ if_true (state_value s.state == 0) _ _
              (ap (λ (c : CmOlmState). state_value c == 0) usable))

-- When the messages of a room's group session have reached the count, or it is as old as the duration in
-- milliseconds, encrypting marks the session as rotated. The room has its group key all the same, and it
-- is the session that the next message is encrypted with.
pub encrypt_for_chat-rotated :
    {S I O : Type 0} (lib : Libolm S I O) (env : ChatEnv) (self : CmEnc S I O) (room : ChatRoom)
    (p : IsPaired lib self room.ref) (message : String) (found : Option (CmOlm S I O)) (d : ℕ)
    → is_empty (some message) ≡ false
    → (self.sessions p.out).state ≡ CmOlmState.usable
    → room.rotation_time ≡ pos (suc d)
    → (room.msg_count == 0) ≡ false
    → (leb room.msg_count (lib.message_index (lib.group_encrypt p.session message).1)
        || leb ((self.sessions p.out).created_time + suc d) (env.now * 1000))
      ≡ true
    → let next = (encrypt_for_chat lib env self room (some message)).1 in
      ((next.sessions p.out).state ≡ CmOlmState.rotated)
      × (has_room_group_key lib next room found ≡ some (true, next))
      × (lookup_out_group_session next room.ref ≡ some p.out)
unfolding lookup_out_group_session session_of is_outdated get_message_index message_index_of
encrypt_for_chat-rotated {S = S} {I = I} {O = O} lib env self room p message found d some_text
      usable rotation some_count reached =
    let q = paired_after lib env self room p message some_text in
    let path = encrypt_for_chat_path lib env self room p message some_text in
    let last = after lib env self room p message some_text in
    let s = encrypted lib env self room p message some_text in
    let rotated : (last.sessions p.out).state ≡ CmOlmState.rotated =
      ap (λ (t : CmOlm S I O). t.state)
        (same_at lib self.sessions p.out (valid lib env self room p message some_text))
      ∙ ap (λ (z : ℤ). (update_validity lib s room.msg_count z env.now).state) rotation
      ∙ rotated_after lib s room.msg_count d env.now usable some_count reached in
    subst
      (λ (r : Option JsonObject × CmEnc S I O).
        ((r.1.sessions p.out).state ≡ CmOlmState.rotated)
        × (has_room_group_key lib r.1 room found ≡ some (true, r.1))
        × (lookup_out_group_session r.1 room.ref ≡ some p.out))
      (sym path)
      (
        rotated,
        has_entered lib last room p.id p.out found p.room_has p.out_has,
        ap (session_of self.out_group_sessions) p.room_has ∙ p.out_has,
      )

-- the state of a session whose group key is removed
abbrev pub removed_state : CmOlmState → CmOlmState
removed_state CmOlmState.usable = CmOlmState.invalidated
removed_state CmOlmState.rotated = CmOlmState.rotated
removed_state CmOlmState.invalidated = CmOlmState.invalidated
removed_state CmOlmState.not_set = CmOlmState.not_set

set_invalidated :
    {S I O : Type 0} (s : CmOlm S I O)
    → (set_state s CmOlmState.invalidated).state ≡ removed_state s.state
unfolding set_state same_state state_value
set_invalidated {S} {I} {O} s = at_state s.state refl
  where
    at_state :
        (state : CmOlmState)
        → s.state ≡ state
        → (set_state s CmOlmState.invalidated).state ≡ removed_state s.state
    at_state CmOlmState.usable e = ground (arith, e)
    at_state CmOlmState.rotated e = ground (arith, e)
    at_state CmOlmState.invalidated e = ground (arith, e)
    at_state CmOlmState.not_set e = ground (arith, e)

-- When the group key of a room is removed, a room whose database was looked at has no group key, whatever the
-- state of the session was. The session is invalidated if it was usable, and otherwise, also where it is
-- rotated, its state stays. Its pair is as it was, under the id.
pub rm_room_group_key-gone :
    {S I O : Type 0} (lib : Libolm S I O) (self : CmEnc S I O) (room : ChatRoom)
    (p : IsPaired lib self room.ref) (found : Option (CmOlm S I O))
    → self.olm_checked room.ref ≡ true
    → let next = rm_room_group_key lib self room in
      (has_room_group_key lib next room found ≡ some (false, next))
      × ((next.sessions p.out).state ≡ removed_state (self.sessions p.out).state)
      × (lookup next.in_group_sessions p.id ≡ some p.inbound)
      × (next.sessions p.inbound ≡ self.sessions p.inbound)
unfolding rm_room_group_key rm_session lookup_out_group_session session_of has_room_group_key put_at
    set_state same_state state_value is_some
rm_room_group_key-gone {S = S} {I = I} {O = O} lib self room p found checked =
    let removed = rm_session lib self (some p.id) (some p.out) in
    let last = record removed {
      out_group_room_session = put_at removed.out_group_room_session room.ref none;
    } in
    let path : rm_room_group_key lib self room ≡ last =
      ap
        (λ (id : Option String).
          let r = rm_session lib self id (session_of self.out_group_sessions id) in
          record r { out_group_room_session = put_at r.out_group_room_session room.ref none })
        p.room_has
      ∙ ap
          (λ (o : Option ℕ).
            let r = rm_session lib self (some p.id) o in
            record r { out_group_room_session = put_at r.out_group_room_session room.ref none })
          p.out_has in
    let none_now = same_at lib self.out_group_room_session room.ref none in
    subst
      (λ (t : CmEnc S I O).
        (has_room_group_key lib t room found ≡ some (false, t))
        × ((t.sessions p.out).state ≡ removed_state (self.sessions p.out).state)
        × (lookup t.in_group_sessions p.id ≡ some p.inbound)
        × (t.sessions p.inbound ≡ self.sessions p.inbound))
      (sym path)
      (
        if_false
              (not (is_some (last.out_group_room_session room.ref))
                && (is_some last.cm_db && not (last.olm_checked room.ref)))
              _ _ (ground (arith, checked))
            ∙ ap
                (λ (o : Option String). some (is_some (session_of last.out_group_sessions o), last))
                none_now,
        ap (λ (s : CmOlm S I O). s.state)
              (same_at lib self.sessions p.out
                (set_state (self.sessions p.out) CmOlmState.invalidated))
            ∙ set_invalidated (self.sessions p.out),
        p.in_has,
        if_false (p.inbound == p.out) _ _ p.apart,
      )
