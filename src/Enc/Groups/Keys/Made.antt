-- ===== src/Enc/Groups/Keys/Made.antt =====
-- The group session that is made for a room with its keys (cm_enc_create_out_group_keys and
-- cm_enc_set_room_group_key of src/cm-enc.c, cm_olm_out_group_new of src/cm-olm.c).
use mathlib.Core.Path.{subst}
use mathlib.Core.Option.{none-ne-some, some-injective}
use libcmatrix.Base.{
  ℕ, suc, String, ◌≡◌, refl, sym, ap, ◌∙◌, true, Option, none, some, List, ◌∷◌, if_both, arith,
}
use libcmatrix.Json.{JsonObject, end}
use libcmatrix.Olm.{
  Libolm, Later, IsDocumented, CmOlm, megolm_v1_out, set_sender_details, set_account_details,
  set_key, set_db, out_group_new, out_group_from, out_group_made, get_message_index,
  message_index_of,
}
use libcmatrix.Olm.Shared.{get_session_key, key_of}
use libcmatrix.Room.{CmUserKey}
use libcmatrix.Enc.Groups.{
  ChatRoom, CmEnc, set_session, session_of, lookup_out_group_session, get_session_id,
  has_room_group_key, set_room_group_key,
}
use libcmatrix.Enc.Groups.Paired.{IsPaired, id_known}
use libcmatrix.Enc.Groups.Entered.{named_by, same_at, set_room_group_key-IsPaired}
use libcmatrix.Enc.Groups.Keys.{key_content}
use libcmatrix.Enc.Groups.Keys.Create.{
  KeyEnv, keys_json, add_session, find_or_add_session, keys_of_session, create_out_group_keys,
}

module _ {S I O : Type 0} (lib : Libolm S I O) (laws : IsDocumented lib) where
  -- the object of a new outbound group session
  abbrev IsFresh : O → String → CmOlm S I O → Type 0
  IsFresh o key s =
      (s.out_gp_session ≡ some o)
      × (s.olm_session ≡ none)
      × (s.session_key ≡ some key)
      × (s.type ≡ megolm_v1_out)

  -- its session has sent nothing, and has the key
  abbrev HasMade : CmOlm S I O → Type 0
  HasMade s =
      (o : O) × (key : String) × IsFresh o key s
      × (lib.outbound_key o ≡ some key)
      × (lib.message_index o ≡ 0)

  out_group_new-HasMade :
      (random : String) (now : ℕ) (curve_key : Option String) (s : CmOlm S I O)
      → out_group_new lib random now curve_key ≡ some s
      → HasMade s
  unfolding out_group_new out_group_from out_group_made
  out_group_new-HasMade random now curve_key s h = of_session (lib.init_outbound random) refl h
    where
      of_key :
          (o : O) (key : Option String)
          → lib.outbound_key o ≡ key
          → lib.message_index o ≡ 0
          → out_group_made lib now curve_key o key ≡ some s
          → HasMade s
      of_key o none own index h = absurd (none-ne-some s h)
      of_key o (some key) own index h =
          subst HasMade (some-injective _ s h) (o, key, (refl, refl, refl, refl), own, index)

      of_session :
          (session : Option O)
          → lib.init_outbound random ≡ session
          → out_group_from lib now curve_key session ≡ some s
          → HasMade s
      of_session none e h = absurd (none-ne-some s h)
      of_session (some o) e h = of_key o (lib.outbound_key o) refl (laws.index-new random o e) h

  module _ (self : CmEnc S I O) (room : ChatRoom) (made : CmOlm S I O) where
    abbrev detailed : CmOlm S I O
    detailed =
        let session = set_account_details made self.user_id self.device_id in
        let session = set_sender_details session room.room_id self.user_id in
        set_db (set_key session self.pickle_key) self.cm_db

    detailed-IsFresh : (o : O) (key : String) → IsFresh o key made → IsFresh o key detailed
    unfolding set_account_details set_sender_details set_key set_db
    detailed-IsFresh o key h =
        let mine = set_account_details made self.user_id self.device_id in
        let from = set_sender_details mine room.room_id self.user_id in
        let keyed = set_key from self.pickle_key in
        let mine_fresh : IsFresh o key mine = if_both (IsFresh o key) _ h h in
        let from_fresh : IsFresh o key from = if_both (IsFresh o key) _ mine_fresh mine_fresh in
        let keyed_fresh : IsFresh o key keyed = if_both (IsFresh o key) _ from_fresh from_fresh in
        if_both (IsFresh o key) _ keyed_fresh keyed_fresh

    abbrev added : CmEnc S I O
    added = record (set_session self self.next detailed) { next = suc self.next }

    -- what is made of a session with an id
    keys_made :
        (env : KeyEnv S) (keys : List CmUserKey) (id key : String) (t : CmOlm S I O) (o : O)
        → get_session_id lib detailed ≡ (some id, t)
        → t.out_gp_session ≡ some o
        → lib.outbound_key o ≡ some key
        → lib.message_index o ≡ 0
        → let next = set_session added self.next t in
          keys_of_session lib env room keys (some (self.next, added))
          ≡ some (
            (keys_json lib env next (key_content room (some id) (some key) 0) keys end, self.next),
            next,
          )
    unfolding keys_of_session get_session_key key_of get_message_index message_index_of
    keys_made env keys id key t o path out own index =
        let next = set_session added self.next t in
        ap
          (λ (r : Option String × CmOlm S I O).
            let after = set_session added self.next r.1 in
            some (
              (
                keys_json lib env after
                    (key_content room r.0 (get_session_key lib r.1) (get_message_index lib r.1))
                    keys end,
                self.next,
              ),
              after,
            ))
          (ap (get_session_id lib) (same_at lib self.sessions self.next detailed) ∙ path)
        ∙ ap
            (λ (r : Option O). some (
              (
                keys_json lib env next
                    (key_content room (some id) (key_of lib r) (message_index_of lib r)) keys end,
                self.next,
              ),
              next,
            ))
            out
        ∙ ap
            (λ (text : Option String). some (
              (
                keys_json lib env next (key_content room (some id) text (lib.message_index o)) keys
                    end,
                self.next,
              ),
              next,
            ))
            own
        ∙ ap
            (λ (n : ℕ). some (
              (
                keys_json lib env next (key_content room (some id) (some key) n) keys end,
                self.next,
              ),
              next,
            ))
            index

-- A room has no group session, and libolm makes one. Then the objects for the devices hold the id and the key of a
-- session that has sent nothing; once it is set, it is the room's group key, paired with an inbound
-- session, and the key in the objects is its own.
pub create_out_group_keys-IsPaired :
    {S I O : Type 0} (lib : Libolm S I O) (laws : IsDocumented lib) (env : KeyEnv S)
    (self : CmEnc S I O) (room : ChatRoom) (k : CmUserKey) (ks : List CmUserKey)
    (made : CmOlm S I O) (found : Option (CmOlm S I O))
    → out_group_new lib env.random env.now self.curve_key ≡ some made
    → self.out_group_room_session room.ref ≡ none
    → (root : JsonObject) × (next : CmEnc S I O) × (last : CmEnc S I O) × (create_out_group_keys lib
          env self room
          (k ∷ ks)
        ≡ some ((root, self.next), next))
      × (set_room_group_key lib next room self.next ≡ some last)
      × (p : IsPaired lib last room.ref) × (has_room_group_key lib last room found
          ≡ some (true, last))
      × (root ≡ keys_json lib env next (key_content room (some p.id) (some p.key) 0) (k ∷ ks) end)
      × (lib.outbound_key p.session ≡ some p.key)
unfolding create_out_group_keys find_or_add_session add_session lookup_out_group_session session_of
create_out_group_keys-IsPaired {S = S} {I = I} {O = O} lib laws env self room k ks made found new
      none_yet =
    let (o, key, fresh, own, index) =
      out_group_new-HasMade lib laws env.random env.now self.curve_key made new in
    let (sends, group, keyed, kind) = detailed-IsFresh lib laws self room made o key fresh in
    let (id, t, path, named, t_sends, t_group, same_key, same_type) =
      named_by lib (detailed lib laws self room made) o sends group in
    let next = set_session (added lib laws self room made) self.next t in
    let at : next.sessions self.next ≡ t =
      same_at lib (added lib laws self room made).sessions self.next t in
    let (last, run, p, same_id, same_session, p_key, has) =
      set_room_group_key-IsPaired lib laws next room self.next o o key
        (ap (λ (s : CmOlm S I O). s.out_gp_session) at ∙ t_sends)
        (ap (λ (s : CmOlm S I O). s.olm_session) at ∙ t_group)
        (ap (λ (s : CmOlm S I O). s.session_key) at ∙ same_key ∙ keyed) Later.same own
        (ground arith) found (ap (λ (s : CmOlm S I O). s.type) at ∙ same_type ∙ kind) none_yet in
    let p_id : some p.id ≡ some id =
      same_id
      ∙ ap (λ (s : CmOlm S I O). (get_session_id lib s).0) at
      ∙ ap (λ (r : Option String × CmOlm S I O). r.0) (id_known lib t id named) in
    (
      keys_json lib env next (key_content room (some id) (some key) 0) (k ∷ ks) end,
      next,
      last,
      ap
            (λ (o : Option String).
              keys_of_session lib env room (k ∷ ks)
                (find_or_add_session lib env self room (session_of self.out_group_sessions o)))
            none_yet
          ∙ ap
              (λ (m : Option (CmOlm S I O)).
                keys_of_session lib env room (k ∷ ks) (add_session lib env self room m))
              new
          ∙ keys_made lib laws self room made env (k ∷ ks) id key t o path t_sends own index,
      run,
      p,
      has,
      ap
            (λ (i : Option String).
              keys_json lib env next (key_content room i (some key) 0) (k ∷ ks) end)
            (sym p_id)
          ∙ ap
              (λ (text : String).
                keys_json lib env next (key_content room (some p.id) (some text) 0) (k ∷ ks) end)
              (sym p_key),
      ap lib.outbound_key same_session ∙ own ∙ ap some (sym p_key),
    )
