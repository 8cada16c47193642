-- ===== src/Room/Progress.antt =====
-- How the first message of an encrypted room comes to be sent (src/cm-room.c).
use mathlib.Core.Path.{subst}
use libcmatrix.Base.{
  ℕ, suc, ◌≤◌, ◌≡◌, refl, sym, ap, ◌∙◌, String, Bool, true, false, not, ◌||◌, List, [], ◌∷◌,
  if_both, if_true, if_false, Bool-cases, inl, inr, arith,
}
use libcmatrix.Event.{is_some}
use libcmatrix.Base.Table.{lookup}
use libcmatrix.Room.{
  Message, load_members, CmUserKey, CmRoom, Users, make_call, is_nil, is_encrypted,
  load_joined_members_async, next_step, send_message_from_queue,
}
use libcmatrix.Room.Answers.{is_member, find_user, add_member, add_members, get_joined_members_cb}
use libcmatrix.Room.Quiet.{IsQuiet, IsSent}
use libcmatrix.Room.Served.{serves, missing_claim, stepped, after_claim, after_devices}

module _ (users : Users) (has_key : Bool) (names : List String) (k : CmUserKey)
    (ks : List CmUserKey) (m : Message) (queue : List Message) where
  -- within some answers
  abbrev SentWithin : ℕ → CmRoom → Type 0
  SentWithin limit s = (n : ℕ) × (n ≤ limit) × IsSent m queue (serves users has_key names k ks n s)

  after_members :
      (s : CmRoom)
      → IsQuiet m queue s
      → s.joined_members_loaded ≡ true
      → s.keys_claimed ≡ false
      → SentWithin 3 (send_message_from_queue users has_key s)
  unfolding is_nil
  after_members s q loaded unclaimed = elim (Bool-cases (is_nil s.changed_users)) [
    | inl e ↦ (
      2,
      omega arith,
      after_claim users has_key names k ks m queue s q loaded (users_nil s.changed_users e)
          unclaimed,
    )
    | inr e ↦ (3, omega arith, after_devices users has_key names k ks m queue s q loaded e)
  ]
    where
      users_nil : (us : List ℕ) → is_nil us ≡ true → us ≡ []
      users_nil [] e = refl
      users_nil (u ∷ us) e = cc

  -- after the members were loaded
  abbrev settled : CmRoom → CmRoom
  settled s = record s { joined_members_loaded = true; joined_members_loading = false }

  abbrev IsSettled : CmRoom → Type 0
  IsSettled s = IsQuiet m queue (settled s) × (s.keys_claimed ≡ false)

  add_members-IsSettled :
      (ids : List String) (s : CmRoom) → IsSettled s → IsSettled (add_members users s ids)
  unfolding add_members add_member find_user is_encrypted
  add_members-IsSettled [] s h = h
  add_members-IsSettled (id ∷ ids) s (q, e) = add_members-IsSettled ids (add_member users s id) (
      if_both IsSettled (is_some (lookup s.joined_members_table id)) (q, e)
        (if_both IsSettled (is_member s.joined_members (users.find id)) (q, e)
          (
            record {
              encrypted = q.encrypted;
              waits = q.waits;
              idle = q.idle;
              no_retry = q.no_retry;
              no_call = q.no_call;
              not_loading = refl;
              not_querying = q.not_querying;
              not_claiming = q.not_claiming;
              not_uploading = q.not_uploading;
            },
            e,
          )))

  -- An encrypted room has a message that waits, no call that does, and no keys were claimed; it may have a group
  -- key or not. Each call is then answered as follows: the members are given, the answer with the devices leaves
  -- no user in the array, the claim gives a key at least, and after the upload there is a group key. Then the
  -- message is being sent after four answers at most.
  pub serves-IsSent :
      (s : CmRoom)
      → IsQuiet m queue s
      → s.keys_claimed ≡ false
      → SentWithin 4 (send_message_from_queue users has_key s)
  unfolding next_step load_joined_members_async get_joined_members_cb is_encrypted
  serves-IsSent s q unclaimed = elim (Bool-cases s.joined_members_loaded) [
    | inl loaded ↦
        let (n, bound, sent) = after_members s q loaded unclaimed in (n, omega arith, sent)
    | inr unloaded ↦
        let step : next_step users s
            ≡ make_call (record s { joined_members_loading = true }) load_members =
          if_true (not s.joined_members_loaded) _ _ (ap not unloaded)
          ∙ if_false (s.joined_members_loaded || s.joined_members_loading) _ _
              (ap (λ (b : Bool). b || s.joined_members_loading) unloaded ∙ q.not_loading) in
        let asked = record s { joined_members_loading = true; calls = [] } in
        let quiet : IsQuiet m queue (settled asked) = record {
          encrypted = q.encrypted;
          waits = q.waits;
          idle = q.idle;
          no_retry = q.no_retry;
          no_call = refl;
          not_loading = refl;
          not_querying = q.not_querying;
          not_claiming = q.not_claiming;
          not_uploading = q.not_uploading;
        } in
        let (kept, still) = add_members-IsSettled names asked (quiet, unclaimed) in
        let (n, bound, sent) =
          after_members (settled (add_members users asked names)) kept refl still in
        (
          suc n,
          omega arith,
          subst (λ (t : CmRoom). IsSent m queue (serves users has_key names k ks n t))
              (sym (
                stepped users has_key names k ks m queue s
                  (record s { joined_members_loading = true }) load_members q
                  (missing_claim users has_key names k ks m queue s unclaimed) step q.no_call))
              sent,
        )
  ]
