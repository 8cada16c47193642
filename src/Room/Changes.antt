-- ===== src/Room/Changes.antt =====
-- A room whose members' devices change (room_user_changed of src/cm-room.c).
use mathlib.Core.Path.{subst}
use libcmatrix.Base.{
  ℕ, String, ◌≡◌, refl, sym, ap, ◌∙◌, Bool, true, false, not, ◌||◌, ◌&&◌, Option, none, some, List,
  [], ◌∷◌, ◌==◌, if_both, if_true, if_false, arith,
}
use libcmatrix.Base.Table.{contains, insert, lookup}
use libcmatrix.Room.{
  Message, load_devices, CmRoom, Users, make_call, is_nil, is_encrypted, has_keys, keys_left,
  next_step, send_message_from_queue, send_head, send_message,
}
use libcmatrix.Room.Answers.{user_changed}
use libcmatrix.RoomEvent.{leave}
use libcmatrix.Room.Name.{Naming, generate_name}
use libcmatrix.Room.Members.{
  forget_name, remove_joined, member_left, update_member, is_join, update_user,
}
use libcmatrix.Room.Members.Agreed.{named_kept}
use libcmatrix.Room.Quiet.{IsQuiet, IsSent, takes_step, sends, head_free}

asked_missing :
    (has_key : Bool) (s : CmRoom) (member : ℕ) (members : List ℕ)
    → s.changed_users ≡ member ∷ members
    → has_keys has_key s ≡ false
unfolding has_keys is_nil
asked_missing has_key s member members e =
    ap
      (λ (u : List ℕ).
        not (not has_key || (not (is_nil u) || (not s.keys_claimed || keys_left s.one_time_keys))))
      e
    ∙ either has_key
  where
    either : (b : Bool) → not (not b || true) ≡ false
    either true = refl
    either false = refl

-- a message that is sent leaves the devices that wait
sent_devices :
    (users : Users) (m : Message) (queue : List Message) (s : CmRoom)
    → IsQuiet m queue s
    → has_keys true s ≡ true
    → (send_message_from_queue users true s).changed_devices ≡ s.changed_devices
unfolding send_message_from_queue send_head send_message
sent_devices users m queue s q has =
    ap (λ (ms : List Message). (send_head users true s ms).changed_devices) q.waits
    ∙ ap (λ (t : CmRoom). t.changed_devices)
        (if_false (s.is_sending_message || not (s.retry_timeout_id == 0)) _ _
            (head_free users m queue s q)
          ∙ if_false (is_encrypted s && not (has_keys true s)) _ _ (ground (arith, has)))
    ∙ if_both (λ (t : CmRoom). t.changed_devices ≡ s.changed_devices) m.is_file refl refl

module _ (users : Users) (m : Message) (queue : List Message) (s : CmRoom) (user device : ℕ)
    (q : IsQuiet m queue s) (known : contains s.joined_members_table (users.id user) ≡ true) where
  tracked : (not (is_encrypted s) || not (contains s.joined_members_table (users.id user))) ≡ false
  tracked = ground (arith, q.encrypted, known)

  -- When a member of an encrypted room has lost a device, the group key is removed, and the message that waits
  -- is not sent: the room first asks for the devices of all members, whatever keys it had.
  pub user_changed_removed :
      (has_key : Bool) (added removed members : List ℕ) (member : ℕ)
      → s.joined_members_loaded ≡ true
      → s.joined_members ≡ member ∷ members
      → let (next, key_removed) = user_changed users s user added (device ∷ removed) in
        (key_removed ≡ true)
        × (send_message_from_queue users has_key next
            ≡ make_call (record next { querying_keys = true }) (load_devices (member ∷ members)))
  unfolding user_changed is_nil is_encrypted has_keys next_step
  user_changed_removed has_key added removed members member loaded joined =
      let next = record s {
        keys_claimed = false;
        changed_devices = [];
        changed_users = s.joined_members;
      } in
      let path : user_changed users s user added (device ∷ removed) ≡ (next, true) =
        if_false (not (is_encrypted s) || not (contains s.joined_members_table (users.id user))) _ _
          tracked in
      let quiet : IsQuiet m queue next = record {
        encrypted = q.encrypted;
        waits = q.waits;
        idle = q.idle;
        no_retry = q.no_retry;
        no_call = q.no_call;
        not_loading = q.not_loading;
        not_querying = q.not_querying;
        not_claiming = q.not_claiming;
        not_uploading = q.not_uploading;
      } in
      let asks =
        takes_step users m queue has_key next quiet
          (asked_missing has_key next member members joined)
        ∙ if_false (not s.joined_members_loaded) _ _ (ap not loaded)
        ∙ if_true (not (is_nil s.joined_members)) _ _ (ap (λ (u : List ℕ). not (is_nil u)) joined)
        ∙ ap (λ (u : List ℕ). make_call (record next { querying_keys = true }) (load_devices u))
            joined in
      subst
        (λ (r : CmRoom × Bool).
          (r.1 ≡ true)
          × (send_message_from_queue users has_key r.0
              ≡ make_call (record r.0 { querying_keys = true }) (load_devices (member ∷ members))))
        (sym path) (refl, asks)

  -- Devices that a member has added change nothing of what is sent: where a message could be sent
  -- before, it is sent, though the devices still wait to get the group key.
  pub user_changed_added :
      (added : List ℕ)
      → has_keys true s ≡ true
      → let (next, key_removed) = user_changed users s user (device ∷ added) [] in
        (key_removed ≡ false)
        × (next.changed_devices ≡ insert s.changed_devices (users.id user) (device ∷ added))
        × IsSent m queue (send_message_from_queue users true next)
        × ((send_message_from_queue users true next).changed_devices ≡ next.changed_devices)
  unfolding user_changed is_nil is_encrypted has_keys
  user_changed_added added has =
      let next = record s {
        changed_devices = insert s.changed_devices (users.id user) (device ∷ added);
      } in
      let path : user_changed users s user (device ∷ added) [] ≡ (next, false) =
        if_false (not (is_encrypted s) || not (contains s.joined_members_table (users.id user))) _ _
          tracked in
      let quiet : IsQuiet m queue next = record {
        encrypted = q.encrypted;
        waits = q.waits;
        idle = q.idle;
        no_retry = q.no_retry;
        no_call = q.no_call;
        not_loading = q.not_loading;
        not_querying = q.not_querying;
        not_claiming = q.not_claiming;
        not_uploading = q.not_uploading;
      } in
      subst
        (λ (r : CmRoom × Bool).
          (r.1 ≡ false)
          × (r.0.changed_devices ≡ insert s.changed_devices (users.id user) (device ∷ added))
          × IsSent m queue (send_message_from_queue users true r.0)
          × ((send_message_from_queue users true r.0).changed_devices ≡ r.0.changed_devices))
        (sym path)
        (
          refl,
          refl,
          sends users m queue true next quiet has,
          sent_devices users m queue next quiet has,
        )

module _ (env : Naming) (m : Message) (queue : List Message) (s : CmRoom) where
  -- a message can be sent
  abbrev IsAble : CmRoom → Type 0
  IsAble t = IsQuiet m queue t × (has_keys true t ≡ true)

  IsAble-without :
      (t : CmRoom) (id : String) (o : Option ℕ)
      → IsAble t
      → IsAble (record (forget_name (remove_joined t id o)) { db_save_pending = true })
  unfolding remove_joined is_encrypted has_keys
  IsAble-without t id none (q, has) = (
    record {
      encrypted = q.encrypted;
      waits = q.waits;
      idle = q.idle;
      no_retry = q.no_retry;
      no_call = q.no_call;
      not_loading = q.not_loading;
      not_querying = q.not_querying;
      not_claiming = q.not_claiming;
      not_uploading = q.not_uploading;
    },
    has,
  )
  IsAble-without t id (some ref) (q, has) = (
    record {
      encrypted = q.encrypted;
      waits = q.waits;
      idle = q.idle;
      no_retry = q.no_retry;
      no_call = q.no_call;
      not_loading = q.not_loading;
      not_querying = q.not_querying;
      not_claiming = q.not_claiming;
      not_uploading = q.not_uploading;
    },
    has,
  )

  IsAble-named : IsAble s → IsAble (record s { generated_name = generate_name env s })
  unfolding is_encrypted has_keys
  IsAble-named (q, has) = (
    record {
      encrypted = q.encrypted;
      waits = q.waits;
      idle = q.idle;
      no_retry = q.no_retry;
      no_call = q.no_call;
      not_loading = q.not_loading;
      not_querying = q.not_querying;
      not_claiming = q.not_claiming;
      not_uploading = q.not_uploading;
    },
    has,
  )

  -- The event by which a member leaves an encrypted room changes nothing of what is sent: where a
  -- message could be sent before, it is sent with the group key that the member has.
  pub update_user_left :
      (by_self : Bool) (id : String)
      → IsQuiet m queue s
      → has_keys true s ≡ true
      → IsSent m queue (send_message_from_queue env.users true (update_user env s leave by_self id))
  unfolding update_user update_member is_join member_left
  update_user_left by_self id q has =
      let able =
        named_kept env
          (λ (t : CmRoom).
            IsAble (record (forget_name (remove_joined t id (lookup s.joined_members_table id))) {
              db_save_pending = true;
            }))
          s (IsAble-without s id (lookup s.joined_members_table id) (q, has))
          (IsAble-without (record s { generated_name = generate_name env s }) id
            (lookup s.joined_members_table id) (IsAble-named (q, has))) in
      sends env.users m queue true (member_left env s id) able.0 able.1
