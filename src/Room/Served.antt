-- ===== src/Room/Served.antt =====
-- The answers that a room waits for, one after the other (src/cm-room.c).
use mathlib.Core.Path.{subst}
use libcmatrix.Base.{
  arith, ℕ, zero, suc, ◌≡◌, refl, sym, ap, ◌∙◌, String, Bool, true, false, not, ◌||◌, Option, some,
  List, [], ◌∷◌, ◌++◌, if_true, if_false, Bool-cases, inl, inr,
}
use libcmatrix.Base.Table.{Table}
use libcmatrix.Room.{
  Message, Call, load_members, load_devices, claim_keys, upload_keys, put_file, send_json,
  CmUserKey, CmRoom, Users, make_call, is_nil, is_encrypted, has_keys, keys_left, claim, upload,
  next_step, member_devices, send_message_from_queue,
}
use libcmatrix.Room.Answers.{
  get_joined_members_cb, load_device_keys_cb, claim_keys_cb, upload_keys_cb, emptied,
}
use libcmatrix.Room.Quiet.{IsQuiet, IsSent, takes_step, sends}

-- An answer to the call that waits: the members `names`, no user left without devices, the keys `k ∷ ks`. The
-- upload makes the group key, which there may be before (`has_key`).
module _ (users : Users) (has_key : Bool) (names : List String) (k : CmUserKey)
    (ks : List CmUserKey) where
  abbrev pub serve_call : Call → CmRoom → CmRoom
  serve_call load_members s = get_joined_members_cb users has_key (some names) s
  serve_call (load_devices asked) s = load_device_keys_cb users has_key false [] s
  serve_call (claim_keys asked) s = claim_keys_cb users has_key (some (k ∷ ks)) s
  serve_call (upload_keys keys) s = upload_keys_cb users true false s
  serve_call (put_file encrypt m) s = s
  serve_call (send_json m) s = s

  abbrev pub serve_calls : List Call → CmRoom → CmRoom
  serve_calls [] s = s
  serve_calls (c ∷ cs) s = serve_call c (record s { calls = cs })

  abbrev pub serve : CmRoom → CmRoom
  serve s = serve_calls s.calls s

  abbrev pub serves : ℕ → CmRoom → CmRoom
  serves zero s = s
  serves (suc n) s = serves n (serve s)

module _ (users : Users) (has_key : Bool) (names : List String) (k : CmUserKey)
    (ks : List CmUserKey) (m : Message) (queue : List Message) where
  -- what an encrypted message waits for
  pub missing_claim : (s : CmRoom) → s.keys_claimed ≡ false → has_keys has_key s ≡ false
  unfolding has_keys
  missing_claim s e = ground (arith, e)

  missing_devices : (s : CmRoom) → is_nil s.changed_users ≡ false → has_keys has_key s ≡ false
  unfolding has_keys
  missing_devices s e = ground (arith, e)

  missing_left : (s : CmRoom) → s.one_time_keys ≡ some (k ∷ ks) → has_keys has_key s ≡ false
  unfolding has_keys keys_left
  missing_left s e =
      let left : keys_left s.one_time_keys ≡ true = ap keys_left e in ground (arith, left)

  served :
      (r : CmRoom) (c : Call)
      → r.calls ≡ []
      → serve users has_key names k ks (make_call r c)
        ≡ serve_call users has_key names k ks c (record r { calls = [] })
  served r c e =
      ap (λ (cs : List Call). serve users has_key names k ks (record r { calls = cs ++ (c ∷ []) }))
        e

  pub stepped :
      (s : CmRoom) (r : CmRoom) (c : Call)
      → IsQuiet m queue s
      → has_keys has_key s ≡ false
      → next_step users s ≡ make_call r c
      → r.calls ≡ []
      → serve users has_key names k ks (send_message_from_queue users has_key s)
        ≡ serve_call users has_key names k ks c (record r { calls = [] })
  stepped s r c q missing step e =
      ap (serve users has_key names k ks) (takes_step users m queue has_key s q missing ∙ step)
      ∙ served r c e

  after_upload :
      (s : CmRoom)
      → IsQuiet m queue s
      → s.joined_members_loaded ≡ true
      → s.changed_users ≡ []
      → s.keys_claimed ≡ true
      → s.changed_devices ≡ []
      → s.one_time_keys ≡ some (k ∷ ks)
      → IsSent m queue (serve users has_key names k ks (send_message_from_queue users has_key s))
  unfolding next_step upload is_nil has_keys keys_left upload_keys_cb emptied is_encrypted
  after_upload s q loaded asked has_claimed devices keys =
      let step =
        if_false (not s.joined_members_loaded) _ _ (ap not loaded)
        ∙ if_false (not (is_nil s.changed_users)) _ _ (ap (λ (u : List ℕ). not (is_nil u)) asked)
        ∙ if_false (not s.keys_claimed || not (is_nil s.changed_devices)) _ _ (
            ap (λ (b : Bool). not b || not (is_nil s.changed_devices)) has_claimed
            ∙ ap (λ (t : Table (List ℕ)). not (is_nil t)) devices)
        ∙ ap (upload s) keys in
      let last = record s {
        uploading_keys = false;
        one_time_keys = emptied s.one_time_keys;
        calls = [];
      } in
      subst (IsSent m queue)
        (sym (
          stepped s (record s { uploading_keys = true }) (upload_keys (k ∷ ks)) q
            (missing_left s keys) step q.no_call))
        (sends users m queue true last
          (record {
            encrypted = q.encrypted;
            waits = q.waits;
            idle = q.idle;
            no_retry = q.no_retry;
            no_call = refl;
            not_loading = q.not_loading;
            not_querying = q.not_querying;
            not_claiming = q.not_claiming;
            not_uploading = refl;
          })
          (ap
              (λ (u : List ℕ).
                not (not (is_nil u) || (not s.keys_claimed || keys_left (emptied s.one_time_keys))))
              asked
            ∙ ap (λ (b : Bool). not (not b || keys_left (emptied s.one_time_keys))) has_claimed
            ∙ ap (λ (o : Option (List CmUserKey)). not (keys_left (emptied o))) keys))

  nil_eq : (t : Table (List ℕ)) → is_nil t ≡ true → t ≡ []
  unfolding is_nil
  nil_eq [] e = refl
  nil_eq (x ∷ t) e = cc

  -- once the keys are claimed, two answers are enough
  claimed_once :
      (s r : CmRoom) (devices : Table (List ℕ))
      → IsQuiet m queue s
      → has_keys has_key s ≡ false
      → next_step users s ≡ make_call r (claim_keys devices)
      → r.calls ≡ []
      → IsQuiet m queue (record r {
        one_time_keys = some (k ∷ ks);
        claiming_keys = false;
        keys_claimed = true;
        calls = [];
      })
      → r.joined_members_loaded ≡ true
      → r.changed_users ≡ []
      → r.changed_devices ≡ []
      → IsSent m queue (serves users has_key names k ks 2 (send_message_from_queue users has_key s))
  unfolding claim_keys_cb
  claimed_once s r devices q missing step e quiet loaded asked none_changed =
      subst (λ (t : CmRoom). IsSent m queue (serve users has_key names k ks t))
        (sym (stepped s r (claim_keys devices) q missing step e))
        (after_upload
          (record r {
            one_time_keys = some (k ∷ ks);
            claiming_keys = false;
            keys_claimed = true;
            calls = [];
          })
          quiet loaded asked refl none_changed refl)

  pub after_claim :
      (s : CmRoom)
      → IsQuiet m queue s
      → s.joined_members_loaded ≡ true
      → s.changed_users ≡ []
      → s.keys_claimed ≡ false
      → IsSent m queue (serves users has_key names k ks 2 (send_message_from_queue users has_key s))
  unfolding next_step is_nil claim is_encrypted
  after_claim s q loaded asked unclaimed =
      let step =
        if_false (not s.joined_members_loaded) _ _ (ap not loaded)
        ∙ if_false (not (is_nil s.changed_users)) _ _ (ap (λ (u : List ℕ). not (is_nil u)) asked)
        ∙ if_true (not s.keys_claimed || not (is_nil s.changed_devices)) _ _
            (ap (λ (b : Bool). not b || not (is_nil s.changed_devices)) unclaimed) in
      elim (Bool-cases (is_nil s.changed_devices)) [
        | inl e ↦
            claimed_once s (record s { claiming_keys = true })
              (member_devices users s.joined_members []) q (missing_claim s unclaimed)
              (step ∙ if_false (not (is_nil s.changed_devices)) _ _ (ap not e)) q.no_call
              (record {
                encrypted = q.encrypted;
                waits = q.waits;
                idle = q.idle;
                no_retry = q.no_retry;
                no_call = refl;
                not_loading = q.not_loading;
                not_querying = q.not_querying;
                not_claiming = refl;
                not_uploading = q.not_uploading;
              })
              loaded asked (nil_eq s.changed_devices e)
        | inr e ↦
            claimed_once s (record s { claiming_keys = true; changed_devices = [] })
              s.changed_devices q (missing_claim s unclaimed)
              (step ∙ if_true (not (is_nil s.changed_devices)) _ _ (ap not e)) q.no_call
              (record {
                encrypted = q.encrypted;
                waits = q.waits;
                idle = q.idle;
                no_retry = q.no_retry;
                no_call = refl;
                not_loading = q.not_loading;
                not_querying = q.not_querying;
                not_claiming = refl;
                not_uploading = q.not_uploading;
              })
              loaded asked refl
      ]

  pub after_devices :
      (s : CmRoom)
      → IsQuiet m queue s
      → s.joined_members_loaded ≡ true
      → is_nil s.changed_users ≡ false
      → IsSent m queue (serves users has_key names k ks 3 (send_message_from_queue users has_key s))
  unfolding next_step load_device_keys_cb is_encrypted
  after_devices s q loaded asked =
      let step =
        if_false (not s.joined_members_loaded) _ _ (ap not loaded)
        ∙ if_true (not (is_nil s.changed_users)) _ _ (ap not asked) in
      subst (λ (t : CmRoom). IsSent m queue (serves users has_key names k ks 2 t))
        (sym (
          stepped s (record s { querying_keys = true; keys_claimed = false })
            (load_devices s.changed_users) q (missing_devices s asked) step q.no_call))
        (after_claim
          (record s { changed_users = []; querying_keys = false; keys_claimed = false; calls = [] })
          (record {
            encrypted = q.encrypted;
            waits = q.waits;
            idle = q.idle;
            no_retry = q.no_retry;
            no_call = refl;
            not_loading = q.not_loading;
            not_querying = refl;
            not_claiming = q.not_claiming;
            not_uploading = q.not_uploading;
          })
          loaded refl refl)
