-- ===== src/Room/Ordered.antt =====
-- The flags of a room and the order of its messages, in every course (src/cm-room.c).
use mathlib.Core.Path.{subst}
use mathlib.Core.List.{append_assoc}
use libcmatrix.Base.{
  ℕ, ◌≡◌, refl, sym, ap, ◌∙◌, String, Bool, true, false, Option, none, some, List, [], ◌∷◌, ◌++◌,
  if◌then◌else◌, if_both,
}
use libcmatrix.EventList.Store.{Item}
use libcmatrix.EventList.Merge.{append_event}
use libcmatrix.Event.{sending_failed, sent}
use libcmatrix.Base.Table.{Table}
use libcmatrix.Room.{
  Message, Call, load_members, load_devices, claim_keys, upload_keys, put_file, send_json,
  CmUserKey, CmRoom, Users, load_joined_members_async,
}
use libcmatrix.Room.Answers.{
  find_user, add_members, get_joined_members_cb, load_device_keys_cb, claim_keys_cb, upload_keys_cb,
  send_cb, send_file_cb, send_async, emptied,
}
use libcmatrix.Room.Counted.{IsCounted, load_joined_members_async-IsCounted}
use libcmatrix.Room.Order.{
  flight, ids_of, messages, ids_of-append, Keeps-messages, load_joined_members_async-Keeps,
}
use libcmatrix.Room.Course.{
  SameSending, rest, Answer, listed, devices, claimed, uploaded, put, answered, Reaches, start,
  queued, answer, load, other, SameSending-IsCounted, SameSending-messages, find_user-SameSending,
  add_members-SameSending,
}
use libcmatrix.Room.Reached.{
  Holds, run_queue, messages-rest, listed_left, devices_left, claimed_left, uploaded_left,
  sent_left, put_left, sent_messages, put_messages,
}

module _ (users : Users) (has_key : Bool) (ids : List ℕ) (s : CmRoom) (before after : List Call)
    (h : Holds ids s) where
  listed-Holds :
      (names : Option (List String))
      → s.calls ≡ before ++ (load_members ∷ after)
      → Holds ids (get_joined_members_cb users has_key names (rest s before after))
  unfolding get_joined_members_cb
  listed-Holds none e = (
    listed_left s before after load_members h.0 e refl,
    messages-rest s before after load_members h.0 e (λ cs. refl) ∙ h.1,
  )
  listed-Holds (some names) e =
      let old = record (rest s before after) { joined_members_loading = false } in
      let kept = add_members-SameSending users (rest s before after) names in
      let next = record (add_members users (rest s before after) names) {
        joined_members_loaded = true;
        joined_members_loading = false;
      } in
      let same : SameSending old next = record {
        calls = kept.calls;
        queue = kept.queue;
        returned = kept.returned;
        loading = refl;
        querying = kept.querying;
        claiming = kept.claiming;
        uploading = kept.uploading;
        sending = kept.sending;
      } in
      run_queue users has_key ids next (
        SameSending-IsCounted old next same (listed_left s before after load_members h.0 e refl),
        SameSending-messages old next same
            ∙ messages-rest s before after load_members h.0 e (λ cs. refl)
            ∙ h.1,
      )

  devices-Holds :
      (error : Bool) (asked left : List ℕ)
      → s.calls ≡ before ++ (load_devices asked ∷ after)
      → Holds ids (load_device_keys_cb users has_key error left (rest s before after))
  unfolding load_device_keys_cb
  devices-Holds error asked left e =
      let next = record (rest s before after) { changed_users = left; querying_keys = false } in
      let holds : Holds ids next = (
        devices_left s before after (load_devices asked) h.0 e left refl,
        messages-rest s before after (load_devices asked) h.0 e (λ cs. refl) ∙ h.1,
      ) in
      if_both (Holds ids) error holds (run_queue users has_key ids next holds)

  claimed-Holds :
      (asked : Table (List ℕ)) (keys : Option (List CmUserKey))
      → s.calls ≡ before ++ (claim_keys asked ∷ after)
      → Holds ids (claim_keys_cb users has_key keys (rest s before after))
  unfolding claim_keys_cb
  claimed-Holds asked none e = (
    claimed_left s before after (claim_keys asked) h.0 e none s.keys_claimed refl,
    messages-rest s before after (claim_keys asked) h.0 e (λ cs. refl) ∙ h.1,
  )
  claimed-Holds asked (some keys) e =
      run_queue users has_key ids
        (record (rest s before after) {
          one_time_keys = some keys;
          claiming_keys = false;
          keys_claimed = true;
        })
        (
          claimed_left s before after (claim_keys asked) h.0 e (some keys) true refl,
          messages-rest s before after (claim_keys asked) h.0 e (λ cs. refl) ∙ h.1,
        )

  uploaded-Holds :
      (error : Bool) (keys : List CmUserKey)
      → s.calls ≡ before ++ (upload_keys keys ∷ after)
      → Holds ids (upload_keys_cb users has_key error (rest s before after))
  unfolding upload_keys_cb
  uploaded-Holds true keys e = (
    uploaded_left s before after (upload_keys keys) h.0 e s.one_time_keys refl,
    messages-rest s before after (upload_keys keys) h.0 e (λ cs. refl) ∙ h.1,
  )
  uploaded-Holds false keys e =
      run_queue users has_key ids
        (record (rest s before after) {
          uploading_keys = false;
          one_time_keys = emptied s.one_time_keys;
        })
        (
          uploaded_left s before after (upload_keys keys) h.0 e (emptied s.one_time_keys) refl,
          messages-rest s before after (upload_keys keys) h.0 e (λ cs. refl) ∙ h.1,
        )

  put-Holds :
      (encrypt got_uri : Bool) (m : Message)
      → s.calls ≡ before ++ (put_file encrypt m ∷ after)
      → Holds ids (send_file_cb users has_key got_uri m (rest s before after))
  unfolding send_file_cb
  put-Holds encrypt true m e = (
    put_left s before after (put_file encrypt m) h.0 e m refl,
    put_messages s before after (put_file encrypt m) h.0 e m.txn_id refl (λ cs. refl) m refl ∙ h.1,
  )
  put-Holds encrypt false m e =
      run_queue users has_key ids
        (record (rest s before after) {
          is_sending_message = false;
          returned = s.returned ++ (m ∷ []);
        })
        (
          sent_left s before after (put_file encrypt m) h.0 e (s.returned ++ (m ∷ [])) refl,
          sent_messages s before after (put_file encrypt m) h.0 e m.txn_id refl (λ cs. refl) m refl
              ∙ h.1,
        )

  answered-Holds :
      (error : Bool) (m : Message)
      → s.calls ≡ before ++ (send_json m ∷ after)
      → Holds ids (send_cb error m (rest s before after))
  unfolding send_cb
  answered-Holds error m e =
      let done = record m { state = if error then sending_failed else sent } in
      (
        sent_left s before after (send_json m) h.0 e (s.returned ++ (done ∷ [])) refl,
        sent_messages s before after (send_json m) h.0 e m.txn_id refl (λ cs. refl) done refl ∙ h.1,
      )

answer-Holds :
    (users : Users) (ids : List ℕ) (s u : CmRoom) → Holds ids s → Answer users s u → Holds ids u
answer-Holds users ids s u h (listed has_key names before after e same) =
    subst (Holds ids) (sym same) (listed-Holds users has_key ids s before after h names e)
answer-Holds users ids s u h (devices has_key error asked left before after e same) =
    subst (Holds ids) (sym same)
      (devices-Holds users has_key ids s before after h error asked left e)
answer-Holds users ids s u h (claimed has_key asked keys before after e same) =
    subst (Holds ids) (sym same) (claimed-Holds users has_key ids s before after h asked keys e)
answer-Holds users ids s u h (uploaded has_key error keys before after e same) =
    subst (Holds ids) (sym same) (uploaded-Holds users has_key ids s before after h error keys e)
answer-Holds users ids s u h (put has_key encrypt got_uri m before after e same) =
    subst (Holds ids) (sym same) (put-Holds users has_key ids s before after h encrypt got_uri m e)
answer-Holds users ids s u h (answered error m before after e same) =
    subst (Holds ids) (sym same) (answered-Holds users true ids s before after h error m e)

queued-Holds :
    (users : Users) (has_key : Bool) (ids : List ℕ) (s : CmRoom) (account_id : String) (m : Message)
    (item : Item)
    → Holds ids s
    → Holds (ids ++ (m.txn_id ∷ [])) (send_async users has_key account_id m item s)
unfolding send_async
queued-Holds users has_key ids s account_id m item h =
    let found = find_user users s account_id in
    let same = find_user-SameSending users s account_id in
    let next = record found {
      room_event = append_event found.room_event item;
      message_queue = found.message_queue ++ (m ∷ []);
    } in
    let counted = SameSending-IsCounted s found same h.0 in
    let whole =
      ap (λ (q : List ℕ). ids_of found.returned ++ (flight found.calls ++ q))
        (ids_of-append found.message_queue (m ∷ []))
      ∙ ap (λ (q : List ℕ). ids_of found.returned ++ q)
          (sym (append_assoc (flight found.calls) (ids_of found.message_queue) (m.txn_id ∷ [])))
      ∙ sym (
          append_assoc (ids_of found.returned) (flight found.calls ++ ids_of found.message_queue)
            (m.txn_id ∷ []))
      ∙ ap (λ (r : List ℕ). r ++ (m.txn_id ∷ [])) (SameSending-messages s found same ∙ h.1) in
    run_queue users has_key (ids ++ (m.txn_id ∷ [])) next (
      record {
        loading = counted.loading;
        querying = counted.querying;
        claiming = counted.claiming;
        uploading = counted.uploading;
        sending = counted.sending;
        one_step = counted.one_step;
      },
      whole,
    )

-- In every course of a room, whatever the answers are and in whatever order they come, the messages whose task
-- returned, then the one that is being sent, then those in the queue, are the messages that were
-- queued, in order; and of each kind of call one waits at most, exactly while its flag is set.
pub Reaches-messages :
    {users : Users} {ids : List ℕ} {s : CmRoom}
    → Reaches users ids s
    → IsCounted s × (messages s ≡ ids)
Reaches-messages (start h e) = (h, e)
Reaches-messages {users} (queued {ids = ids} {s = s} has_key account_id m item r) =
    queued-Holds users has_key ids s account_id m item (Reaches-messages r)
Reaches-messages {users} (answer {ids = ids} {s = s} {u = u} r a) =
    answer-Holds users ids s u (Reaches-messages r) a
Reaches-messages (load {s = s} r) =
    let h = Reaches-messages r in
    (
      load_joined_members_async-IsCounted s h.0,
      Keeps-messages s (load_joined_members_async s) (load_joined_members_async-Keeps s) ∙ h.1,
    )
Reaches-messages (other {s = s} {t = t} r same) =
    let h = Reaches-messages r in
    (SameSending-IsCounted s t same h.0, SameSending-messages s t same ∙ h.1)
