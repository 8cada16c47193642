-- ===== src/Room/Reached.antt =====
-- What holds of a room in every course (src/cm-room.c).
use mathlib.Core.List.{append_assoc}
use libcmatrix.Base.{
  ℕ, ◌+◌, ◌≡◌, sym, ap, ◌∙◌, Bool, false, Option, List, [], ◌∷◌, ◌++◌, ◌==◌, if◌then◌else◌, arith,
}
use libcmatrix.Room.{
  Message, Call, send_json, CmUserKey, CmRoom, Users, make_call, send_message_from_queue,
}
use libcmatrix.Room.Counted.{
  kind, pending, pending-append, IsCounted, send_message_from_queue-IsCounted,
}
use libcmatrix.Room.Order.{
  flight, ids_of, messages, ids_of-append, flight-append, flight_none,
  send_message_from_queue-messages,
}
use libcmatrix.Room.Course.{rest}

-- counted, with these messages
abbrev pub Holds : List ℕ → CmRoom → Type 0
Holds ids s = IsCounted s × (messages s ≡ ids)

pub run_queue :
    (users : Users) (has_key : Bool) (ids : List ℕ) (s : CmRoom)
    → Holds ids s
    → Holds ids (send_message_from_queue users has_key s)
run_queue users has_key ids s (h, e) = (
  send_message_from_queue-IsCounted s h users has_key,
  send_message_from_queue-messages s users has_key h ∙ e,
)

module _ (s : CmRoom) (before after : List Call) (c : Call) (h : IsCounted s)
    (e : s.calls ≡ before ++ (c ∷ after)) where
  taken : (k : ℕ) → pending k s.calls ≡ (if kind c == k then 1 else 0) + pending k (before ++ after)
  taken k =
      ap (pending k) e
      ∙ omega (arith, pending-append k before (c ∷ after), pending-append k before after)

  flight_kept :
      ((cs : List Call) → flight (c ∷ cs) ≡ flight cs) → flight (before ++ after) ≡ flight s.calls
  flight_kept skip =
      flight-append before after
      ∙ ap (λ (f : List ℕ). flight before ++ f) (sym (skip after))
      ∙ sym (flight-append before (c ∷ after))
      ∙ sym (ap flight e)

  pub messages-rest :
      ((cs : List Call) → flight (c ∷ cs) ≡ flight cs) → messages (rest s before after) ≡ messages s
  messages-rest skip =
      ap (λ (f : List ℕ). ids_of s.returned ++ (f ++ ids_of s.message_queue)) (flight_kept skip)

  pub listed_left :
      kind c ≡ 0 → IsCounted (record (rest s before after) { joined_members_loading = false })
  listed_left one = record {
    loading = ground (arith, taken 0, h.loading);
    querying = ground (arith, taken 1, h.querying);
    claiming = ground (arith, taken 2, h.claiming);
    uploading = ground (arith, taken 3, h.uploading);
    sending = ground (arith, taken 4, h.sending);
    one_step = h.one_step;
  }

  pub devices_left :
      (left : List ℕ)
      → kind c ≡ 1
      → IsCounted (record (rest s before after) { changed_users = left; querying_keys = false })
  devices_left left one = record {
    loading = ground (arith, taken 0, h.loading);
    querying = ground (arith, taken 1, h.querying);
    claiming = ground (arith, taken 2, h.claiming);
    uploading = ground (arith, taken 3, h.uploading);
    sending = ground (arith, taken 4, h.sending);
    one_step = ground (arith, h.one_step);
  }

  pub claimed_left :
      (keys : Option (List CmUserKey)) (done : Bool)
      → kind c ≡ 2
      → IsCounted (record (rest s before after) {
        one_time_keys = keys;
        claiming_keys = false;
        keys_claimed = done;
      })
  claimed_left keys done one = record {
    loading = ground (arith, taken 0, h.loading);
    querying = ground (arith, taken 1, h.querying);
    claiming = ground (arith, taken 2, h.claiming);
    uploading = ground (arith, taken 3, h.uploading);
    sending = ground (arith, taken 4, h.sending);
    one_step = ground (arith, h.one_step);
  }

  pub uploaded_left :
      (keys : Option (List CmUserKey))
      → kind c ≡ 3
      → IsCounted (record (rest s before after) { uploading_keys = false; one_time_keys = keys })
  uploaded_left keys one = record {
    loading = ground (arith, taken 0, h.loading);
    querying = ground (arith, taken 1, h.querying);
    claiming = ground (arith, taken 2, h.claiming);
    uploading = ground (arith, taken 3, h.uploading);
    sending = ground (arith, taken 4, h.sending);
    one_step = ground (arith, h.one_step);
  }

  pub sent_left :
      (done : List Message)
      → kind c ≡ 4
      → IsCounted (record (rest s before after) { is_sending_message = false; returned = done })
  sent_left done one = record {
    loading = ground (arith, taken 0, h.loading);
    querying = ground (arith, taken 1, h.querying);
    claiming = ground (arith, taken 2, h.claiming);
    uploading = ground (arith, taken 3, h.uploading);
    sending = ground (arith, taken 4, h.sending);
    one_step = h.one_step;
  }

  pub put_left :
      (m : Message) → kind c ≡ 4 → IsCounted (make_call (rest s before after) (send_json m))
  put_left m one = record {
    loading =
        ground (arith, taken 0, h.loading, pending-append 0 (before ++ after) (send_json m ∷ []));
    querying =
        ground (arith, taken 1, h.querying, pending-append 1 (before ++ after) (send_json m ∷ []));
    claiming =
        ground (arith, taken 2, h.claiming, pending-append 2 (before ++ after) (send_json m ∷ []));
    uploading =
        ground (arith, taken 3, h.uploading, pending-append 3 (before ++ after) (send_json m ∷ []));
    sending =
        ground (arith, taken 4, h.sending, pending-append 4 (before ++ after) (send_json m ∷ []));
    one_step = h.one_step;
  }

  module _ (id : ℕ) (four : kind c ≡ 4)
      (one : (cs : List Call) → flight (c ∷ cs) ≡ id ∷ flight cs) where
    pub none_left : flight (before ++ after) ≡ []
    none_left = flight_none (before ++ after) (ground (arith, taken 4, h.sending))

    only_message : flight s.calls ≡ id ∷ []
    only_message =
        ap flight e
        ∙ flight-append before (c ∷ after)
        ∙ ap (λ (f : List ℕ). flight before ++ f) (one after)
        ∙ ap (λ (f : List ℕ). f ++ (id ∷ flight after))
            (flight_none before (ground (arith, taken 4, h.sending, pending-append 4 before after)))
        ∙ ap (λ (f : List ℕ). id ∷ f)
            (flight_none after (ground (arith, taken 4, h.sending, pending-append 4 before after)))

    pub sent_messages :
        (m : Message)
        → m.txn_id ≡ id
        → messages (record (rest s before after) {
          is_sending_message = false;
          returned = s.returned ++ (m ∷ []);
        })
          ≡ messages s
    sent_messages m same =
        ap (λ (f : List ℕ). ids_of (s.returned ++ (m ∷ [])) ++ (f ++ ids_of s.message_queue))
          none_left
        ∙ ap (λ (r : List ℕ). r ++ ids_of s.message_queue) (ids_of-append s.returned (m ∷ []))
        ∙ append_assoc (ids_of s.returned) (m.txn_id ∷ []) (ids_of s.message_queue)
        ∙ ap (λ (i : ℕ). ids_of s.returned ++ (i ∷ ids_of s.message_queue)) same
        ∙ sym (ap (λ (f : List ℕ). ids_of s.returned ++ (f ++ ids_of s.message_queue)) only_message)

    pub put_messages :
        (m : Message)
        → m.txn_id ≡ id
        → messages (make_call (rest s before after) (send_json m)) ≡ messages s
    put_messages m same =
        ap (λ (f : List ℕ). ids_of s.returned ++ (f ++ ids_of s.message_queue))
          (flight-append (before ++ after) (send_json m ∷ [])
            ∙ ap (λ (f : List ℕ). f ++ (m.txn_id ∷ [])) none_left
            ∙ ap (λ (i : ℕ). i ∷ []) same
            ∙ sym only_message)
