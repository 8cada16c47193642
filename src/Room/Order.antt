-- ===== src/Room/Order.antt =====
-- The order of a room's messages (src/cm-room.c): those whose task returned, the one that is being
-- sent and those that wait.
use mathlib.Core.List.{append-nil}
use libcmatrix.Base.{
  ℕ, ◌≡◌, refl, sym, ap, ◌∙◌, Bool, true, not, ◌||◌, ◌&&◌, Option, none, some, List, [], ◌∷◌, ◌++◌,
  ◌==◌, if_both, if_cases, arith,
}
use libcmatrix.Event.{sending}
use libcmatrix.Room.{
  Message, Call, load_members, load_devices, claim_keys, upload_keys, put_file, send_json,
  CmUserKey, CmRoom, Users, make_call, is_encrypted, load_joined_members_async, claim, upload,
  next_step, is_waiting, ensure_encryption_keys, send_message, send_head, has_keys,
  send_message_from_queue, is_nil,
}
use libcmatrix.Room.Counted.{pending, IsCounted}

-- the messages of the calls that wait
abbrev pub flight : List Call → List ℕ
flight [] = []
flight (load_members ∷ cs) = flight cs
flight (load_devices users ∷ cs) = flight cs
flight (claim_keys users ∷ cs) = flight cs
flight (upload_keys keys ∷ cs) = flight cs
flight (put_file encrypt m ∷ cs) = m.txn_id ∷ flight cs
flight (send_json m ∷ cs) = m.txn_id ∷ flight cs

abbrev pub ids_of : List Message → List ℕ
ids_of [] = []
ids_of (m ∷ ms) = m.txn_id ∷ ids_of ms

abbrev pub messages : CmRoom → List ℕ
messages s = ids_of s.returned ++ (flight s.calls ++ ids_of s.message_queue)

pub ids_of-append : (xs ys : List Message) → ids_of (xs ++ ys) ≡ ids_of xs ++ ids_of ys
ids_of-append [] ys = refl
ids_of-append (x ∷ xs) ys = ap (λ (r : List ℕ). x.txn_id ∷ r) (ids_of-append xs ys)

pub flight-append : (xs ys : List Call) → flight (xs ++ ys) ≡ flight xs ++ flight ys
flight-append [] ys = refl
flight-append (load_members ∷ xs) ys = flight-append xs ys
flight-append (load_devices users ∷ xs) ys = flight-append xs ys
flight-append (claim_keys users ∷ xs) ys = flight-append xs ys
flight-append (upload_keys keys ∷ xs) ys = flight-append xs ys
flight-append (put_file e m ∷ xs) ys = ap (λ (r : List ℕ). m.txn_id ∷ r) (flight-append xs ys)
flight-append (send_json m ∷ xs) ys = ap (λ (r : List ℕ). m.txn_id ∷ r) (flight-append xs ys)

pub flight_none : (cs : List Call) → pending 4 cs ≡ 0 → flight cs ≡ []
flight_none [] h = refl
flight_none (load_members ∷ cs) h = flight_none cs (omega arith)
flight_none (load_devices users ∷ cs) h = flight_none cs (omega arith)
flight_none (claim_keys users ∷ cs) h = flight_none cs (omega arith)
flight_none (upload_keys keys ∷ cs) h = flight_none cs (omega arith)
flight_none (put_file e m ∷ cs) h = absurd (omega arith)
flight_none (send_json m ∷ cs) h = absurd (omega arith)

-- the messages are as before
abbrev pub Keeps : CmRoom → CmRoom → Type 0
Keeps s t =
    (t.returned ≡ s.returned)
    × (flight t.calls ≡ flight s.calls)
    × (t.message_queue ≡ s.message_queue)

pub Keeps-messages : (s t : CmRoom) → Keeps s t → messages t ≡ messages s
Keeps-messages s t (returned, calls, queue) =
    ap (λ (r : List Message). ids_of r ++ (flight t.calls ++ ids_of t.message_queue)) returned
    ∙ ap (λ (f : List ℕ). ids_of s.returned ++ (f ++ ids_of t.message_queue)) calls
    ∙ ap (λ (q : List Message). ids_of s.returned ++ (flight s.calls ++ ids_of q)) queue

other_call :
    (s : CmRoom) (c : Call) → flight (c ∷ []) ≡ [] → flight (s.calls ++ (c ∷ [])) ≡ flight s.calls
other_call s c none_sent =
    flight-append s.calls (c ∷ [])
    ∙ ap (λ (f : List ℕ). flight s.calls ++ f) none_sent
    ∙ append-nil (flight s.calls)

module _ (s : CmRoom) where
  pub load_joined_members_async-Keeps : Keeps s (load_joined_members_async s)
  unfolding load_joined_members_async
  load_joined_members_async-Keeps =
      if_both (Keeps s) (s.joined_members_loaded || s.joined_members_loading) (refl, refl, refl)
        (refl, other_call s load_members refl, refl)

  claim-Keeps : (users : Users) → Keeps s (claim users s)
  unfolding claim
  claim-Keeps users =
      if_both (Keeps s) (not (is_nil s.changed_devices))
        (refl, other_call s (claim_keys _) refl, refl)
        (refl, other_call s (claim_keys _) refl, refl)

  upload-Keeps : (keys : Option (List CmUserKey)) → Keeps s (upload s keys)
  unfolding upload
  upload-Keeps none = (refl, refl, refl)
  upload-Keeps (some []) = (refl, refl, refl)
  upload-Keeps (some (k ∷ ks)) = (refl, other_call s (upload_keys (k ∷ ks)) refl, refl)

  next_step-Keeps : (users : Users) → Keeps s (next_step users s)
  unfolding next_step
  next_step-Keeps users =
      if_both (Keeps s) (not s.joined_members_loaded) load_joined_members_async-Keeps (
        if_both (Keeps s) (not (is_nil s.changed_users))
          (refl, other_call s (load_devices s.changed_users) refl, refl)
          (if_both (Keeps s) (not s.keys_claimed || not (is_nil s.changed_devices))
            (claim-Keeps users) (upload-Keeps s.one_time_keys)))

  ensure_encryption_keys-Keeps : (users : Users) → Keeps s (ensure_encryption_keys users s)
  unfolding ensure_encryption_keys
  ensure_encryption_keys-Keeps users =
      if_both (Keeps s) (not (is_encrypted s)) (refl, refl, refl)
        (if_both (Keeps s) (is_waiting s) (refl, refl, refl) (next_step-Keeps users))

  module _ (m : Message) (queue : List Message) (none_sent : flight s.calls ≡ [])
      (waits : s.message_queue ≡ m ∷ queue) where
    abbrev next : CmRoom
    next = record s { is_sending_message = true; message_queue = queue }

    head_called :
        (c : Call) → flight (c ∷ []) ≡ m.txn_id ∷ [] → messages (make_call next c) ≡ messages s
    head_called c one =
        ap (λ (f : List ℕ). ids_of s.returned ++ (f ++ ids_of queue))
          (flight-append s.calls (c ∷ [])
            ∙ ap (λ (f : List ℕ). f ++ flight (c ∷ [])) none_sent
            ∙ one)
        ∙ sym (
            ap (λ (f : List ℕ). ids_of s.returned ++ (f ++ ids_of s.message_queue)) none_sent
            ∙ ap (λ (q : List Message). ids_of s.returned ++ ids_of q) waits)

    send_message-messages : messages (send_message next m) ≡ messages s
    unfolding send_message
    send_message-messages =
        if_both (λ (t : CmRoom). messages t ≡ messages s) m.is_file
          (head_called (put_file (is_encrypted next) m) refl)
          (head_called (send_json (record m { state = sending })) refl)

  send_head-messages :
      (users : Users) (has_key : Bool) (queue : List Message)
      → IsCounted s
      → s.message_queue ≡ queue
      → messages (send_head users has_key s queue) ≡ messages s
  unfolding send_head
  send_head-messages users has_key [] h e = refl
  send_head-messages users has_key (m ∷ queue) h e =
      if_cases (λ (t : CmRoom). messages t ≡ messages s)
        (s.is_sending_message || not (s.retry_timeout_id == 0)) (λ busy. refl)
        (λ free.
          if_cases (λ (t : CmRoom). messages t ≡ messages s)
            (is_encrypted s && not (has_keys has_key s))
            (λ w.
              Keeps-messages s (ensure_encryption_keys users s)
                (ensure_encryption_keys-Keeps users))
            (λ w.
              send_message-messages m queue (flight_none s.calls (ground (arith, h.sending))) e))

  pub send_message_from_queue-messages :
      (users : Users) (has_key : Bool)
      → IsCounted s
      → messages (send_message_from_queue users has_key s) ≡ messages s
  unfolding send_message_from_queue
  send_message_from_queue-messages users has_key h =
      send_head-messages users has_key s.message_queue h refl
