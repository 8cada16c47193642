-- ===== src/Room/Counted.antt =====
-- The flags of a room and its calls that wait (src/cm-room.c).
use libcmatrix.Base.{
  ℕ, ◌+◌, ◌≤◌, ◌≡◌, refl, Bool, true, false, not, ◌||◌, ◌&&◌, Option, none, some, List, [], ◌∷◌,
  ◌++◌, ◌==◌, if◌then◌else◌, if_cases, arith,
}
use libcmatrix.Room.{
  Message, Call, load_members, load_devices, claim_keys, upload_keys, put_file, send_json, CmRoom,
  Users, make_call, is_encrypted, load_joined_members_async, claim, upload, next_step, is_waiting,
  ensure_encryption_keys, send_message, send_head, has_keys, send_message_from_queue, is_nil,
  member_devices, CmUserKey,
}
use libcmatrix.Base.Table.{Table}
use libcmatrix.Event.{sending}

abbrev pub bit : Bool → ℕ
bit true = 1
bit false = 0

abbrev pub kind : Call → ℕ
kind load_members = 0
kind (load_devices users) = 1
kind (claim_keys users) = 2
kind (upload_keys keys) = 3
kind (put_file encrypt m) = 4
kind (send_json m) = 4

-- how many calls of a kind wait
abbrev pub pending : ℕ → List Call → ℕ
pending k [] = 0
pending k (c ∷ cs) = (if kind c == k then 1 else 0) + pending k cs

pub pending-append :
    (k : ℕ) (xs ys : List Call) → pending k (xs ++ ys) ≡ pending k xs + pending k ys
pending-append k [] ys = omega arith
pending-append k (x ∷ xs) ys = omega (arith, pending-append k xs ys)

-- Each flag is set exactly while its call waits, once; of the steps with keys one is taken at most.
pub record IsCounted (s : CmRoom) : Type 0 where
  pub loading : pending 0 s.calls ≡ bit s.joined_members_loading
  pub querying : pending 1 s.calls ≡ bit s.querying_keys
  pub claiming : pending 2 s.calls ≡ bit s.claiming_keys
  pub uploading : pending 3 s.calls ≡ bit s.uploading_keys
  pub sending : pending 4 s.calls ≡ bit s.is_sending_message
  pub one_step : bit s.querying_keys + bit s.claiming_keys + bit s.uploading_keys ≤ 1

appended :
    (k : ℕ) (cs : List Call) (c : Call)
    → pending k (cs ++ (c ∷ [])) ≡ pending k cs + (if kind c == k then 1 else 0)
appended k cs c = omega (arith, pending-append k cs (c ∷ []))

-- a call whose flag is set with it
module _ (s : CmRoom) (h : IsCounted s) where
  members_called :
      s.joined_members_loading ≡ false
      → IsCounted (make_call (record s { joined_members_loading = true }) load_members)
  members_called idle = record {
    loading = ground (arith, appended 0 s.calls load_members);
    querying = ground (arith, appended 1 s.calls load_members);
    claiming = ground (arith, appended 2 s.calls load_members);
    uploading = ground (arith, appended 3 s.calls load_members);
    sending = ground (arith, appended 4 s.calls load_members);
    one_step = h.one_step;
  }

  pub load_joined_members_async-IsCounted : IsCounted (load_joined_members_async s)
  unfolding load_joined_members_async
  load_joined_members_async-IsCounted =
      if_cases IsCounted (s.joined_members_loaded || s.joined_members_loading) (λ e. h)
        (λ e. members_called (ground arith))

  module _ (idle : is_waiting s ≡ false) where
    devices_called :
        (users : List ℕ)
        → IsCounted (
            make_call
              (record s { querying_keys = true; keys_claimed = false })
              (load_devices users))
    unfolding is_waiting
    devices_called users = record {
      loading = ground (arith, appended 0 s.calls (load_devices users));
      querying = ground (arith, appended 1 s.calls (load_devices users));
      claiming = ground (arith, appended 2 s.calls (load_devices users));
      uploading = ground (arith, appended 3 s.calls (load_devices users));
      sending = ground (arith, appended 4 s.calls (load_devices users));
      one_step = ground arith;
    }

    claim_called :
        (table devices : Table (List ℕ))
        → IsCounted (
            make_call
              (record s { claiming_keys = true; changed_devices = table })
              (claim_keys devices))
    unfolding is_waiting
    claim_called table devices = record {
      loading = ground (arith, appended 0 s.calls (claim_keys devices));
      querying = ground (arith, appended 1 s.calls (claim_keys devices));
      claiming = ground (arith, appended 2 s.calls (claim_keys devices));
      uploading = ground (arith, appended 3 s.calls (claim_keys devices));
      sending = ground (arith, appended 4 s.calls (claim_keys devices));
      one_step = ground arith;
    }

    upload-IsCounted : (keys : Option (List CmUserKey)) → IsCounted (upload s keys)
    unfolding upload is_waiting
    upload-IsCounted none = h
    upload-IsCounted (some []) = h
    upload-IsCounted (some (k ∷ ks)) = record {
      loading = ground (arith, appended 0 s.calls (upload_keys (k ∷ ks)));
      querying = ground (arith, appended 1 s.calls (upload_keys (k ∷ ks)));
      claiming = ground (arith, appended 2 s.calls (upload_keys (k ∷ ks)));
      uploading = ground (arith, appended 3 s.calls (upload_keys (k ∷ ks)));
      sending = ground (arith, appended 4 s.calls (upload_keys (k ∷ ks)));
      one_step = ground arith;
    }

    claim-IsCounted : (users : Users) → IsCounted (claim users s)
    unfolding claim
    claim-IsCounted users =
        if_cases IsCounted (not (is_nil s.changed_devices)) (λ e. claim_called [] s.changed_devices)
          (λ e. claim_called s.changed_devices (member_devices users s.joined_members []))

    next_step-IsCounted : (users : Users) → IsCounted (next_step users s)
    unfolding next_step
    next_step-IsCounted users =
        if_cases IsCounted (not s.joined_members_loaded) (λ e. load_joined_members_async-IsCounted)
          (λ e.
            if_cases IsCounted (not (is_nil s.changed_users)) (λ d. devices_called s.changed_users)
              (λ d.
                if_cases IsCounted (not s.keys_claimed || not (is_nil s.changed_devices))
                  (λ c. claim-IsCounted users) (λ c. upload-IsCounted s.one_time_keys)))

  pub ensure_encryption_keys-IsCounted :
      (users : Users) → IsCounted (ensure_encryption_keys users s)
  unfolding ensure_encryption_keys
  ensure_encryption_keys-IsCounted users =
      if_cases IsCounted (not (is_encrypted s)) (λ e. h)
        (λ e. if_cases IsCounted (is_waiting s) (λ w. h) (λ idle. next_step-IsCounted idle users))

  sent-IsCounted :
      (m : Message) (queue : List Message)
      → s.is_sending_message ≡ false
      → IsCounted (send_message (record s { is_sending_message = true; message_queue = queue }) m)
  unfolding send_message
  sent-IsCounted m queue idle =
      if_cases IsCounted m.is_file (λ e. called (put_file _ m) refl)
        (λ e. called (send_json (record m { state = sending })) refl)
    where
      called :
          (c : Call)
          → kind c ≡ 4
          → IsCounted (make_call (record s { is_sending_message = true; message_queue = queue }) c)
      called c four = record {
        loading = ground (arith, appended 0 s.calls c);
        querying = ground (arith, appended 1 s.calls c);
        claiming = ground (arith, appended 2 s.calls c);
        uploading = ground (arith, appended 3 s.calls c);
        sending = ground (arith, appended 4 s.calls c);
        one_step = h.one_step;
      }

  send_head-IsCounted :
      (users : Users) (has_key : Bool) (queue : List Message)
      → IsCounted (send_head users has_key s queue)
  unfolding send_head
  send_head-IsCounted users has_key [] = h
  send_head-IsCounted users has_key (m ∷ queue) =
      if_cases IsCounted (s.is_sending_message || not (s.retry_timeout_id == 0)) (λ e. h)
        (λ free.
          if_cases IsCounted (is_encrypted s && not (has_keys has_key s))
            (λ e. ensure_encryption_keys-IsCounted users)
            (λ e. sent-IsCounted m queue (ground arith)))

  pub send_message_from_queue-IsCounted :
      (users : Users) (has_key : Bool) → IsCounted (send_message_from_queue users has_key s)
  unfolding send_message_from_queue
  send_message_from_queue-IsCounted users has_key =
      send_head-IsCounted users has_key s.message_queue
