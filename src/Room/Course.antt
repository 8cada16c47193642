-- ===== src/Room/Course.antt =====
-- The courses of a room: messages that are queued, answers in any order, and whatever else leaves the
-- queue and the calls alone (src/cm-room.c).
use libcmatrix.Base.{
  ℕ, ◌≡◌, refl, sym, ap, ◌∙◌, String, Bool, Option, List, [], ◌∷◌, ◌++◌, if_both, arith,
}
use libcmatrix.EventList.Store.{Item}
use libcmatrix.Event.{is_some}
use libcmatrix.Base.Table.{Table, lookup}
use libcmatrix.Room.{
  Message, Call, load_members, load_devices, claim_keys, upload_keys, put_file, send_json,
  CmUserKey, CmRoom, Users, load_joined_members_async,
}
use libcmatrix.Room.Answers.{
  is_member, find_user, add_member, add_members, get_joined_members_cb, load_device_keys_cb,
  claim_keys_cb, upload_keys_cb, send_cb, send_file_cb, send_async,
}
use libcmatrix.Room.Counted.{bit, pending, IsCounted}
use libcmatrix.Room.Order.{flight, messages, Keeps-messages}

-- the calls, their flags and the messages are as before
pub record SameSending (s t : CmRoom) : Type 0 where
  pub calls : t.calls ≡ s.calls
  pub queue : t.message_queue ≡ s.message_queue
  pub returned : t.returned ≡ s.returned
  pub loading : t.joined_members_loading ≡ s.joined_members_loading
  pub querying : t.querying_keys ≡ s.querying_keys
  pub claiming : t.claiming_keys ≡ s.claiming_keys
  pub uploading : t.uploading_keys ≡ s.uploading_keys
  pub sending : t.is_sending_message ≡ s.is_sending_message

abbrev pub rest : CmRoom → List Call → List Call → CmRoom
rest s before after = record s { calls = before ++ after }

-- a call that waits is answered
pub data Answer (users : Users) (s u : CmRoom) : Type 0 where
  listed :
      (has_key : Bool) (ids : Option (List String)) (before after : List Call)
      → s.calls ≡ before ++ (load_members ∷ after)
      → u ≡ get_joined_members_cb users has_key ids (rest s before after)
      → Answer users s u
  devices :
      (has_key error : Bool) (asked left : List ℕ) (before after : List Call)
      → s.calls ≡ before ++ (load_devices asked ∷ after)
      → u ≡ load_device_keys_cb users has_key error left (rest s before after)
      → Answer users s u
  claimed :
      (has_key : Bool) (asked : Table (List ℕ)) (keys : Option (List CmUserKey))
      (before after : List Call)
      → s.calls ≡ before ++ (claim_keys asked ∷ after)
      → u ≡ claim_keys_cb users has_key keys (rest s before after)
      → Answer users s u
  uploaded :
      (has_key error : Bool) (keys : List CmUserKey) (before after : List Call)
      → s.calls ≡ before ++ (upload_keys keys ∷ after)
      → u ≡ upload_keys_cb users has_key error (rest s before after)
      → Answer users s u
  put :
      (has_key encrypt got_uri : Bool) (m : Message) (before after : List Call)
      → s.calls ≡ before ++ (put_file encrypt m ∷ after)
      → u ≡ send_file_cb users has_key got_uri m (rest s before after)
      → Answer users s u
  answered :
      (error : Bool) (m : Message) (before after : List Call)
      → s.calls ≡ before ++ (send_json m ∷ after)
      → u ≡ send_cb error m (rest s before after)
      → Answer users s u

-- a room in which the messages with these transaction ids were queued
pub data Reaches (users : Users) : List ℕ → CmRoom → Type 0 where
  start : {s : CmRoom} → IsCounted s → messages s ≡ [] → Reaches users [] s
  queued :
      {ids : List ℕ} {s : CmRoom} (has_key : Bool) (account_id : String) (m : Message) (item : Item)
      → Reaches users ids s
      → Reaches users (ids ++ (m.txn_id ∷ [])) (send_async users has_key account_id m item s)
  answer :
      {ids : List ℕ} {s u : CmRoom} → Reaches users ids s → Answer users s u → Reaches users ids u
  load :
      {ids : List ℕ} {s : CmRoom}
      → Reaches users ids s
      → Reaches users ids (load_joined_members_async s)
  other :
      {ids : List ℕ} {s t : CmRoom} → Reaches users ids s → SameSending s t → Reaches users ids t

pub SameSending-IsCounted : (s t : CmRoom) → SameSending s t → IsCounted s → IsCounted t
SameSending-IsCounted s t same h = record {
  loading = ap (pending 0) same.calls ∙ h.loading ∙ sym (ap bit same.loading);
  querying = ap (pending 1) same.calls ∙ h.querying ∙ sym (ap bit same.querying);
  claiming = ap (pending 2) same.calls ∙ h.claiming ∙ sym (ap bit same.claiming);
  uploading = ap (pending 3) same.calls ∙ h.uploading ∙ sym (ap bit same.uploading);
  sending = ap (pending 4) same.calls ∙ h.sending ∙ sym (ap bit same.sending);
  one_step =
      omega (arith, h.one_step, ap bit same.querying, ap bit same.claiming, ap bit same.uploading);
}

pub SameSending-messages : (s t : CmRoom) → SameSending s t → messages t ≡ messages s
SameSending-messages s t same = Keeps-messages s t (same.returned, ap flight same.calls, same.queue)

same_sending : (s : CmRoom) → SameSending s s
same_sending s = record {
  calls = refl;
  queue = refl;
  returned = refl;
  loading = refl;
  querying = refl;
  claiming = refl;
  uploading = refl;
  sending = refl;
}

members_kept :
    (s : CmRoom) (changed joined : List ℕ) (table : Table ℕ)
    → SameSending s (record s {
      changed_users = changed;
      joined_members = joined;
      joined_members_table = table;
    })
members_kept s changed joined table = record {
  calls = refl;
  queue = refl;
  returned = refl;
  loading = refl;
  querying = refl;
  claiming = refl;
  uploading = refl;
  sending = refl;
}

SameSending-trans : (s t u : CmRoom) → SameSending s t → SameSending t u → SameSending s u
SameSending-trans s t u h k = record {
  calls = k.calls ∙ h.calls;
  queue = k.queue ∙ h.queue;
  returned = k.returned ∙ h.returned;
  loading = k.loading ∙ h.loading;
  querying = k.querying ∙ h.querying;
  claiming = k.claiming ∙ h.claiming;
  uploading = k.uploading ∙ h.uploading;
  sending = k.sending ∙ h.sending;
}

module _ (users : Users) where
  pub find_user-SameSending : (s : CmRoom) (id : String) → SameSending s (find_user users s id)
  unfolding find_user
  find_user-SameSending s id =
      if_both (SameSending s) (is_member s.joined_members (users.find id)) (same_sending s)
        (members_kept s _ _ _)

  pub add_members-SameSending :
      (s : CmRoom) (ids : List String) → SameSending s (add_members users s ids)
  unfolding add_members add_member
  add_members-SameSending s [] = same_sending s
  add_members-SameSending s (id ∷ ids) =
      SameSending-trans s (add_member users s id) (add_members users (add_member users s id) ids)
        (if_both (SameSending s) (is_some (lookup s.joined_members_table id)) (same_sending s)
          (find_user-SameSending s id))
        (add_members-SameSending (add_member users s id) ids)
