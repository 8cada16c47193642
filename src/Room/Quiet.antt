-- ===== src/Room/Quiet.antt =====
-- An encrypted room that takes its next step (room_send_message_from_queue of src/cm-room.c).
use mathlib.Core.Path.{subst}
use libcmatrix.Base.{
  ◌≡◌, refl, sym, ap, ◌∙◌, Bool, true, false, not, ◌||◌, ◌&&◌, List, [], ◌∷◌, ◌++◌, ◌==◌, if_both,
  if_true, if_false, arith,
}
use libcmatrix.Event.{sending}
use libcmatrix.Room.{
  Message, Call, put_file, send_json, CmRoom, Users, is_encrypted, is_waiting, has_keys, next_step,
  ensure_encryption_keys, send_message, send_head, send_message_from_queue,
}
use libcmatrix.Room.Order.{flight}

-- an encrypted room with a message that waits, and no call that does
pub record IsQuiet (m : Message) (queue : List Message) (s : CmRoom) : Type 0 where
  pub encrypted : is_encrypted s ≡ true
  pub waits : s.message_queue ≡ m ∷ queue
  pub idle : s.is_sending_message ≡ false
  pub no_retry : s.retry_timeout_id ≡ 0
  pub no_call : s.calls ≡ []
  pub not_loading : s.joined_members_loading ≡ false
  pub not_querying : s.querying_keys ≡ false
  pub not_claiming : s.claiming_keys ≡ false
  pub not_uploading : s.uploading_keys ≡ false

-- the message is being sent
abbrev pub IsSent : Message → List Message → CmRoom → Type 0
IsSent m queue s =
    (flight s.calls ≡ m.txn_id ∷ []) × (s.message_queue ≡ queue) × (s.is_sending_message ≡ true)

module _ (users : Users) (m : Message) (queue : List Message) where
  pub waiting_none : (s : CmRoom) → IsQuiet m queue s → is_waiting s ≡ false
  unfolding is_waiting
  waiting_none s q = ground (arith, q.not_loading, q.not_querying, q.not_claiming, q.not_uploading)

  pub head_free :
      (s : CmRoom)
      → IsQuiet m queue s
      → (s.is_sending_message || not (s.retry_timeout_id == 0)) ≡ false
  head_free s q = ground (arith, q.idle, q.no_retry)

  pub takes_step :
      (has_key : Bool) (s : CmRoom)
      → IsQuiet m queue s
      → has_keys has_key s ≡ false
      → send_message_from_queue users has_key s ≡ next_step users s
  unfolding send_message_from_queue send_head ensure_encryption_keys
  takes_step has_key s q missing =
      ap (send_head users has_key s) q.waits
      ∙ if_false (s.is_sending_message || not (s.retry_timeout_id == 0)) _ _ (head_free s q)
      ∙ if_true (is_encrypted s && not (has_keys has_key s)) _ _
          (ground (arith, q.encrypted, missing))
      ∙ if_false (not (is_encrypted s)) _ _ (ap not q.encrypted)
      ∙ if_false (is_waiting s) _ _ (waiting_none s q)

  pub sends :
      (has_key : Bool) (s : CmRoom)
      → IsQuiet m queue s
      → has_keys has_key s ≡ true
      → IsSent m queue (send_message_from_queue users has_key s)
  unfolding send_message_from_queue send_head send_message
  sends has_key s q has =
      let next = record s { is_sending_message = true; message_queue = queue } in
      let path =
        ap (send_head users has_key s) q.waits
        ∙ if_false (s.is_sending_message || not (s.retry_timeout_id == 0)) _ _ (head_free s q)
        ∙ if_false (is_encrypted s && not (has_keys has_key s)) _ _ (ground (arith, has)) in
      subst (IsSent m queue) (sym path) (
        if_both (IsSent m queue) m.is_file
          (
            ap (λ (cs : List Call). flight (cs ++ (put_file (is_encrypted next) m ∷ []))) q.no_call,
            refl,
            refl,
          )
          (
            ap (λ (cs : List Call). flight (cs ++ (send_json (record m { state = sending }) ∷ [])))
                q.no_call,
            refl,
            refl,
          ))
