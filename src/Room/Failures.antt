-- ===== src/Room/Failures.antt =====
-- Messages of a room that wait without need (src/cm-room.c).
use mathlib.Core.Path.{subst}
use libcmatrix.Base.{
  ℕ, ◌≡◌, refl, sym, ap, ◌∙◌, Bool, true, false, not, ◌&&◌, some, List, [], ◌∷◌, ◌++◌, ◌==◌,
  if_both, if_false, arith,
}
use libcmatrix.Base.Table.{Table}
use libcmatrix.Event.{sending}
use libcmatrix.Room.{
  Message, Call, put_file, send_json, CmRoom, Users, is_nil, is_encrypted, has_keys, next_step,
  upload, send_head, send_message, send_message_from_queue,
}
use libcmatrix.Room.Answers.{claim_keys_cb, send_cb}
use libcmatrix.Room.Order.{flight, flight-append}
use libcmatrix.Room.Course.{rest, Reaches}
use libcmatrix.Room.Quiet.{IsQuiet, takes_step}
use libcmatrix.Room.Reached.{none_left}
use libcmatrix.Room.Ordered.{Reaches-messages}

-- Where keys were claimed and there is none to upload, an encrypted room without a group key does nothing for
-- a message that waits; so it is when no key is claimed for any device.
pub claim_keys_cb-stuck :
    (users : Users) (m : Message) (queue : List Message) (s : CmRoom)
    → let next = record s { one_time_keys = some []; claiming_keys = false; keys_claimed = true } in
      IsQuiet m queue next
      → s.joined_members_loaded ≡ true
      → s.changed_users ≡ []
      → s.changed_devices ≡ []
      → (claim_keys_cb users false (some []) s ≡ next)
        × (send_message_from_queue users false next ≡ next)
unfolding claim_keys_cb has_keys next_step upload is_nil
claim_keys_cb-stuck users m queue s q loaded asked devices =
    let next = record s { one_time_keys = some []; claiming_keys = false; keys_claimed = true } in
    let stuck : send_message_from_queue users false next ≡ next =
      takes_step users m queue false next q refl
      ∙ if_false (not s.joined_members_loaded) _ _ (ap not loaded)
      ∙ if_false (not (is_nil s.changed_users)) _ _ (ap (λ (u : List ℕ). not (is_nil u)) asked)
      ∙ if_false (not (is_nil s.changed_devices)) _ _
          (ap (λ (t : Table (List ℕ)). not (is_nil t)) devices) in
    (stuck, stuck)

-- When the network has answered for a message of a room that is not encrypted, in any course, no message is being
-- sent and the next one still waits, though room_send_message_from_queue would send it.
pub send_cb-waits :
    (users : Users) (ids : List ℕ) (s : CmRoom) (error has_key : Bool) (m n : Message)
    (queue : List Message) (before after : List Call)
    → Reaches users ids s
    → s.calls ≡ before ++ (send_json m ∷ after)
    → s.message_queue ≡ n ∷ queue
    → s.retry_timeout_id ≡ 0
    → is_encrypted s ≡ false
    → let next = send_cb error m (rest s before after) in
      (flight next.calls ≡ [])
      × (next.message_queue ≡ n ∷ queue)
      × (flight (send_message_from_queue users has_key next).calls ≡ n.txn_id ∷ [])
unfolding send_cb send_message_from_queue send_head send_message is_encrypted
send_cb-waits users ids s error has_key m n queue before after reached call waits no_retry plain =
    let (counted, whole) = Reaches-messages reached in
    let next = send_cb error m (rest s before after) in
    let nothing = none_left s before after (send_json m) counted call m.txn_id refl (λ cs. refl) in
    let given = record next { is_sending_message = true; message_queue = queue } in
    let path =
      ap (send_head users has_key next) waits
      ∙ if_false (not (next.retry_timeout_id == 0)) _ _ (ground (arith, no_retry))
      ∙ if_false (is_encrypted next && not (has_keys has_key next)) _ _
          (ap (λ (b : Bool). b && not (has_keys has_key next)) plain) in
    let called : (c : Call)
        → flight (c ∷ []) ≡ n.txn_id ∷ []
        → flight ((before ++ after) ++ (c ∷ [])) ≡ n.txn_id ∷ [] =
      λ c one.
        flight-append (before ++ after) (c ∷ [])
        ∙ ap (λ (f : List ℕ). f ++ flight (c ∷ [])) nothing
        ∙ one in
    (
      nothing,
      waits,
      subst (λ (t : CmRoom). flight t.calls ≡ n.txn_id ∷ []) (sym path)
          (if_both (λ (t : CmRoom). flight t.calls ≡ n.txn_id ∷ []) n.is_file
            (called (put_file (is_encrypted given) n) refl)
            (called (send_json (record n { state = sending })) refl)),
    )
