-- ===== src/UserList/Loads.antt =====
-- Loads and answers taken apart (src/users/cm-user-list.c).
use mathlib.Core.Option.{some-injective, none-ne-some}
use libcmatrix.Base.{
  ◌++◌, ◌⊎◌, inl, inr, Bool-cases, ℕ, ◌≡◌, refl, sym, ap, ◌∙◌, Bool, true, false, Option, none,
  some, List, [], ◌∷◌, String, ==_iff, if_both, arith, if◌then◌else◌,
}
use libcmatrix.Base.Table.{lookup}
use libcmatrix.Json.{JsonObject}
use libcmatrix.Json.Access.{object_get_object}
use libcmatrix.Enc.{EncEnv}
use libcmatrix.UserList.{pointer, Task, CmUserList, is_nil}
use libcmatrix.UserList.Queue.{
  request_from, request_device_keys_from_queue, remove_unlisted_users, queue_task,
  load_devices_async, return_task,
}
use libcmatrix.UserList.Answer.{
  Handlers, mark_again, load_member, load_members, update_user, keys_members, take_answer,
  without_task, answered, device_keys_query_cb, outcome_of, return_after,
}

-- what is about requests is the same
abbrev pub SameRequests : CmUserList → CmUserList → Type 0
SameRequests s t =
    (t.device_request_queue ≡ s.device_request_queue)
    × (t.current_request ≡ s.current_request)
    × (t.is_requesting_device ≡ s.is_requesting_device)
    × (t.in_flight ≡ s.in_flight)
    × (t.sent ≡ s.sent)
    × (t.returned ≡ s.returned)

mark_again-SameRequests : (refs : List ℕ) (s : CmUserList) → SameRequests s (mark_again s refs)
unfolding mark_again
mark_again-SameRequests [] s = (refl, refl, refl, refl, refl, refl)
mark_again-SameRequests (ref ∷ refs) s = mark_again-SameRequests refs _

module _ (env : EncEnv) (on_user_changed : Handlers) where
  load_member-SameRequests :
      (s : CmUserList) (users : ℕ) (user : Option ℕ) (key : Option JsonObject)
      → SameRequests s (load_member env on_user_changed s users user key)
  unfolding load_member update_user
  load_member-SameRequests s users none key = (refl, refl, refl, refl, refl, refl)
  load_member-SameRequests s users (some ref) key = (refl, refl, refl, refl, refl, refl)

  load_members-SameRequests :
      (names : List String) (keys : Option JsonObject) (users : ℕ) (s : CmUserList)
      → SameRequests s (load_members env on_user_changed names keys users s)
  unfolding load_members
  load_members-SameRequests [] keys users s = (refl, refl, refl, refl, refl, refl)
  load_members-SameRequests (name ∷ names) keys users s =
      let t =
        load_member env on_user_changed s users (lookup s.users_table name)
          (object_get_object keys (some name)) in
      let (q, c, r, f, w, d) = load_members-SameRequests names keys users t in
      let (q', c', r', f', w', d') =
        load_member-SameRequests s users (lookup s.users_table name)
          (object_get_object keys (some name)) in
      (q ∙ q', c ∙ c', r ∙ r', f ∙ f', w ∙ w', d ∙ d')

  pub take_answer-SameRequests :
      (answer : Option JsonObject) (users : ℕ) (s : CmUserList)
      → SameRequests s (take_answer env on_user_changed answer users s)
  unfolding take_answer
  take_answer-SameRequests none users s = mark_again-SameRequests (s.arrays users) s
  take_answer-SameRequests (some answer) users s =
      let keys = object_get_object (some answer) (some "device_keys") in
      load_members-SameRequests (keys_members keys) keys users s

-- the state in which a load looks at the queue
abbrev pub queued : CmUserList → Task → CmUserList
queued s task = queue_task (remove_unlisted_users s task.users) task

module _ (s : CmUserList) (task : Task) where
  abbrev loaded : Bool → Option CmUserList
  loaded empty = if empty then some s else request_device_keys_from_queue (queued s task)

  pub load_empty : is_nil (s.arrays task.users) ≡ true → load_devices_async s task ≡ some s
  unfolding load_devices_async
  load_empty e = ap loaded e

  pub load_queued :
      is_nil (s.arrays task.users) ≡ false
      → load_devices_async s task
        ≡ request_from (queued s task).device_request_queue (queued s task)
  unfolding load_devices_async request_device_keys_from_queue
  load_queued e = ap loaded e

  pub queued_kept :
      ((queued s task).is_requesting_device ≡ s.is_requesting_device)
      × ((queued s task).current_request ≡ s.current_request)
      × ((queued s task).in_flight ≡ s.in_flight)
  unfolding queue_task return_task remove_unlisted_users
  queued_kept =
      if_both
        (λ (u : CmUserList).
          (u.is_requesting_device ≡ s.is_requesting_device)
          × (u.current_request ≡ s.current_request)
          × (u.in_flight ≡ s.in_flight))
        (is_nil ((remove_unlisted_users s task.users).arrays task.users)) (refl, refl, refl)
        (refl, refl, refl)

-- a load enters the task or lets it return at once
pub queued-cases :
    (s : CmUserList) (task : Task)
    → (((queued s task).device_request_queue ≡ s.device_request_queue ++ (task ∷ []))
        × ((queued s task).returned ≡ s.returned)
        × (is_nil ((queued s task).arrays task.users) ≡ false))
      ⊎ (((queued s task).device_request_queue ≡ s.device_request_queue)
          × ((queued s task).returned ≡ s.returned ++ ((task, pointer none) ∷ [])))
unfolding queue_task return_task remove_unlisted_users
queued-cases s task =
    let listed = remove_unlisted_users s task.users in
    elim (Bool-cases (is_nil (listed.arrays task.users))) [
      | inl e ↦
          let p = ap (branch listed) e in
          inr (
            ap (λ (u : CmUserList). u.device_request_queue) p,
            ap (λ (u : CmUserList). u.returned) p,
          )
      | inr e ↦
          let p = ap (branch listed) e in
          inl (
            ap (λ (u : CmUserList). u.device_request_queue) p,
            ap (λ (u : CmUserList). u.returned) p,
            ap (λ (u : CmUserList). is_nil (u.arrays task.users)) p ∙ e,
          )
    ]
  where
    branch : CmUserList → Bool → CmUserList
    branch listed empty =
        if empty
        then return_task listed task (pointer none)
        else record listed { device_request_queue = listed.device_request_queue ++ (task ∷ []) }

return_after-some :
    (object : Option JsonObject) (task : Task) (o : Option CmUserList) (t : CmUserList)
    → return_after object task o ≡ some t
    → (next : CmUserList) × (o ≡ some next) × (t ≡ return_task next task (outcome_of object task))
unfolding return_after
return_after-some object task none t h = absurd (none-ne-some t h)
return_after-some object task (some next) t h = (next, refl, sym (some-injective _ t h))

module _ (env : EncEnv) (on_user_changed : Handlers) (object : Option JsonObject)
    (task : Task) where
  -- an answer leaves what the next request does, but for the task that returns
  pub query_cb_next :
      (s t : CmUserList)
      → device_keys_query_cb env on_user_changed object task s ≡ some t
      → let a = answered env on_user_changed object task s in
        (next : CmUserList) × (request_from a.device_request_queue a ≡ some next)
        × (t ≡ return_task next task (outcome_of object task))
  unfolding device_keys_query_cb request_device_keys_from_queue
  query_cb_next s t h =
      let a = answered env on_user_changed object task s in
      return_after-some object task (request_from a.device_request_queue a) t h

  pub query_cb_of :
      (s next : CmUserList)
      → let a = answered env on_user_changed object task s in
        request_from a.device_request_queue a ≡ some next
        → device_keys_query_cb env on_user_changed object task s
          ≡ some (return_task next task (outcome_of object task))
  unfolding device_keys_query_cb request_device_keys_from_queue return_after
  query_cb_of s next e = ap (return_after object task) e

  pub answered_kept :
      (s : CmUserList)
      → s.in_flight ≡ task ∷ []
      → let a = answered env on_user_changed object task s in
        (a.is_requesting_device ≡ false)
        × (a.current_request ≡ none)
        × (a.in_flight ≡ [])
        × (a.device_request_queue ≡ s.device_request_queue)
        × (a.returned ≡ s.returned)
  unfolding answered without_task
  answered_kept s out =
      let (queue, _, _, _, _, done) =
        take_answer-SameRequests env on_user_changed object task.users s in
      (refl, refl, rw out (ground (arith, ==_iff task.number task.number)), queue, done)
