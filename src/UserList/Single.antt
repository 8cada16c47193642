-- ===== src/UserList/Single.antt =====
-- Requests for device keys run one at a time (src/users/cm-user-list.c).
use mathlib.Core.Option.{some-injective, none-ne-some}
use mathlib.Core.Path.{subst}
use mathlib.Core.List.{head-eq_of_cons-eq, cons≢nil}
use libcmatrix.Base.{
  ◌≡◌, refl, sym, ap, ◌∙◌, true, false, Option, some, List, [], ◌∷◌, ◌++◌, ◌⊎◌, inl, inr,
  Bool-cases,
}
use libcmatrix.Event.{is_some}
use libcmatrix.Json.{JsonObject}
use libcmatrix.Enc.{EncEnv}
use libcmatrix.UserList.{Task, CmUserList, is_nil}
use libcmatrix.UserList.Queue.{request_from, load_devices_async, return_task}
use libcmatrix.UserList.Answer.{Handlers, answered, device_keys_query_cb}
use libcmatrix.UserList.Loads.{
  SameRequests, queued, load_empty, load_queued, queued_kept, query_cb_next, answered_kept,
}
use libcmatrix.UserList.Taken.{
  passed, launched, turn_busy, turn_refused, turn_passed, turn_launched,
}

-- The request in flight is the one that is marked, and none waits for its turn where no request is in
-- flight.
abbrev pub IsSingle : CmUserList → Type 0
IsSingle s =
    ((s.is_requesting_device ≡ true)
      × (task : Task) × (s.current_request ≡ some task)
      × (s.in_flight ≡ task ∷ []))
    ⊎ ((s.is_requesting_device ≡ false) × (s.in_flight ≡ []) × (s.device_request_queue ≡ []))

pub only_one :
    (s : CmUserList) (task : Task) (others : List Task)
    → IsSingle s
    → s.in_flight ≡ task ∷ others
    → s.in_flight ≡ task ∷ []
only_one s task others (inl (busy, now, held, out)) e =
    out ∙ ap (λ (t : Task). t ∷ []) (head-eq_of_cons-eq (sym out ∙ e))
only_one s task others (inr (idle, nothing, none_waits)) e = absurd (cons≢nil (sym e ∙ nothing))

-- the same, before the queue is looked at
abbrev pub IsReady : CmUserList → Type 0
IsReady s =
    ((s.is_requesting_device ≡ true)
      × (task : Task) × (s.current_request ≡ some task)
      × (s.in_flight ≡ task ∷ []))
    ⊎ ((s.is_requesting_device ≡ false) × (s.in_flight ≡ []))

request_from-IsSingle :
    (queue : List Task) (s t : CmUserList)
    → s.device_request_queue ≡ queue
    → IsReady s
    → request_from queue s ≡ some t
    → IsSingle t
unfolding request_from
request_from-IsSingle [] s t e ready h =
    rw (← some-injective s t h)
      (elim ready [ inl busy ↦ inl busy | inr (idle, nothing) ↦ inr (idle, nothing, e) ])
request_from-IsSingle (task ∷ queue) s t e (inl busy) h =
    rw (← some-injective s t (sym (turn_busy s task queue busy.0) ∙ h)) (inl busy)
request_from-IsSingle (task ∷ queue) s t e (inr (idle, nothing)) h =
    elim (Bool-cases (is_some s.current_request)) [
      | inl held ↦ absurd (none-ne-some t (sym (turn_refused s task queue idle held) ∙ h))
      | inr free ↦ elim (Bool-cases (is_nil (s.arrays task.users))) [
        | inl empty ↦
            request_from-IsSingle queue (passed s task queue) t refl (inr (refl, nothing))
              (sym (turn_passed s task queue idle free empty) ∙ h)
        | inr full ↦
            rw
              (← some-injective (launched s task queue) t
                (sym (turn_launched s task queue idle free full) ∙ h))
              (inl (refl, task, refl, ap (λ (f : List Task). f ++ (task ∷ [])) nothing))
      ]
    ]

load_devices_async-IsSingle :
    (s t : CmUserList) (task : Task) → IsSingle s → load_devices_async s task ≡ some t → IsSingle t
load_devices_async-IsSingle s t task single h = elim (Bool-cases (is_nil (s.arrays task.users))) [
  | inl e ↦ subst IsSingle (some-injective s t (sym (load_empty s task e) ∙ h)) single
  | inr e ↦
      let (r, c, f) = queued_kept s task in
      request_from-IsSingle (queued s task).device_request_queue (queued s task) t refl
        (elim single [
          | inl (busy, now, held, out) ↦ inl (r ∙ busy, now, c ∙ held, f ∙ out)
          | inr (idle, nothing, none_waits) ↦ inr (r ∙ idle, f ∙ nothing)
        ])
        (sym (load_queued s task e) ∙ h)
]

module _ (env : EncEnv) (on_user_changed : Handlers) (object : Option JsonObject)
    (task : Task) where
  query_cb-IsSingle :
      (s t : CmUserList) (others : List Task)
      → IsSingle s
      → s.in_flight ≡ task ∷ others
      → device_keys_query_cb env on_user_changed object task s ≡ some t
      → IsSingle t
  unfolding return_task
  query_cb-IsSingle s t others single out h =
      let (next, e, same) = query_cb_next env on_user_changed object task s t h in
      let (idle, free, nothing, _, _) =
        answered_kept env on_user_changed object task s (only_one s task others single out) in
      rw same (
        request_from-IsSingle _ (answered env on_user_changed object task s) next refl
          (inr (idle, nothing)) e)

-- The courses of the list: loads and answers, and whatever else leaves the requests alone, such as
-- the other calls of the list, or rooms that fill their arrays.
pub data Reaches (env : EncEnv) (on_user_changed : Handlers) : CmUserList → Type 0 where
  start :
      {s : CmUserList}
      → s.is_requesting_device ≡ false
      → s.in_flight ≡ []
      → s.device_request_queue ≡ []
      → Reaches env on_user_changed s
  load :
      {s t : CmUserList} (task : Task)
      → Reaches env on_user_changed s
      → load_devices_async s task ≡ some t
      → Reaches env on_user_changed t
  answer :
      {s t : CmUserList} (task : Task) (others : List Task) (object : Option JsonObject)
      → Reaches env on_user_changed s
      → s.in_flight ≡ task ∷ others
      → device_keys_query_cb env on_user_changed object task s ≡ some t
      → Reaches env on_user_changed t
  other :
      {s t : CmUserList}
      → Reaches env on_user_changed s
      → SameRequests s t
      → Reaches env on_user_changed t

-- However loads and answers come, one request for device keys is in flight at most: it is that of the
-- current request, one is in flight exactly where the list is marked as requesting, and no task
-- waits while none is.
pub Reaches-IsSingle :
    (env : EncEnv) (on_user_changed : Handlers) (s : CmUserList)
    → Reaches env on_user_changed s
    → IsSingle s
Reaches-IsSingle env on_user_changed s (start idle nothing none_waits) =
    inr (idle, nothing, none_waits)
Reaches-IsSingle env on_user_changed t (load {s = s} task way h) =
    load_devices_async-IsSingle s t task (Reaches-IsSingle env on_user_changed s way) h
Reaches-IsSingle env on_user_changed t (answer {s = s} task others object way out h) =
    query_cb-IsSingle env on_user_changed object task s t others
      (Reaches-IsSingle env on_user_changed s way) out h
Reaches-IsSingle env on_user_changed t (other {s = s} way (q, c, r, f, w, d)) =
    elim (Reaches-IsSingle env on_user_changed s way) [
      | inl (busy, task, held, out) ↦ inl (r ∙ busy, task, c ∙ held, f ∙ out)
      | inr (idle, nothing, none_waits) ↦ inr (r ∙ idle, f ∙ nothing, q ∙ none_waits)
    ]
