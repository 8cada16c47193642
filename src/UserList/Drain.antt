-- ===== src/UserList/Drain.antt =====
-- Every load of devices returns (src/users/cm-user-list.c): as many answers as there are tasks that
-- wait empty the queue.
use mathlib.Core.Path.{subst}
use mathlib.Core.List.{append_assoc}
use libcmatrix.Base.{
  ℕ, String, ◌≡◌, refl, sym, ap, ◌∙◌, false, Option, none, some, List, [], ◌∷◌, ◌++◌, ◌==◌, All,
  length, arith,
}
use libcmatrix.Base.Table.{lookup}
use libcmatrix.Json.{JsonObject}
use libcmatrix.Json.Access.{object_get_object}
use libcmatrix.Event.{is_some}
use libcmatrix.Enc.{EncEnv}
use libcmatrix.Device.{CmDevice}
use libcmatrix.UserList.{Task, Outcome, CmUserList, is_nil, update}
use libcmatrix.UserList.Queue.{request_from, return_task}
use libcmatrix.UserList.Answer.{
  Handlers, mark_again, load_member, load_members, update_user, keys_members, take_answer, answered,
  device_keys_query_cb, outcome_of,
}
use libcmatrix.UserList.Taken.{launched, turn_launched}
use libcmatrix.UserList.Loads.{answered_kept, query_cb_of}

-- the arrays at the other addresses hold users as before
abbrev pub StayFull : ℕ → CmUserList → CmUserList → Type 0
StayFull users s t =
    (a : ℕ) → (a == users) ≡ false → is_nil (s.arrays a) ≡ false → is_nil (t.arrays a) ≡ false

mark_again-arrays : (refs : List ℕ) (s : CmUserList) → (mark_again s refs).arrays ≡ s.arrays
unfolding mark_again
mark_again-arrays [] s = refl
mark_again-arrays (ref ∷ refs) s = mark_again-arrays refs _

-- The handlers of "user-changed" empty no array.
abbrev pub KeepFull : Handlers → Type 0
KeepFull on_user_changed =
    (s : CmUserList) (ref : ℕ) (added : List CmDevice) (removed : List ℕ) (a : ℕ)
    → is_nil (s.arrays a) ≡ false
    → is_nil (on_user_changed s ref added removed a) ≡ false

module _ (env : EncEnv) (on_user_changed : Handlers) (keep : KeepFull on_user_changed) where
  load_member-StayFull :
      (s : CmUserList) (users : ℕ) (user : Option ℕ) (key : Option JsonObject)
      → StayFull users s (load_member env on_user_changed s users user key)
  unfolding load_member update_user update
  load_member-StayFull s users none key a apart full = full
  load_member-StayFull s users (some ref) key a apart full = rw apart (keep _ ref _ _ a full)

  load_members-StayFull :
      (names : List String) (keys : Option JsonObject) (users : ℕ) (s : CmUserList)
      → StayFull users s (load_members env on_user_changed names keys users s)
  unfolding load_members
  load_members-StayFull [] keys users s a apart full = full
  load_members-StayFull (name ∷ names) keys users s a apart full =
      load_members-StayFull names keys users _ a apart (
        load_member-StayFull s users (lookup s.users_table name)
          (object_get_object keys (some name)) a apart full)

  take_answer-StayFull :
      (answer : Option JsonObject) (users : ℕ) (s : CmUserList)
      → StayFull users s (take_answer env on_user_changed answer users s)
  unfolding take_answer
  take_answer-StayFull none users s a apart full = rw (mark_again-arrays (s.arrays users) s) full
  take_answer-StayFull (some answer) users s a apart full =
      let keys = object_get_object (some answer) (some "device_keys") in
      load_members-StayFull (keys_members keys) keys users s a apart full

-- Each task has an array of its own, which holds users.
abbrev pub AreApart : List Task → Type 0
AreApart [] = Unit
AreApart (task ∷ tasks) =
    All (λ (other : Task). (other.users == task.users) ≡ false) tasks × AreApart tasks

abbrev pub AreFull : CmUserList → List Task → Type 0
AreFull s tasks = All (λ (task : Task). is_nil (s.arrays task.users) ≡ false) tasks

-- an answer to the request in flight, where there is one
abbrev pub answer_next :
    EncEnv → Handlers → Option JsonObject → List Task → CmUserList → Option CmUserList
answer_next env on_user_changed object [] s = some s
answer_next env on_user_changed object (task ∷ tasks) s =
    device_keys_query_cb env on_user_changed object task s

abbrev pub and_then : Option CmUserList → (CmUserList → Option CmUserList) → Option CmUserList
and_then none f = none
and_then (some s) f = f s

-- the answers of the server, one after the other
abbrev pub answers : EncEnv → Handlers → List (Option JsonObject) → CmUserList → Option CmUserList
answers env on_user_changed [] s = some s
answers env on_user_changed (object ∷ objects) s =
    and_then (answer_next env on_user_changed object s.in_flight s)
      (answers env on_user_changed objects)

-- the outcomes of the tasks, in their order
abbrev pub served : List (Option JsonObject) → List Task → List (Task × Outcome)
served [] tasks = []
served (object ∷ objects) [] = []
served (object ∷ objects) (task ∷ tasks) = (task, outcome_of object task) ∷ served objects tasks

request_nil : (u : CmUserList) (queue : List Task) → queue ≡ [] → request_from queue u ≡ some u
unfolding request_from
request_nil u queue e = rw e refl

module _ (env : EncEnv) (on_user_changed : Handlers) (object : Option JsonObject) (task : Task)
    (s : CmUserList) where
  abbrev after : CmUserList
  after = answered env on_user_changed object task s

  -- an answer where no task waits
  answer_last :
      s.in_flight ≡ task ∷ []
      → s.device_request_queue ≡ []
      → (t : CmUserList) × (device_keys_query_cb env on_user_changed object task s ≡ some t)
        × (t.in_flight ≡ [])
        × (t.device_request_queue ≡ [])
        × (t.returned ≡ s.returned ++ ((task, outcome_of object task) ∷ []))
  unfolding return_task
  answer_last out none_waits =
      let (idle, free, nothing, queue, done) =
        answered_kept env on_user_changed object task s out in
      (
        return_task after task (outcome_of object task),
        query_cb_of env on_user_changed object task s after
            (request_nil after after.device_request_queue (queue ∙ none_waits)),
        nothing,
        queue ∙ none_waits,
        ap (λ (d : List (Task × Outcome)). d ++ ((task, outcome_of object task) ∷ [])) done,
      )

  after_full :
      (tasks : List Task)
      → KeepFull on_user_changed
      → All (λ (other : Task). (other.users == task.users) ≡ false) tasks
      → AreFull s tasks
      → AreFull after tasks
  unfolding answered
  after_full [] keep apart full = tt
  after_full (next ∷ tasks) keep apart full = (
    take_answer-StayFull env on_user_changed keep object task.users s next.users apart.0 full.0,
    after_full tasks keep apart.1 full.1,
  )

  -- an answer where tasks wait: the request of the next one is sent
  answer_more :
      (next : Task) (queue : List Task)
      → KeepFull on_user_changed
      → s.in_flight ≡ task ∷ []
      → s.device_request_queue ≡ next ∷ queue
      → AreApart (task ∷ next ∷ queue)
      → AreFull s (next ∷ queue)
      → (t : CmUserList) × (device_keys_query_cb env on_user_changed object task s ≡ some t)
        × (t.in_flight ≡ next ∷ [])
        × (t.device_request_queue ≡ queue)
        × (t.returned ≡ s.returned ++ ((task, outcome_of object task) ∷ []))
        × AreFull t queue
  unfolding return_task is_some
  answer_more next queue keep out waits apart full =
      let (idle, free, nothing, same, done) = answered_kept env on_user_changed object task s out in
      let ready = after_full (next ∷ queue) keep apart.0 full in
      let sends = turn_launched after next queue idle (ap is_some free) ready.0 in
      (
        return_task (launched after next queue) task (outcome_of object task),
        query_cb_of env on_user_changed object task s (launched after next queue) (
            subst (λ (q : List Task). request_from q after ≡ some (launched after next queue))
              (sym (same ∙ waits)) sends),
        ap (λ (f : List Task). f ++ (next ∷ [])) nothing,
        refl,
        ap (λ (d : List (Task × Outcome)). d ++ ((task, outcome_of object task) ∷ [])) done,
        ready.1,
      )

answers_cons :
    (env : EncEnv) (on_user_changed : Handlers) (object : Option JsonObject)
    (objects : List (Option JsonObject)) (task : Task) (s u : CmUserList)
    → s.in_flight ≡ task ∷ []
    → device_keys_query_cb env on_user_changed object task s ≡ some u
    → answers env on_user_changed (object ∷ objects) s ≡ answers env on_user_changed objects u
answers_cons env h object objects task s u out run =
    ap (λ (f : List Task). and_then (answer_next env h object f s) (answers env h objects)) out
    ∙ ap (λ (o : Option CmUserList). and_then o (answers env h objects)) run

abbrev pub IsDrained : CmUserList → List (Task × Outcome) → CmUserList → Type 0
IsDrained s outcomes t =
    (t.in_flight ≡ []) × (t.device_request_queue ≡ []) × (t.returned ≡ s.returned ++ outcomes)

-- Where a request is in flight, each waiting task has an array of its own with users in it, and the
-- handlers of "user-changed" empty no array: as many answers as there are tasks, of whatever kind,
-- are all taken without a failed assertion, and then nothing is in flight, nothing waits, and every
-- task has returned its own outcome in the order of the loads.
pub answers-IsDrained :
    (env : EncEnv) (on_user_changed : Handlers) (object : Option JsonObject)
    (objects : List (Option JsonObject)) (task : Task) (queue : List Task) (s : CmUserList)
    → KeepFull on_user_changed
    → length objects ≡ length queue
    → s.in_flight ≡ task ∷ []
    → s.device_request_queue ≡ queue
    → AreApart (task ∷ queue)
    → AreFull s queue
    → (t : CmUserList) × (answers env on_user_changed (object ∷ objects) s ≡ some t)
      × IsDrained s (served (object ∷ objects) (task ∷ queue)) t
answers-IsDrained env h object [] task [] s keep same out waits apart full =
    let (t, run, nothing, none_waits, done) = answer_last env h object task s out waits in
    (t, answers_cons env h object [] task s t out run, (nothing, none_waits, done))
answers-IsDrained env h object (o ∷ objects) task [] s keep same out waits apart full =
    absurd ((omega (arith, same)))
answers-IsDrained env h object [] task (next ∷ queue) s keep same out waits apart full =
    absurd ((omega (arith, same)))
answers-IsDrained env h object (o ∷ objects) task (next ∷ queue) s keep same out waits apart full =
    let (u, run, sent, waits', done, full') =
      answer_more env h object task s next queue keep out waits apart full in
    let (t, rest, (nothing, none_waits, done')) =
      answers-IsDrained env h o objects next queue u keep (omega (arith, same)) sent waits' apart.1
        full' in
    (
      t,
      answers_cons env h object (o ∷ objects) task s u out run ∙ rest,
      (
        nothing,
        none_waits,
        done'
            ∙ ap (λ (d : List (Task × Outcome)). d ++ served (o ∷ objects) (next ∷ queue)) done
            ∙ append_assoc s.returned _ _,
      ),
    )
