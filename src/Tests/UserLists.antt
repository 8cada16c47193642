-- ===== src/Tests/UserLists.antt =====
-- Loads of devices and their answers.
use libcmatrix.Base.{
  ℕ, String, ◌≡◌, ◌≢◌, refl, sym, ap, ◌∙◌, true, false, Bool, Option, none, some, List, [], ◌∷◌,
  ◌==◌, not, any, ◌||◌, inr, if◌then◌else◌,
}
use libcmatrix.Base.Table.{contains, remove, insert}
use libcmatrix.Event.{is_some}
use libcmatrix.User.{CmUser}
use libcmatrix.UserList.{Task, CmUserList, is_nil, update, user_id_at}
use libcmatrix.UserList.Queue.{
  request_from, request_device_keys_from_queue, load_devices_async, queue_task,
  remove_unlisted_users, listed_users, keeps,
}
use libcmatrix.UserList.Answer.{Handlers, device_keys_query_cb}
use libcmatrix.UserList.Single.{IsSingle, start, load, Reaches-IsSingle}
use libcmatrix.UserList.Drain.{KeepFull, answers, IsDrained, served, answers-IsDrained}
use libcmatrix.Tests.Users.{sample_enc}

-- the users 10 and 11 have no devices yet; the arrays 1 and 2 hold one of them each
abbrev no_devices : ℕ → CmUser
no_devices ref = record {
  ref = ref;
  user_id = some (if ref == 10 then "@a:x" else "@b:x");
  devices = [];
  devices_table = [];
}

abbrev sample_arrays : ℕ → List ℕ
sample_arrays a = if a == 1 then 10 ∷ [] else if a == 2 then 11 ∷ [] else []

abbrev task_at : ℕ → ℕ → Task
task_at number users = record { number = number; users = users }

-- a list with a request in flight, or none, and a queue
abbrev list_with : Bool → List Task → List Task → CmUserList
list_with busy in_flight queue = record {
  users = no_devices;
  arrays = sample_arrays;
  next = 20;
  users_table = ("@a:x", 10) ∷ ("@b:x", 11) ∷ [];
  changed_users = [];
  device_request_queue = queue;
  current_request = if busy then some (task_at 1 1) else none;
  is_requesting_device = busy;
  in_flight = in_flight;
  sent = [];
  returned = [];
}

abbrev busy_list : CmUserList
busy_list = list_with true (task_at 1 1 ∷ []) (task_at 2 2 ∷ [])

abbrev or_idle : Option CmUserList → CmUserList
or_idle none = list_with false [] []
or_idle (some s) = s

-- handlers that change no array
abbrev quiet : Handlers
quiet s ref added removed = s.arrays

quiet-KeepFull : KeepFull quiet
quiet-KeepFull s ref added removed a full = full

answers-IsDrained_example :
    (t : CmUserList) × (answers sample_enc quiet (none ∷ none ∷ []) busy_list ≡ some t)
    × IsDrained busy_list (served (none ∷ none ∷ []) (task_at 1 1 ∷ task_at 2 2 ∷ [])) t
unfolding is_nil
answers-IsDrained_example =
    answers-IsDrained sample_enc quiet none (none ∷ []) (task_at 1 1) (task_at 2 2 ∷ []) busy_list
      quiet-KeepFull refl refl refl ((refl, tt), (tt, tt)) (refl, tt)

after_load : CmUserList
after_load = or_idle (load_devices_async (list_with false [] []) (task_at 1 1))

loads : load_devices_async (list_with false [] []) (task_at 1 1) ≡ some after_load
unfolding after_load load_devices_async request_device_keys_from_queue request_from queue_task
    remove_unlisted_users listed_users update is_nil is_some keeps contains remove insert user_id_at
loads = refl

Reaches-IsSingle_example : IsSingle after_load
Reaches-IsSingle_example =
    Reaches-IsSingle sample_enc quiet after_load
      (load (task_at 1 1) (start {s = list_with false [] []} refl refl refl) loads)

after_answer : CmUserList
after_answer = or_idle (device_keys_query_cb sample_enc quiet none (task_at 1 1) busy_list)

-- a load while a request is in flight
after_second : CmUserList
after_second = or_idle (load_devices_async busy_list (task_at 3 2))
