-- ===== src/UserList/Queue.antt =====
-- The queue of requests for device keys: cm_user_list_load_devices_async, remove_unlisted_users,
-- and request_device_keys_from_queue of src/users/cm-user-list.c. A failed
-- g_assert is `none`.
use libcmatrix.Base.{
  ℕ, String, Bool, true, false, Option, none, some, List, [], ◌∷◌, ◌++◌, ◌==◌, ◌||◌, map,
  if◌then◌else◌,
}
use libcmatrix.Base.Int.{pos}
use libcmatrix.Base.Table.{remove, contains}
use libcmatrix.Json.{JsonObject, array, object, int, nil, end, set_member}
use libcmatrix.Event.{is_some}
use libcmatrix.UserList.{Task, Outcome, pointer, CmUserList, user_id_at, update, is_nil}

-- The address of an object or of a text; they are never the same.
pub data Address : Type 0 where
  at_user : ℕ → Address
  at_text : String → Address

abbrev same_address : ℕ → Address → Bool
same_address ref (at_user other) = ref == other
same_address ref (at_text text) = false

-- g_ptr_array_find
unfoldable pub find_address : List ℕ → Address → Bool
find_address [] address = false
find_address (ref ∷ refs) address = same_address ref address || find_address refs address

-- the address of the array of the current request
unfoldable pub old_users : CmUserList → Option ℕ
old_users self = elim self.current_request [ none ↦ none | some task ↦ some task.users ]

-- `users == old_users || (old_users && g_ptr_array_find (old_users, user_id, NULL))`
unfoldable pub in_request : CmUserList → ℕ → String → Option ℕ → Bool
unfolding find_address
in_request self users user_id none = false
in_request self users user_id (some old) =
    users == old || find_address (self.arrays old) (at_text user_id)

unfoldable pub keeps : CmUserList → ℕ → ℕ → Bool
unfolding in_request old_users
keeps self users ref =
    contains self.changed_users (user_id_at self ref)
    || is_nil (self.users ref).devices
    || in_request self users (user_id_at self ref) (old_users self)

unfoldable pub listed_users : CmUserList → ℕ → List ℕ → List ℕ
unfolding keeps
listed_users self users [] = []
listed_users self users (ref ∷ refs) =
    let rest = listed_users self users refs in if keeps self users ref then ref ∷ rest else rest

unfoldable pub remove_unlisted_users : CmUserList → ℕ → CmUserList
unfolding listed_users update
remove_unlisted_users self users = record self {
  arrays = update self.arrays users (listed_users self users (self.arrays users));
}

unfoldable pub forget_changed : CmUserList → List ℕ → CmUserList
forget_changed self [] = self
forget_changed self (ref ∷ refs) =
    forget_changed (record self { changed_users = remove self.changed_users (user_id_at self ref) })
      refs

-- the object of a request, and the ids that it asks for
unfoldable pub query_users : List String → JsonObject → JsonObject
query_users [] child = child
query_users (id ∷ ids) child = query_users ids (set_member child id (array nil))

unfoldable pub query_json : List String → JsonObject
unfolding query_users
query_json ids =
    set_member (set_member end "timeout" (int (pos 10000))) "device_keys"
      (object (query_users ids end))

-- g_task_return_pointer or g_task_return_error
unfoldable pub return_task : CmUserList → Task → Outcome → CmUserList
return_task self task outcome = record self { returned = self.returned ++ ((task, outcome) ∷ []) }

-- cm_net_send_json_async for the task
unfoldable pub send_query : CmUserList → Task → CmUserList
send_query self task = record self {
  in_flight = self.in_flight ++ (task ∷ []);
  sent = self.sent ++ (map (user_id_at self) (self.arrays task.users) ∷ []);
}

-- the state once the first task is taken from the queue
unfoldable pub take_task : CmUserList → Task → List Task → CmUserList
unfolding forget_changed remove_unlisted_users
take_task self task queue =
    let taken = record self {
      is_requesting_device = true;
      device_request_queue = queue;
      current_request = some task;
    } in
    remove_unlisted_users (forget_changed taken (self.arrays task.users)) task.users

-- request_device_keys_from_queue; the list is the queue, which the function takes tasks from
unfoldable pub request_from : List Task → CmUserList → Option CmUserList
unfolding take_task return_task send_query
request_from [] self = some self
request_from (task ∷ queue) self =
    let taken = take_task self task queue in
    let repeat =
      request_from queue
        (record (return_task taken task (pointer none)) { is_requesting_device = false }) in
    if self.is_requesting_device
    then some self
    else if is_some self.current_request
    then none
    else if is_nil (taken.arrays task.users)
    then repeat
    else some (send_query taken task)

unfoldable pub request_device_keys_from_queue : CmUserList → Option CmUserList
unfolding request_from
request_device_keys_from_queue self = request_from self.device_request_queue self

unfoldable pub queue_task : CmUserList → Task → CmUserList
unfolding return_task
queue_task self task =
    if is_nil (self.arrays task.users)
    then return_task self task (pointer none)
    else record self { device_request_queue = self.device_request_queue ++ (task ∷ []) }

-- cm_user_list_load_devices_async; a call with an empty array does nothing
unfoldable pub load_devices_async : CmUserList → Task → Option CmUserList
unfolding remove_unlisted_users queue_task request_device_keys_from_queue
load_devices_async self task =
    if is_nil (self.arrays task.users)
    then some self
    else request_device_keys_from_queue (queue_task (remove_unlisted_users self task.users) task)
