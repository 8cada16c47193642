-- ===== src/UserList/Answer.antt =====
-- The answer to a request for device keys: device_keys_query_cb of src/users/cm-user-list.c.
use libcmatrix.Base.{ℕ, String, false, Option, none, some, List, [], ◌∷◌, ◌==◌, if◌then◌else◌}
use libcmatrix.Base.Table.{lookup, insert}
use libcmatrix.Json.{JsonObject, get_members}
use libcmatrix.Json.Access.{object_get_object}
use libcmatrix.Enc.{EncEnv}
use libcmatrix.Device.{CmDevice}
use libcmatrix.User.{Changes, set_devices}
use libcmatrix.UserList.{Task, Outcome, failed, pointer, CmUserList, user_id_at, update}
use libcmatrix.UserList.Queue.{return_task, request_device_keys_from_queue}

-- the users of a request that failed are marked again
unfoldable pub mark_again : CmUserList → List ℕ → CmUserList
mark_again self [] = self
mark_again self (ref ∷ refs) =
    mark_again
      (record self { changed_users = insert self.changed_users (user_id_at self ref) (some ref) })
      refs

-- g_ptr_array_remove
unfoldable pub remove_user : List ℕ → ℕ → List ℕ
remove_user [] user = []
remove_user (ref ∷ refs) user = if ref == user then refs else ref ∷ remove_user refs user

-- What the handlers of "user-changed" make of the arrays: the rooms hold the arrays that they load.
abbrev pub Handlers : Type 0
Handlers = CmUserList → ℕ → List CmDevice → List ℕ → ℕ → List ℕ

unfoldable pub keys_members : Option JsonObject → List String
unfolding get_members
keys_members none = []
keys_members (some keys) = get_members keys

unfoldable pub outcome_of : Option JsonObject → Task → Outcome
outcome_of none task = failed
outcome_of (some answer) task = pointer (some task.users)

-- the task returns once the next request was taken
unfoldable pub return_after : Option JsonObject → Task → Option CmUserList → Option CmUserList
unfolding return_task outcome_of
return_after answer task none = none
return_after answer task (some next) = some (return_task next task (outcome_of answer task))

unfoldable pub without_task : List Task → ℕ → List Task
without_task [] number = []
without_task (task ∷ tasks) number =
    if task.number == number then tasks else task ∷ without_task tasks number

module _ (env : EncEnv) (on_user_changed : Handlers) where
  -- cm_user_set_devices, which does nothing without an object
  unfoldable pub changes_of : CmUserList → ℕ → Option JsonObject → Changes
  unfolding set_devices
  changes_of self ref none = record {
    user = self.users ref;
    next = self.next;
    added = [];
    removed = [];
  }
  changes_of self ref (some key) = set_devices env self.next (self.users ref) key

  unfoldable pub update_user : CmUserList → ℕ → ℕ → Option JsonObject → CmUserList
  unfolding changes_of update remove_user
  update_user self users ref key =
      let changes = changes_of self ref key in
      let set = record self { users = update self.users ref changes.user; next = changes.next } in
      let arrays = on_user_changed set ref changes.added changes.removed in
      record set { arrays = update arrays users (remove_user (arrays users) ref) }

  unfoldable pub load_member : CmUserList → ℕ → Option ℕ → Option JsonObject → CmUserList
  unfolding update_user
  load_member self users none key = self
  load_member self users (some ref) key = update_user self users ref key

  -- the loop over the members of "device_keys"
  unfoldable pub load_members : List String → Option JsonObject → ℕ → CmUserList → CmUserList
  unfolding load_member
  load_members [] keys users self = self
  load_members (name ∷ names) keys users self =
      load_members names keys users
        (load_member self users (lookup self.users_table name) (object_get_object keys (some name)))

  -- what the answer of the server changes; `none` is an error
  unfoldable pub take_answer : Option JsonObject → ℕ → CmUserList → CmUserList
  unfolding mark_again load_members keys_members
  take_answer none users self = mark_again self (self.arrays users)
  take_answer (some answer) users self =
      let keys = object_get_object (some answer) (some "device_keys") in
      load_members (keys_members keys) keys users self

  -- what device_keys_query_cb leaves before it takes the next request
  unfoldable pub answered : Option JsonObject → Task → CmUserList → CmUserList
  unfolding take_answer without_task
  answered answer task self = record (take_answer answer task.users self) {
    in_flight = without_task self.in_flight task.number;
    current_request = none;
    is_requesting_device = false;
  }

  -- device_keys_query_cb
  unfoldable pub device_keys_query_cb : Option JsonObject → Task → CmUserList → Option CmUserList
  unfolding answered request_device_keys_from_queue return_after
  device_keys_query_cb answer task self =
      return_after answer task (request_device_keys_from_queue (answered answer task self))
