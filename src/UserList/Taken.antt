-- ===== src/UserList/Taken.antt =====
-- What a task is when its turn comes (request_device_keys_from_queue of src/users/cm-user-list.c).
use libcmatrix.Event.{is_some}
use libcmatrix.Base.{
  ◌∙◌, Bool, none, false, Option, ◌++◌, map, if◌then◌else◌, ℕ, ◌≡◌, refl, ap, true, some, List, [],
  ◌∷◌, ◌==◌, arith, ==_iff, Bool-cases, inl, inr,
}
use libcmatrix.Base.Table.{remove}
use libcmatrix.UserList.{is_nil, pointer, Task, CmUserList, user_id_at, update}
use libcmatrix.UserList.Queue.{
  request_from, return_task, send_query, keeps, in_request, old_users, listed_users,
  remove_unlisted_users, forget_changed, take_task,
}

forget_changed_only :
    (refs : List ℕ) (self : CmUserList)
    → forget_changed self refs
      ≡ record self { changed_users = (forget_changed self refs).changed_users }
unfolding forget_changed
forget_changed_only [] self = refl
forget_changed_only (ref ∷ refs) self =
    forget_changed_only refs
      (record self { changed_users = remove self.changed_users (user_id_at self ref) })

-- the array of the current request keeps every user
keeps-current :
    (self : CmUserList) (task : Task) (ref : ℕ)
    → self.current_request ≡ some task
    → keeps self task.users ref ≡ true
unfolding keeps in_request old_users
keeps-current self task ref e = rw e (ground (arith, ==_iff task.users task.users))

listed_users-current :
    (self : CmUserList) (task : Task) (refs : List ℕ)
    → self.current_request ≡ some task
    → listed_users self task.users refs ≡ refs
unfolding listed_users
listed_users-current self task [] e = refl
listed_users-current self task (ref ∷ refs) e =
    rw (keeps-current self task ref e)
      (ap (λ (rs : List ℕ). ref ∷ rs) (listed_users-current self task refs e))

update_same {ℓ} : {A : Type ℓ} (f : ℕ → A) (at : ℕ) (i : ℕ) → update f at (f at) i ≡ f i
unfolding update
update_same f at i = elim (Bool-cases (i == at)) [
  | inl e ↦ rw (e, (==_iff i at).0 e) refl
  | inr e ↦ rw e refl
]

-- The task that is taken from the queue becomes the current request before its array is looked
-- through, so that no user leaves the array: beside the queue and the current request, only the marks
-- of changed users are different.
pub take_task_only :
    (self : CmUserList) (task : Task) (queue : List Task)
    → take_task self task queue ≡ record self {
      is_requesting_device = true;
      device_request_queue = queue;
      current_request = some task;
      changed_users = (take_task self task queue).changed_users;
    }
unfolding take_task remove_unlisted_users
take_task_only self task queue =
    let taken = record self {
      is_requesting_device = true;
      device_request_queue = queue;
      current_request = some task;
    } in
    let only = forget_changed_only (self.arrays task.users) taken in
    let forgotten = record taken {
      changed_users = (forget_changed taken (self.arrays task.users)).changed_users;
    } in
    rw (only, listed_users-current forgotten task (self.arrays task.users) refl)
      (λ i. record forgotten { arrays = λ a. update_same self.arrays task.users a i })

-- the state when a task was taken and its array is empty
abbrev pub passed : CmUserList → Task → List Task → CmUserList
passed self task queue = record self {
  is_requesting_device = false;
  device_request_queue = queue;
  current_request = some task;
  changed_users = (take_task self task queue).changed_users;
  returned = self.returned ++ ((task, pointer none) ∷ []);
}

-- the state when a task was taken and its request was sent
abbrev pub launched : CmUserList → Task → List Task → CmUserList
launched self task queue = record self {
  is_requesting_device = true;
  device_request_queue = queue;
  current_request = some task;
  changed_users = (take_task self task queue).changed_users;
  in_flight = self.in_flight ++ (task ∷ []);
  sent = self.sent ++ (map (user_id_at self) (self.arrays task.users) ∷ []);
}

-- One turn of the queue: the states that it can lead to, written out.
pub request_from_cons :
    (self : CmUserList) (task : Task) (queue : List Task)
    → request_from (task ∷ queue) self ≡ (
        if self.is_requesting_device
        then some self
        else if is_some self.current_request
        then none
        else if is_nil (self.arrays task.users)
        then request_from queue (passed self task queue)
        else some (launched self task queue))
unfolding request_from return_task send_query user_id_at
request_from_cons self task queue = ap turn (take_task_only self task queue)
  where
    turn : CmUserList → Option CmUserList
    turn taken =
        if self.is_requesting_device
        then some self
        else if is_some self.current_request
        then none
        else if is_nil (taken.arrays task.users)
        then request_from queue
            (record (return_task taken task (pointer none)) { is_requesting_device = false })
        else some (send_query taken task)

module _ (self : CmUserList) (task : Task) (queue : List Task) where
  -- the four ways of a turn, by the tests that it makes
  abbrev way : Bool → Bool → Bool → Option CmUserList
  way busy current empty =
      if busy
      then some self
      else if current
      then none
      else if empty
      then request_from queue (passed self task queue)
      else some (launched self task queue)

  pub turn_busy : self.is_requesting_device ≡ true → request_from (task ∷ queue) self ≡ some self
  turn_busy busy =
      request_from_cons self task queue
      ∙ ap (λ b. way b (is_some self.current_request) (is_nil (self.arrays task.users))) busy

  -- A task whose turn comes while another is still held as the current request stops the program.
  pub turn_refused :
      self.is_requesting_device ≡ false
      → is_some self.current_request ≡ true
      → request_from (task ∷ queue) self ≡ none
  turn_refused idle held =
      request_from_cons self task queue
      ∙ ap (λ b. way b (is_some self.current_request) (is_nil (self.arrays task.users))) idle
      ∙ ap (λ b. way false b (is_nil (self.arrays task.users))) held

  turn_taken :
      self.is_requesting_device ≡ false
      → is_some self.current_request ≡ false
      → request_from (task ∷ queue) self ≡ way false false (is_nil (self.arrays task.users))
  turn_taken idle free =
      request_from_cons self task queue
      ∙ ap (λ b. way b (is_some self.current_request) (is_nil (self.arrays task.users))) idle
      ∙ ap (λ b. way false b (is_nil (self.arrays task.users))) free

  pub turn_passed :
      self.is_requesting_device ≡ false
      → is_some self.current_request ≡ false
      → is_nil (self.arrays task.users) ≡ true
      → request_from (task ∷ queue) self ≡ request_from queue (passed self task queue)
  turn_passed idle free empty = turn_taken idle free ∙ ap (way false false) empty

  pub turn_launched :
      self.is_requesting_device ≡ false
      → is_some self.current_request ≡ false
      → is_nil (self.arrays task.users) ≡ false
      → request_from (task ∷ queue) self ≡ some (launched self task queue)
  turn_launched idle free full = turn_taken idle free ∙ ap (way false false) full
