-- ===== src/UserList/Fifo.antt =====
-- The list as a queue of tasks (src/users/cm-user-list.c): what a caller that loads devices can rely on.
use libcmatrix.Base.{◌≡◌, Option, none, List, [], ◌∷◌, ◌++◌}
use libcmatrix.UserList.{Task, Outcome, pointer, CmUserList}

-- The abstract queue: the tasks that wait, in the order of their loads, and what was returned.
pub record TaskQueue : Type 0 where
  pub waiting : List Task
  pub done : List (Task × Outcome)

abbrev pub view : CmUserList → TaskQueue
view s = record { waiting = s.in_flight ++ s.device_request_queue; done = s.returned }

-- tasks that had nothing to load
abbrev pub nothing_to_load : List Task → List (Task × Outcome)
nothing_to_load [] = []
nothing_to_load (task ∷ tasks) = (task, pointer none) ∷ nothing_to_load tasks

-- the first tasks of `queue` return with nothing to load, and the others keep their order
abbrev pub Requested : List Task → CmUserList → CmUserList → Type 0
Requested queue s t =
    (early : List Task) × (rest : List Task) × (queue ≡ early ++ rest)
    × (t.in_flight ++ t.device_request_queue ≡ s.in_flight ++ rest)
    × (t.returned ≡ s.returned ++ nothing_to_load early)

-- the task joins the end of the abstract queue
abbrev pub Joins : TaskQueue → Task → TaskQueue → Type 0
Joins q task r = (r.waiting ≡ q.waiting ++ (task ∷ [])) × (r.done ≡ q.done)

-- the task returns with nothing to load
abbrev pub ReturnsAtOnce : TaskQueue → Task → TaskQueue → Type 0
ReturnsAtOnce q task r = (r.waiting ≡ q.waiting) × (r.done ≡ q.done ++ ((task, pointer none) ∷ []))
