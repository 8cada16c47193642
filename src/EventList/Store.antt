-- ===== src/EventList/Store.antt =====
-- List stores of objects: cm_utils_get_item_position and cm_utils_remove_list_item of
-- src/cm-utils.c. An object is told from another by its address, `ref`.
use mathlib.Core.Bool.{Bool, true, false}
use libcmatrix.Base.{ℕ, suc, Option, none, some, List, [], ◌∷◌, ◌==◌, if◌then◌else◌}
use libcmatrix.RoomEvent.{CmRoomEvent}

pub record Item : Type 0 where
  pub ref : ℕ
  pub event : CmRoomEvent

-- the first position from `i` on at which the object stands
unfoldable pub position_from : ℕ → List Item → ℕ → Option ℕ
position_from i [] ref = none
position_from i (x ∷ xs) ref = if x.ref == ref then some i else position_from (suc i) xs ref

unfoldable pub get_item_position : List Item → ℕ → Option ℕ
unfolding position_from
get_item_position items ref = position_from 0 items ref

unfoldable pub remove_first : List Item → ℕ → List Item × Bool
remove_first [] ref = ([], false)
remove_first (x ∷ xs) ref =
    let (rest, removed) = remove_first xs ref in
    if x.ref == ref then (xs, true) else (x ∷ rest, removed)

-- a NULL object is in no list
unfoldable pub remove_list_item : List Item → Option ℕ → List Item × Bool
unfolding remove_first
remove_list_item items none = (items, false)
remove_list_item items (some ref) = remove_first items ref

-- g_list_model_get_item at the last index, or at 0 of an empty list
unfoldable pub get_last_item : List Item → Option Item
get_last_item [] = none
get_last_item (x ∷ []) = some x
get_last_item (x ∷ y ∷ ys) = get_last_item (y ∷ ys)
