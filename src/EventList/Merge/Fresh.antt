-- ===== src/EventList/Merge/Fresh.antt =====
-- The events that cm_room_event_list_add_events of src/events/cm-room-event-list.c adds.
use mathlib.Core.List.{Mem, mem-cons, mem-cons_of_mem, mem-cons_self, reverse, not-mem-nil}
use mathlib.Core.Logic.Or
use libcmatrix.Base.{
  String, ◌≡◌, ◌↔◌, refl, sym, ◌∙◌, Bool, false, Bool-cases, inl, inr, Option, some, List, [], ◌∷◌,
  ◌++◌, map, if◌then◌else◌,
}
use mathlib.Core.Bool.{false≢true}
use libcmatrix.Base.Text.{strcmp0_eq}
use libcmatrix.EventList.Store.{Item, get_last_item}
use libcmatrix.EventList.Defs.{Room, CmRoomEventList}
use libcmatrix.EventList.Merge.{id_of, without_id, new_events, add_events, find_sender}

-- the event has another id, or just one of the two has none
abbrev pub HasOtherId : Option String → Item → Type 0
HasOtherId id x = strcmp0_eq (id_of x) id ≡ false

without_id-HasOtherId :
    (id : Option String) (xs : List Item) (x : Item) → Mem x (without_id id xs) → HasOtherId id x
unfolding without_id
without_id-HasOtherId id [] x m = absurd (not-mem-nil m)
without_id-HasOtherId id (y ∷ xs) x m = elim (Bool-cases (strcmp0_eq (id_of y) id)) [
  | inl e ↦ without_id-HasOtherId id xs x (rw e at m)
  | inr e ↦
      Or.elim (hlevel) (mem-cons.0 (rw e at m)) (λ q. rw q e) (λ k. without_id-HasOtherId id xs x k)
]

without_id-keeps :
    (id : Option String) (xs : List Item) (x : Item)
    → Mem x xs
    → HasOtherId id x
    → Mem x (without_id id xs)
unfolding without_id
without_id-keeps id [] x m h = absurd (not-mem-nil m)
without_id-keeps id (y ∷ xs) x m h = elim (Bool-cases (strcmp0_eq (id_of y) id)) [
  | inl e ↦ rw e (
      Or.elim (hlevel) (mem-cons.0 m) (λ q. absurd (false≢true (sym h ∙ rw q e)))
        (λ k. without_id-keeps id xs x k h))
  | inr e ↦ rw e (
      Or.elim (hlevel) (mem-cons.0 m) (λ q. rw q mem-cons_self)
        (λ k. mem-cons_of_mem y (without_id-keeps id xs x k h)))
]

without_id-only :
    (id : Option String) (xs : List Item) (x : Item) → Mem x (without_id id xs) → Mem x xs
unfolding without_id
without_id-only id [] x m = m
without_id-only id (y ∷ xs) x m = elim (Bool-cases (strcmp0_eq (id_of y) id)) [
  | inl e ↦ mem-cons_of_mem y (without_id-only id xs x (rw e at m))
  | inr e ↦
      Or.elim (hlevel) (mem-cons.0 (rw e at m)) (λ q. rw q mem-cons_self)
        (λ k. mem-cons_of_mem y (without_id-only id xs x k))
]

-- Events that are added to a list with a last event go to the end in their order or to the front in
-- reverse, next to the events that the list holds; and an event is among them exactly where it is in
-- the array (with its sender found) and its id is not the id of the last event.
pub add_events-fresh :
    (room : Room) (self : CmRoomEventList) (last x e : Item) (xs : List Item) (append : Bool)
    → get_last_item self.events_list ≡ some last
    → ((add_events room self (x ∷ xs) append).0.events_list ≡ (
        if append
        then self.events_list ++ (add_events room self (x ∷ xs) append).1
        else reverse (add_events room self (x ∷ xs) append).1 ++ self.events_list))
      × (Mem e (add_events room self (x ∷ xs) append).1
          ↔ (Mem e (map (find_sender room) (x ∷ xs)) × HasOtherId (id_of last) e))
unfolding add_events new_events
add_events-fresh room self last x e xs append h =
    let events = map (find_sender room) (x ∷ xs) in
    let id = id_of last in
    (
      refl,
      (
        λ m.
            let k = rw (h, new_events) at m in
            (without_id-only id events e k, without_id-HasOtherId id events e k),
        λ (m, k). rw (h, new_events) (without_id-keeps id events e m k),
      ),
    )
