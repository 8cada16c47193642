-- ===== src/EventList/Parse/Past.antt =====
-- cm_room_event_list_parse_events of src/events/cm-room-event-list.c for events of the past.
use mathlib.Core.List.{append_assoc, append-nil}
use libcmatrix.Base.{
  ◌≡◌, String, suc, refl, sym, ap, ◌∙◌, Bool, true, not, Option, none, some, inl, inr, List, [],
  ◌∷◌, ◌++◌, map, arith, Option-cases,
}
use libcmatrix.Json.{JsonNode, JsonObject}
use libcmatrix.Json.Glib.{JsonGlib}
use libcmatrix.Json.Access.{as_object}
use libcmatrix.Event.{is_some, get_sender_id}
use libcmatrix.RoomEvent.{CmRoomEvent}
use libcmatrix.EventList.Store.{Item}
use libcmatrix.EventList.Defs.{Room, CmRoomEventList}
use libcmatrix.EventList.Merge.{remove_event_with_txn_id, add_events, asked}
use libcmatrix.EventList.Parse.{
  RoomCall, find_user, Parse, collect, parse_made, parse_loop, parse_events, add_collected,
  new_event, event_array,
}

-- all of a list but its messages
abbrev pub state_of : CmRoomEventList → CmRoomEventList
state_of l = record l { events_list = [] }

remove_event_with_txn_id-state :
    (l : CmRoomEventList) (txn : Option String)
    → state_of (remove_event_with_txn_id l txn) ≡ state_of l
unfolding remove_event_with_txn_id
remove_event_with_txn_id-state l txn = ground arith

add_events-state :
    (room : Room) (l : CmRoomEventList) (xs : List Item) (append : Bool)
    → state_of (add_events room l xs append).0 ≡ state_of l
unfolding add_events
add_events-state room l [] append = refl
add_events-state room l (x ∷ xs) append = refl

collect-state :
    (x : Item) (p : Parse)
    → (state_of (collect x p).list ≡ state_of p.list) × ((collect x p).calls ≡ p.calls)
unfolding collect
collect-state x p = ground (arith, remove_event_with_txn_id-state p.list x.event.event.txn_id)

-- `q` comes of `p` with the state as it was, and the users with these ids were looked for
abbrev Finds : List (Option String) → Parse → Parse → Type 0
Finds ids p q = (state_of q.list ≡ state_of p.list) × (q.calls ≡ p.calls ++ map find_user ids)

map-append :
    (xs ys : List (Option String)) → map find_user (xs ++ ys) ≡ map find_user xs ++ map find_user ys
map-append [] ys = refl
map-append (x ∷ xs) ys = ap (λ (r : List RoomCall). find_user x ∷ r) (map-append xs ys)

Finds-trans :
    (xs ys : List (Option String)) (p q r : Parse)
    → Finds xs p q
    → Finds ys q r
    → Finds (xs ++ ys) p r
Finds-trans xs ys p q r a b = (
  b.0 ∙ a.0,
  b.1
      ∙ ap (λ (c : List RoomCall). c ++ map find_user ys) a.1
      ∙ append_assoc p.calls (map find_user xs) (map find_user ys)
      ∙ ap (λ (c : List RoomCall). p.calls ++ c) (sym (map-append xs ys)),
)

-- the sender of an event that was made
abbrev pub sender_of : Option CmRoomEvent → List (Option String)
sender_of none = []
sender_of (some e) = get_sender_id e.event ∷ []

module _ (g : JsonGlib) (room : Room) where
  -- the senders of the events that are made of the elements, in order
  abbrev pub senders : List JsonNode → List (Option String)
  senders [] = []
  senders (node ∷ nodes) = sender_of (new_event g room (as_object node)) ++ senders nodes

  parse_made-Finds :
      (e : Option CmRoomEvent) (p : Parse) → Finds (sender_of e) p (parse_made g room true e p)
  unfolding parse_made
  parse_made-Finds none p = (refl, sym (append-nil p.calls))
  parse_made-Finds (some e) p =
      collect-state _
        (record p { next = suc p.next; calls = p.calls ++ find_user (get_sender_id e.event) ∷ [] })

  parse_loop-Finds :
      (nodes : List JsonNode) (p : Parse) → Finds (senders nodes) p (parse_loop g room true nodes p)
  unfolding parse_loop
  parse_loop-Finds [] p = (refl, sym (append-nil p.calls))
  parse_loop-Finds (node ∷ nodes) p =
      let e = new_event g room (as_object node) in
      let q = parse_made g room true e p in
      Finds-trans (sender_of e) (senders nodes) p q (parse_loop g room true nodes q)
        (parse_made-Finds e p) (parse_loop-Finds nodes q)

  -- the senders that are looked for again, of the collected events that have none
  abbrev pub asked_again : Option (List Item) → List (Option String)
  asked_again none = []
  asked_again (some events) = asked room events

  add_collected-Finds :
      (past : Bool) (p : Parse) → Finds (asked_again p.events) p (add_collected g room past p)
  unfolding add_collected
  add_collected-Finds past p = elim (Option-cases p.events) [
    | inl e ↦ rw (e, add_collected) (refl, sym (append-nil p.calls))
    | inr (events, e) ↦ rw (e, add_collected) (add_events-state room p.list events (not past), refl)
  ]

  -- Parsing events of the past into an array leaves every state event, the local object and the mark for saving
  -- of the list as they were. Of the room it only looks for users: for the sender of each event that is
  -- made, in order, then for those of the collected events that still have none. It gives the room no name,
  -- no member event and no notice.
  pub parse_events-past :
      (root : JsonObject) (p : Parse)
      → is_some p.events ≡ true
      → let q = parse_loop g room true (event_array g room root) p in
        let done = parse_events g room (some root) true p in
        (state_of done.list ≡ state_of p.list)
        × (done.calls
            ≡ p.calls ++ map find_user (senders (event_array g room root) ++ asked_again q.events))
  unfolding parse_events
  parse_events-past root p held =
      let nodes = event_array g room root in
      let q = parse_loop g room true nodes p in
      rw (held, not)
        (Finds-trans (senders nodes) (asked_again q.events) p q (add_collected g room true q)
          (parse_loop-Finds nodes p) (add_collected-Finds true q))
