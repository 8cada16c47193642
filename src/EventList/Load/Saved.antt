-- ===== src/EventList/Load/Saved.antt =====
-- State events that were saved by set_local_json_event, as cm_room_event_list_set_local_json of
-- src/events/cm-room-event-list.c reads them.
use libcmatrix.Base.{
  ℕ, ◌+◌, String, ◌≡◌, refl, true, false, Option, none, some, [], Option-cases, inl, inr, arith,
  eq_iff,
}
use libcmatrix.Base.Text.{str_eq}
use libcmatrix.Json.{JsonObject, object, set_member}
use libcmatrix.Json.Glib.{JsonGlib}
use libcmatrix.Json.Access.{object_get_object}
use libcmatrix.Json.Access.Lookup.{find_member-set_member}
use libcmatrix.EventType.{
  CmEventType, get_event_type_str, room_avatar, room_canonical_alias, room_encryption,
  room_guest_access, room_history_visibility, room_join_rules, room_name, room_power_levels,
  room_tombstone, room_topic,
}
use libcmatrix.RoomEvent.{CmRoomEvent, room_event_new_from_json}
use libcmatrix.EventList.Store.{Item}
use libcmatrix.EventList.Defs.{CmRoomEventList}
use libcmatrix.EventList.Slots.{is_saved, node_of, save_event, set_local_json_event}
use libcmatrix.EventList.Load.{
  load_event, load_events, set_root_json, set_local_json, item_at, append_last,
}

-- the field that keeps the event of a type
abbrev pub slot : CmRoomEventList → CmEventType → Option Item
slot self room_canonical_alias = self.canonical_alias_event
slot self room_encryption = self.encryption_event
slot self room_guest_access = self.guest_access_event
slot self room_history_visibility = self.history_visibility_event
slot self room_join_rules = self.join_rules_event
slot self room_power_levels = self.power_level_event
slot self room_avatar = self.room_avatar_event
slot self room_name = self.room_name_event
slot self room_topic = self.room_topic_event
slot self room_tombstone = self.tombstone_event
slot self type = none

abbrev pub event_of : Option Item → Option CmRoomEvent
event_of none = none
event_of (some x) = some x.event

not_empty :
    (t : CmEventType)
    → is_saved t ≡ true
    → (s : String) × (get_event_type_str t ≡ some s) × (str_eq s "" ≡ false)
unfolding get_event_type_str
not_empty room_avatar h = ("m.room.avatar", refl, refl)
not_empty room_canonical_alias h = ("m.room.canonical_alias", refl, refl)
not_empty room_encryption h = ("m.room.encryption", refl, refl)
not_empty room_guest_access h = ("m.room.guest_access", refl, refl)
not_empty room_history_visibility h = ("m.room.history_visibility", refl, refl)
not_empty room_join_rules h = ("m.room.join_rules", refl, refl)
not_empty room_name h = ("m.room.name", refl, refl)
not_empty room_power_levels h = ("m.room.power_levels", refl, refl)
not_empty room_topic h = ("m.room.topic", refl, refl)
not_empty room_tombstone h = ("m.room.tombstone", refl, refl)
not_empty _ h = absurd (cc)

found_object :
    (o p : JsonObject) (n : String)
    → str_eq n "" ≡ false
    → object_get_object (some (set_member o n (object p))) (some n) ≡ some p
unfolding object_get_object
found_object o p n h = ground (arith, h, find_member-set_member o n n (object p), eq_iff n n)

found_saved :
    (child o : JsonObject) (x : Item)
    → is_saved x.event.event.event_type ≡ true
    → x.event.event.json ≡ some o
    → object_get_object (some (save_event child x)) (get_event_type_str x.event.event.event_type)
      ≡ some o
unfolding save_event node_of
found_saved child o x h e =
    let (s, name, full) = not_empty x.event.event.event_type h in
    rw (name, save_event) (rw (e, node_of) (found_object child o s full))

module _ (g : JsonGlib) where
  load_event-found :
      (local : Option JsonObject) (o : JsonObject) (ref : ℕ) (t : CmEventType) (old : Option Item)
      → object_get_object local (get_event_type_str t) ≡ some o
      → event_of (load_event g local ref t old) ≡ room_event_new_from_json g (some o) none
  unfolding load_event item_at
  load_event-found local o ref t old h =
      elim (Option-cases (room_event_new_from_json g (some o) none)) [
        | inl e ↦ rw (h, load_event) (rw (e, item_at) refl)
        | inr (made, e) ↦ rw (h, load_event) (rw (e, item_at) refl)
      ]

  load_events-slot :
      (local : Option JsonObject) (o : JsonObject) (ref : ℕ) (self : CmRoomEventList)
      (t : CmEventType)
      → is_saved t ≡ true
      → object_get_object local (get_event_type_str t) ≡ some o
      → event_of (slot (load_events g local ref self) t) ≡ room_event_new_from_json g (some o) none
  unfolding load_events
  load_events-slot local o ref self room_canonical_alias e h =
      load_event-found local o ref room_canonical_alias _ h
  load_events-slot local o ref self room_encryption e h =
      load_event-found local o (ref + 1) room_encryption _ h
  load_events-slot local o ref self room_guest_access e h =
      load_event-found local o (ref + 2) room_guest_access _ h
  load_events-slot local o ref self room_history_visibility e h =
      load_event-found local o (ref + 3) room_history_visibility _ h
  load_events-slot local o ref self room_join_rules e h =
      load_event-found local o (ref + 4) room_join_rules _ h
  load_events-slot local o ref self room_power_levels e h =
      load_event-found local o (ref + 5) room_power_levels _ h
  load_events-slot local o ref self room_avatar e h =
      load_event-found local o (ref + 6) room_avatar _ h
  load_events-slot local o ref self room_name e h = load_event-found local o (ref + 8) room_name _ h
  load_events-slot local o ref self room_topic e h =
      load_event-found local o (ref + 9) room_topic _ h
  load_events-slot local o ref self room_tombstone e h =
      load_event-found local o (ref + 10) room_tombstone _ h
  load_events-slot local o ref self _ e h = absurd (cc)

  -- A state event of a saved type that was written to the local object of a room is read from it: a
  -- list that has no events yet and no local object keeps, under the type of the event, the event
  -- that is made of its JSON object.
  pub set_local_json-saved :
      (self : CmRoomEventList) (json child o : JsonObject) (x : Item) (last : Option Item) (ref : ℕ)
      → object_get_object (some json) (some "local") ≡ some child
      → is_saved x.event.event.event_type ≡ true
      → x.event.event.json ≡ some o
      → self.local_json ≡ none
      → self.events_list ≡ []
      → event_of (
          slot
            (set_local_json g self (set_local_json_event (some json) x) last ref)
            x.event.event.event_type)
        ≡ room_event_new_from_json g (some o) none
  unfolding set_local_json set_root_json set_local_json_event
  set_local_json-saved self json child o x last ref e0 e1 e2 e3 e4 =
      let saved = save_event child x in
      let ready : CmRoomEventList = record self {
        events_list = append_last [] last;
        local_json = some (set_member json "local" (object saved));
      } in
      rw (e0, set_local_json_event)
        (rw (e3, set_local_json)
          (rw (e4, set_local_json)
            (rw (found_object json saved "local" refl) (
              load_events-slot (some saved) o ref ready x.event.event.event_type e1
                (found_saved child o x e1 e2)))))
