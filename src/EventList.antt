-- ===== src/EventList.antt =====
-- CmRoomEventList of src/events/cm-room-event-list.c, the events of a room: the list of messages and
-- the latest state events.
pub mod Store
pub mod Defs
pub mod Merge
pub mod Slots
pub mod Parse
pub mod Load
