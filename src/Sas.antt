-- ===== src/Sas.antt =====
-- Short authentication strings and the verification of a device: src/cm-olm-sas.c.
pub mod Bytes
pub mod Emoji
pub mod State
pub mod Mac
pub mod Session
pub mod Replies
