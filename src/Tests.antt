-- ===== src/Tests.antt =====
-- Concrete runs of the code, at which the theorems of the other files are applied.
pub mod SasSample
pub mod Sas
pub mod Json
pub mod Events
pub mod Lists
pub mod Address
pub mod Users
pub mod UserLists
pub mod Olm
pub mod Streams
pub mod Rooms
pub mod Groups
