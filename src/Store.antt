-- ===== src/Store.antt =====
-- internal/store/store.go. Each method is a method of `Exec` whose statements are the source's SQL
-- statements. The children define the methods by table; below them stand the proofs.
pub mod State
pub mod Devices
pub mod Usage
pub mod Notices
pub mod Claims
pub mod Accounting
pub mod Settings
pub mod Roster
pub mod Outbox
pub mod Answers
pub mod Isolation
