-- ===== src/Store.antt =====
-- src/store: the tables and the statements on them. `Rows` has the updates of one row; `Enqueue`,
-- `Claim`, `Parent` and `Ledger` have the statements of src/store/postgres/outbox.rs.
pub mod Tables
pub mod Rows
pub mod Enqueue
pub mod Claim
pub mod Parent
pub mod Catalogue
pub mod Ledger
