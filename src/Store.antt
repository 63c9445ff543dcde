-- ===== src/Store.antt =====
-- src/picket/persistence/store.py: the SQLite store.
pub mod Ids
pub mod Fire
pub mod Ledger
pub mod History
pub mod Commands
pub mod Watches
pub mod Keyed
pub mod Trace
pub mod Integrity
pub mod Rowwise
pub mod Claim
pub mod Rows
pub mod Leases
pub mod Recovery
pub mod Channel
pub mod Mailbox
pub mod Delivery
pub mod Atomic
pub mod Swapping
pub mod Logs
pub mod Logging
pub mod Retention
