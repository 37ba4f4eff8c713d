-- ===== src/Ledger/Soundness.antt =====
-- Every transaction that the service posts passes the database's integrity trigger, so that the
-- commit of a posting never fails on it.
pub mod Entries
pub mod Insertion
pub mod Invariant
pub mod Commands
pub mod Reversal
