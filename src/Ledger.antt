-- ===== src/Ledger.antt =====
-- The double-entry ledger: packages/modules/ledger/src.
pub mod Posting
pub mod Integrity
pub mod Repository
pub mod Service
pub mod Provisioning
pub mod Soundness
pub mod Balance
pub mod Effects
