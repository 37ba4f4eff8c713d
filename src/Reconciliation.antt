-- ===== src/Reconciliation.antt =====
-- Reconciliation with the reports of the payment provider: packages/modules/reconciliation/src.
pub mod Classifier
pub mod Matching
pub mod Coverage
pub mod Exact
