-- ===== src/Settlements.antt =====
-- Settlement runs: packages/modules/settlements/src.
pub mod Plan
pub mod Totals
