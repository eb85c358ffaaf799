-- ===== src/Finance.antt =====
-- packages/finance: money and tax rates.
pub mod Money
pub mod Tax
