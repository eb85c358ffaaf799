-- ===== src/Testing.antt =====
-- packages/testing/src: the tools with which the program's tests are written.
pub mod Ledger
pub mod Clock
pub mod Gateway
pub mod State
mod Tests
