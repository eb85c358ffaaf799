-- ===== src/Core/Native/Allocation.antt =====
-- packages/core/src/native/bridge.ts: the fallback allocates as packages/finance does.
use intellibiz.Finance.Money.{Money}
