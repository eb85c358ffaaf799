-- ===== src/Commerce/State.antt =====
-- packages/commerce/src/transaction/index.ts: the states of a transaction, which the retry machine
-- and the orchestrator share.
pub data TransactionState : Type 0 where
  pending committed rolled_back manual_review pending_bank_reconciliation : TransactionState
