-- ===== src/Commerce.antt =====
-- packages/commerce: transactions, webhooks and the retry machine for bank timeouts.
pub mod State
pub mod Dedup
pub mod BankRetry
pub mod Transaction
pub mod Signature
pub mod Stripe
pub mod PayFast
pub mod Providers
