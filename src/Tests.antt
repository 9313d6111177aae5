-- ===== src/Tests.antt =====
-- The theorems at concrete inputs that meet their hypotheses, and small runs of the code.
mod Ledger
mod Partner
mod Subscription
mod Pricing
mod Voucher
mod Esims
mod Refund
mod Deposit
mod Topup
mod Organizations
mod Invites
