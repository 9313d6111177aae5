-- ===== src/Lib.antt =====
-- A verification library for the billing core of the RoamKit API: what its Django services do to
-- the rows of its database, and what that guarantees about the money.
--
-- The program sells eSIM data plans against prepaid accounts. Every account caches a balance beside
-- an append-only ledger. The parts that move money all call the credit service: redemptions of
-- vouchers and campaigns and deposits of USDT credit an account; renewals of subscriptions and
-- top-ups of eSIMs debit one and then give the partner whose channel brought the customer a share
-- of the margin. Pricing decides what a customer pays and stores the decision; the audit compares
-- the cached balances with the ledger, and the rebuild repairs them. The life cycle of an eSIM
-- follows its customer's and its provider's events. Teams share an account: organizations have
-- members with roles, invite new ones, and bind their eSIMs to devices.
--
-- Which file models which part (paths from the repository's root):
-- - Money: decimals and their rounding as far as the services use them, and
--   src/apps/pricing/money.py. Money/Rounding: facts on rounding.
-- - Ledger: the rows of src/apps/billing/models.py. Ledger/Credit: CreditService of
--   src/apps/billing/services/credit.py; `apply` is `_apply`, `post` its transaction, `post_locked`
--   what follows the row lock, `insert_entry` the savepoint and its IntegrityError handler.
--   Ledger/Outcomes lists the ways in which a call ends; Invariant, Effects, Amounts and Rows reason
--   about them.
-- - Reconcile: src/apps/billing/services/reconcile.py and the rebuild of credit.py; proofs in
--   Reconcile/Drift and Reconcile/Repair.
-- - Partner: the rows of src/apps/billing/partner_channel.py and
--   src/apps/organizations/models.py. Partner/Settlement: services/partner_settlement.py.
--   Partner/Margin: services/partner_margin.py, `accrue` with one definition for each stretch of its
--   early returns. Proofs in Partner/Share, Partner/Accrual and Partner/Commission.
-- - Subscription: src/apps/billing/services/subscription.py. Subscription/Renewal: `renew_one`;
--   Subscription/Due: `renew_due`. Proofs in Subscription/Invariant, Subscription/Accrued,
--   Subscription/Charge and Subscription/Due.
-- - Pricing: src/apps/pricing. Pricing/Resolve: service.py and hashing.py; Pricing/Snapshot:
--   snapshot.py and charge.py. Proofs in Pricing/Bounds, Pricing/Quotes and Pricing/Snapshot.
-- - Voucher: the voucher rows of src/apps/billing/models.py. Voucher/Codes: voucher_codes.py;
--   Voucher/Redeem: services/voucher_redeem.py. Proofs in Voucher/Outcomes, Voucher/Once,
--   Voucher/Limits and Voucher/Issue.
-- - Esims: the rows of src/apps/esims/models.py. Esims/Lifecycle: services/lifecycle_service.py;
--   `move` is `_overwrite_provider_status` and the writes of `transition`, `record_event` both
--   `_record_system_event` and `_record_provider_event`. Proofs in Esims/Log and Esims/Clients.
-- - Topup: the top-ups of src/apps/esims/models.py. Topup/Spend and Topup/Purchase:
--   services/topup_service.py, with one definition for each transaction and each of its stretches.
--   Proofs in Topup/Reservation, Topup/Refund, Topup/Fulfilment, Topup/Repeat and Topup/Invariant.
-- - Deposit: DepositRequest of src/apps/billing/models.py. Deposit/Completion and
--   Deposit/Verification: services/deposit_verification.py, `verify` and `reverify` for accounts
--   that are not on the wallet's money path. Proofs in Deposit/Rows, Deposit/Invariant,
--   Deposit/Credited, Deposit/Verified, Deposit/Payment and Deposit/Duplicate.
-- - Organizations: the rows of src/apps/organizations/models.py. Organizations/Context:
--   permissions.py, services/context.py and services/authz.py; Organizations/Members:
--   services/membership.py and `create_organization`; Organizations/Invites and
--   Organizations/Accepting: services/invites.py; Organizations/Bindings and Organizations/Devices:
--   services/device_binding.py and the check of a device's secret in services/device_status.py. A
--   body in the model is what stands under `transaction.atomic`. Organizations/Steps lists what a
--   request can do to the members, and Entry, Saves, MemberSteps, StatusSteps, FoundingSteps,
--   JoinSteps and InviteSteps show that each operation is such a step. Proofs in Ownership,
--   Authority, Separation, Requests (sequences of requests), Joining, Acceptance, Transfer,
--   DeviceTable, DeviceTrail, DeviceEnds, DeviceRun and Credentials.
-- - Base: shared names, tables, integers over the native numbers, results. Tests: the theorems at
--   concrete inputs.
--
-- How state and operations correspond: a table is a list of records, newest row first, a primary
-- key a number, an operation a function from the state to its result and the next state. A
-- service's exception is an `err` result, and inside a transaction it leaves the state that the
-- transaction found. Where the code runs between other transactions, their effect is a function
-- `others` from state to state, which a theorem restricts by the database's own guarantees: entries
-- are not removed, and a locked row does not change. `quiet` is the case of no interference. The
-- calls of Organizations run one after another, in any order and by anybody.
--
-- Units: ledger amounts are whole numbers of 10 ^ -6 dollars, prices cents, percentages hundredths,
-- dates day numbers. Decimal arithmetic is exact; only `quantize` raises where a result needs more
-- than 28 digits, as Python's default context does. On the columns' widths no other operation
-- reaches that precision, save the rounding of a ledger's sum, which could raise from 10 ^ 22 dollars
-- on and is taken as exact. Amounts and texts that do not fit their columns are errors of the
-- database where a step depends on them.
--
-- Parameters stand for what the repository does not contain: `str` and `iso`, Python's texts of
-- keys and dates; `TextOps`, Unicode normalisation, stripping and upper case; `digest`, SHA-256 of
-- the pricing context, of tokens and of secrets; `Texts`, stripping, lower case and the database's
-- comparison without case; `HashOps`, Python's operations on the text of a transaction's hash; the
-- answers of a provider and of the chain. Fresh keys are arguments. All loops are structural
-- recursion over the rows, so no fuel is needed.
--
-- Not modelled: log lines, metrics and published events, which follow from results and rows; HTTP
-- views, serializers and the admin; orders, automatic top-ups, wallets and the deposits that go
-- through them, the fleet credentials of organizations, the partner portal and the administration of
-- vouchers; third-party clients.
pub mod Base
pub mod Money
pub mod Ledger
pub mod Reconcile
pub mod Partner
pub mod Subscription
pub mod Pricing
pub mod Voucher
pub mod Esims
pub mod Topup
pub mod Deposit
pub mod Organizations
mod Tests
