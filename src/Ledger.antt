-- ===== src/Ledger.antt =====
-- The prepaid credit ledger: the rows of `Account` and `CreditLedgerEntry`
-- (src/apps/billing/models.py). Amounts are whole numbers of 10 ^ -6 units, as the columns
-- `Decimal(20, 6)` hold them; primary keys are numbers.
pub mod Credit
pub mod Outcomes
pub mod Rows
pub mod Invariant
pub mod Effects
pub mod Refund
pub mod Amounts
use roamkit_api.Base.{
  ℕ, ◌+◌, Bool, true, false, Option, none, some, List, [], ◌∷◌, map, String, str_eq, ◌==◌,
  if◌then◌else◌,
}
use roamkit_api.Base.Int.{ℤ, pos, ◌+ℤ◌}

pub data LedgerReferenceType : Type 0 where
  deposit order topup subscription refund admin_adjustment voucher : LedgerReferenceType
  partner_margin partner_grant_out partner_grant_in partner_invite_bonus : LedgerReferenceType

-- The stored text of a choice.
abbrev pub value : LedgerReferenceType → String
value deposit = "deposit"
value order = "order"
value topup = "topup"
value subscription = "subscription"
value refund = "refund"
value admin_adjustment = "admin_adjustment"
value voucher = "voucher"
value partner_margin = "partner_margin"
value partner_grant_out = "partner_grant_out"
value partner_grant_in = "partner_grant_in"
value partner_invite_bonus = "partner_invite_bonus"

pub data AccountKind : Type 0 where
  personal organization : AccountKind

pub record Account : Type 0 where
  pub id : ℕ
  pub user : Option ℕ
  pub kind : AccountKind
  pub balance : ℤ
  pub version : ℕ
  pub pricing_profile : Option ℕ

pub record CreditLedgerEntry : Type 0 where
  pub id : ℕ
  pub account : ℕ
  pub delta : ℤ
  pub balance_after : ℤ
  pub reference_type : LedgerReferenceType
  pub reference_id : String
  pub idempotency_key : String

-- The two tables, the ledger newest first.
pub record Bank : Type 0 where
  pub accounts : List Account
  pub ledger : List CreditLedgerEntry

-- `Account.objects.get(pk=pk)`
unfoldable pub get_account : ℕ → List Account → Option Account
get_account pk [] = none
get_account pk (a ∷ rows) = if a.id == pk then some a else get_account pk rows

-- `UPDATE … WHERE id = pk` on one row, and on the table.
abbrev pub update_row : ℕ → (Account → Account) → Account → Account
update_row pk f a = if a.id == pk then f a else a

unfoldable pub update_accounts : ℕ → (Account → Account) → List Account → List Account
update_accounts pk f [] = []
update_accounts pk f (a ∷ rows) = update_row pk f a ∷ update_accounts pk f rows

-- `CreditLedgerEntry.objects.filter(idempotency_key=key).first()`
unfoldable pub find_key : String → List CreditLedgerEntry → Option CreditLedgerEntry
find_key key [] = none
find_key key (e ∷ rows) = if str_eq e.idempotency_key key then some e else find_key key rows

-- `SUM(delta)` over the rows of one account.
unfoldable pub sum_delta : ℕ → List CreditLedgerEntry → ℤ
sum_delta pk [] = pos 0
sum_delta pk (e ∷ rows) =
    if e.account == pk then e.delta +ℤ sum_delta pk rows else sum_delta pk rows
