-- ===== src/Topup/Spend.antt =====
-- What a purchase of src/apps/esims/services/topup_service.py asks for and inserts: the request, the
-- charge, the two movements of a top-up, and the insert with its debit.
use Prim.Native.String.{◌++◌}
use roamkit_api.Base.{
  ℕ, not, Option, none, some, List, [], ◌∷◌, String, str_eq, if◌then◌else◌, Result, ok, err,
  first_where,
}
use roamkit_api.Base.Int.{ℤ, pos, leb_ℤ}
use roamkit_api.Money.{finite}
use roamkit_api.Ledger.{Bank, CreditLedgerEntry, get_account, value, topup, refund}
use roamkit_api.Ledger.Credit.{Movement, Attempt, quiet, debit, money_places}
use roamkit_api.Partner.Margin.{NewIds}
use roamkit_api.Pricing.{PricedAccount, PricingProfile, topup_order}
use roamkit_api.Pricing.Snapshot.{PricingSnapshot, resolve_charge}
use roamkit_api.Esims.{Esim}
use roamkit_api.Topup.{
  Topup, Status, TopupPackage, State, Environment, TopupError, listing_failed, package_not_found,
  spend_in_progress, account_missing, invalid_operation, data_error, transaction_aborted,
  debit_failed, has_key, ledger_units, option_units, fits_columns, next_sequence, is_fulfilling,
}

-- The arguments; `esim` is the row as the caller has read it.
pub record Request : Type 0 where
  pub esim : Esim
  pub package_id : String
  pub idempotency_key : String
  pub account : Option ℕ

-- The keys of the rows that one purchase may insert.
pub record NewRows : Type 0 where
  pub topup : ℕ
  pub debit : ℕ
  pub refund : ℕ
  pub accrual : NewIds

-- What the provider answers: its packages and the key of its order, `none` where the call raises.
pub record Provider : Type 0 where
  pub list_topups : Option (List TopupPackage)
  pub submit_topup : String → Option String

pub data Reserved : Type 0 where
  replayed : Topup → Reserved
  reserved : Topup → CreditLedgerEntry → Reserved

abbrev pub Reserving : Type 0
Reserving = Result TopupError Reserved × State

abbrev pub Purchasing : Type 0
Purchasing = Result TopupError Topup × State

unfoldable pub find_package : String → List TopupPackage → Option TopupPackage
find_package package_id [] = none
find_package package_id (p ∷ rest) =
    if str_eq p.external_id package_id then some p else find_package package_id rest

-- `_resolve_package`
unfoldable pub resolve_package :
    String → Option (List TopupPackage) → Result TopupError TopupPackage
unfolding find_package
resolve_package package_id none = err listing_failed
resolve_package package_id (some packages) = elim (find_package package_id packages) [
  | none ↦ err package_not_found
  | some p ↦ ok p
]

-- A top-up that stands under the request's key.
unfoldable pub replay_existing : Topup → Result TopupError Reserved
replay_existing existing =
    if is_fulfilling existing.status then err spend_in_progress else ok (replayed existing)

abbrev pub set_status : Status → Topup → Topup
set_status status t = record t { status = status }

abbrev pub set_fulfilled : String → Topup → Topup
set_fulfilled external_order_id t = record t {
  external_order_id = external_order_id;
  status = Status.fulfilled;
}

abbrev pub with_bank : Bank → State → State
with_bank bank s = record s { store = record s.store { bank = bank } }

assigned_profile : (ℕ → Option PricingProfile) → Option ℕ → Option PricingProfile
assigned_profile profile_of none = none
assigned_profile profile_of (some pk) = profile_of pk

module _ (env : Environment) (ids : NewRows) where
  -- `resolve_topup_charge`, in cents
  unfoldable pub resolve_topup_charge :
      ℕ → TopupPackage → State → Result TopupError (ℤ × Option PricingSnapshot)
  unfolding assigned_profile
  resolve_topup_charge account package_ s =
      if not env.pricing_profiles_enabled
      then ok (package_.price_usd, none)
      else elim (get_account account s.store.bank.accounts) [
        | none ↦ err account_missing
        | some a ↦
            let priced : PricedAccount = record {
              id = a.id;
              pricing_profile = assigned_profile env.profile_of a.pricing_profile;
            } in
            elim (resolve_charge env.digest env.pricing_profiles_enabled topup_order env.now priced
              package_.price_usd package_.net_price_usd) [
                | none ↦ err invalid_operation
                | some charge ↦ ok charge
              ]
      ]

  abbrev pub new_topup : Request → ℕ → TopupPackage → ℤ × Option PricingSnapshot → State → Topup
  new_topup r account package_ charge s = record {
    id = ids.topup;
    account = account;
    esim = r.esim.id;
    package_external_id = package_.external_id;
    amount = ledger_units charge.0;
    list_price_usd = package_.price_usd;
    net_price_usd = option_units package_.net_price_usd;
    pricing = charge.1;
    status = Status.fulfilling;
    sequence = next_sequence r.esim.id s.topups;
    external_order_id = "";
    idempotency_key = some r.idempotency_key;
  }

  -- The two movements of a top-up.
  unfoldable pub topup_debit : ℕ → Topup → Movement
  topup_debit account t = record {
    account = account;
    amount = some (finite (record { units = t.amount; places = money_places }));
    reference_type = value topup;
    reference_id = env.str t.id;
    idempotency_key = "topup-debit:" ++ env.str t.id;
  }

  unfoldable pub topup_refund : ℕ → Topup → Movement
  topup_refund account t = record {
    account = account;
    amount = some (finite (record { units = t.amount; places = money_places }));
    reference_type = value refund;
    reference_id = env.str t.id;
    idempotency_key = "topup-refund:" ++ env.str t.id;
  }

  -- The debit has been tried: an error rolls the new row back.
  unfoldable pub after_debit : Topup → State → Attempt → Reserving
  after_debit t s (err e, bank) = (err (debit_failed e), s)
  after_debit t s (ok entry, bank) =
      (ok (reserved t entry), record (with_bank bank s) { topups = t ∷ s.topups })

  -- The insert, on what the other transactions left, and the debit. A key that is taken by now and a
  -- negative or zero amount break constraints: the handler's query for the row under the key runs in
  -- the transaction that the failed insert has aborted, so the query raises.
  unfoldable pub create_and_debit : ℕ → String → Topup → State → Reserving
  unfolding after_debit topup_debit
  create_and_debit account key t s =
      if not (fits_columns t)
      then (err data_error, s)
      else elim (first_where (has_key key) s.topups) [
        | some existing ↦ (err transaction_aborted, s)
        | none ↦
            if leb_ℤ t.amount (pos 0)
            then (err transaction_aborted, s)
            else after_debit t s (debit quiet ids.debit (topup_debit account t) s.store.bank)
      ]
