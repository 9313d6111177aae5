-- ===== src/Subscription.antt =====
-- Subscription renewal: src/apps/billing/services/subscription.py, with the rows of
-- src/apps/billing/models.py and src/apps/billing/partner_channel.py. Dates are day numbers; `str`
-- and `iso` are Python's texts of a primary key and of a date. `others` is what other transactions
-- commit between the opening of the cycle and the locks of the renewal.
pub mod Renewal
pub mod Due
pub mod Invariant
pub mod Accrued
pub mod Charge
use Prim.Native.String.{◌++◌}
use roamkit_api.Base.{
  ℕ, ◌+◌, Bool, true, false, not, ◌&&◌, ◌||◌, Option, none, some, List, [], ◌∷◌, String, ◌==◌, ltb,
  leb, if◌then◌else◌, Result, ok, err,
}
use roamkit_api.Base.Int.{ℤ}
use roamkit_api.Money.{finite}
use roamkit_api.Ledger.{Bank, Account, CreditLedgerEntry, get_account, value}
use roamkit_api.Ledger
use roamkit_api.Ledger.Credit.{
  CreditError, insufficient_funds, Movement, Attempt, quiet, debit, money_places,
}
use roamkit_api.Partner
use roamkit_api.Partner.{Store}
use roamkit_api.Partner.Margin.{Event, NewIds, Accruing, AccrualError, accrue, build_source_id}

pub data Status : Type 0 where
  active paused expired : Status

pub record Subscription : Type 0 where
  pub id : ℕ
  pub account : ℕ
  pub esim : ℕ
  pub price_per_period : ℤ
  pub next_billing_date : ℕ
  pub status : Status

pub data CycleStatus : Type 0 where
  pending renewed paused failed : CycleStatus

pub record SubscriptionRenewalCycle : Type 0 where
  pub subscription : ℕ
  pub billing_date : ℕ
  pub renewal_list_price_usd : ℤ
  pub renewal_net_price_usd : Option ℤ
  pub status : CycleStatus

-- `catalog` gives the prices of the package of an eSIM's order, as the catalog has them now.
pub record State : Type 0 where
  pub store : Store
  pub subscriptions : List Subscription
  pub cycles : List SubscriptionRenewalCycle
  pub catalog : ℕ → ℤ × Option ℤ

pub record Settings : Type 0 where
  pub billing_enabled : Bool
  pub subscriptions_enabled : Bool
  pub partner_channel_enabled : Bool

abbrev pub period_days : ℕ
period_days = 30

unfoldable pub get_subscription : ℕ → List Subscription → Option Subscription
get_subscription pk [] = none
get_subscription pk (x ∷ rows) = if x.id == pk then some x else get_subscription pk rows

abbrev pub update_subscription_row : ℕ → (Subscription → Subscription) → Subscription → Subscription
update_subscription_row pk f x = if x.id == pk then f x else x

unfoldable pub update_subscriptions :
    ℕ → (Subscription → Subscription) → List Subscription → List Subscription
update_subscriptions pk f [] = []
update_subscriptions pk f (x ∷ rows) =
    update_subscription_row pk f x ∷ update_subscriptions pk f rows

abbrev pub is_cycle : ℕ → ℕ → SubscriptionRenewalCycle → Bool
is_cycle pk date c = c.subscription == pk && c.billing_date == date

unfoldable pub find_cycle : ℕ → ℕ → List SubscriptionRenewalCycle → Option SubscriptionRenewalCycle
find_cycle pk date [] = none
find_cycle pk date (c ∷ rows) = if is_cycle pk date c then some c else find_cycle pk date rows

abbrev pub set_cycle_row : ℕ → ℕ → CycleStatus → SubscriptionRenewalCycle → SubscriptionRenewalCycle
set_cycle_row pk date status c = if is_cycle pk date c then record c { status = status } else c

-- `cycle.save(update_fields=["status"])`
unfoldable pub set_cycle_status :
    ℕ → ℕ → CycleStatus → List SubscriptionRenewalCycle → List SubscriptionRenewalCycle
set_cycle_status pk date status [] = []
set_cycle_status pk date status (c ∷ rows) =
    set_cycle_row pk date status c ∷ set_cycle_status pk date status rows

is_unfinished : CycleStatus → Bool
is_unfinished pending = true
is_unfinished renewed = false
is_unfinished paused = true
is_unfinished failed = true

-- The constraint `billing_renewal_one_unfinished`.
unfoldable pub has_unfinished : ℕ → List SubscriptionRenewalCycle → Bool
unfolding is_unfinished
has_unfinished pk [] = false
has_unfinished pk (c ∷ rows) =
    (c.subscription == pk && is_unfinished c.status) || has_unfinished pk rows

pub data RenewalError : Type 0 where
  billing_disabled subscriptions_disabled integrity_error cycle_missing : RenewalError
  debit_failed : CreditError → RenewalError
  accrual_failed : AccrualError → RenewalError
  no_source_id : RenewalError

-- `get_or_create_renewal_cycle`: a committed cycle for this date, with the catalog's prices.
unfoldable pub get_or_create_renewal_cycle :
    Subscription → ℕ → State → Result RenewalError SubscriptionRenewalCycle × State
get_or_create_renewal_cycle x date s = elim (find_cycle x.id date s.cycles) [
  | some existing ↦ (ok existing, s)
  | none ↦
      if has_unfinished x.id s.cycles
      then (err integrity_error, s)
      else let cycle : SubscriptionRenewalCycle = record {
        subscription = x.id;
        billing_date = date;
        renewal_list_price_usd = (s.catalog x.esim).0;
        renewal_net_price_usd = (s.catalog x.esim).1;
        status = pending;
      } in
        (ok cycle, record s { cycles = cycle ∷ s.cycles })
]

-- The result of one renewal; the published events follow from it and the rows.
pub data Outcome : Type 0 where
  renewed : CreditLedgerEntry → Outcome
  already_renewed skipped : Outcome
  paused : ℤ → Outcome

abbrev pub Renewing : Type 0
Renewing = Result RenewalError Outcome × State

unfoldable pub is_active : Status → Bool
is_active active = true
is_active paused = false
is_active expired = false

unfoldable pub is_renewed : CycleStatus → Bool
is_renewed renewed = true
is_renewed pending = false
is_renewed paused = false
is_renewed failed = false
