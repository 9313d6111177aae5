-- ===== src/Voucher/Redeem.antt =====
-- `VoucherRedeemService.redeem` of src/apps/billing/services/voucher_redeem.py. An error rolls the
-- transaction back to the state that it found. `str` is Python's text of a primary key; metrics, log
-- lines and the published events, which follow from the result and the rows, are left out, as are
-- the client's address and agent on the redemption.
use Prim.Native.String.{◌++◌, count}
use roamkit_api.Base.{
  ℕ, Bool, true, false, not, Option, none, some, List, ◌∷◌, String, ◌==◌, str_eq, ltb, leb,
  if◌then◌else◌, Result, ok, err,
}
use roamkit_api.Base.Int.{ℤ, pos, ltb_ℤ}
use roamkit_api.Money.{finite}
use roamkit_api.Ledger.{Bank, Account, get_account, value, CreditLedgerEntry}
use roamkit_api.Ledger
use roamkit_api.Ledger.Credit.{CreditError, Movement, Attempt, quiet, credit, money_places}
use roamkit_api.Voucher.{
  Voucher, VoucherCampaign, VoucherRedemption, VoucherStatus, CampaignStatus, RewardType,
  fixed_credit, percent_bonus, free_subscription, free_topup, State, find_voucher, find_campaign,
  first_of_voucher, first_of_campaign, count_of_account, count_of_campaign, mark_redeemed,
}
use roamkit_api.Voucher.Codes.{TextOps, normalize_voucher_code, is_reserved_voucher_code}

pub data RedeemError : Type 0 where
  vouchers_disabled voucher_invalid voucher_expired voucher_revoked : RedeemError
  voucher_reserved voucher_limit unsupported_reward : RedeemError
  account_missing amount_not_positive data_error : RedeemError
  credit_failed : CreditError → RedeemError

pub record RedeemResult : Type 0 where
  pub credited : ℤ
  pub balance : ℤ
  pub redemption_id : ℕ
  pub ledger_entry_id : Option ℕ
  pub request_id : String
  pub replay : Bool

-- One of the two is given to `_grant`.
pub data Source : Type 0 where
  of_voucher : Voucher → Source
  of_campaign : VoucherCampaign → Source

abbrev pub voucher_key : Source → Option ℕ
voucher_key (of_voucher v) = some v.id
voucher_key (of_campaign c) = none

abbrev pub campaign_key : Source → Option ℕ
campaign_key (of_voucher v) = none
campaign_key (of_campaign c) = some c.id

-- Only a voucher is given as `mark_voucher_redeemed`.
abbrev pub mark : Source → List Voucher → List Voucher
mark (of_voucher v) rows = mark_redeemed v.id rows
mark (of_campaign c) rows = rows

-- `_credit_amount_for_reward`
unfoldable pub credit_amount_for_reward : RewardType → ℤ → Result RedeemError ℤ
credit_amount_for_reward fixed_credit amount = ok amount
credit_amount_for_reward percent_bonus amount = err unsupported_reward
credit_amount_for_reward free_subscription amount = err unsupported_reward
credit_amount_for_reward free_topup amount = err unsupported_reward

abbrev or_request : String → String → String
or_request stored given = if str_eq stored "" then given else stored

abbrev pub has_passed : Option ℕ → ℕ → Bool
has_passed none instant = false
has_passed (some t) instant = leb t instant

abbrev pub not_started : Option ℕ → ℕ → Bool
not_started none instant = false
not_started (some t) instant = ltb instant t

abbrev pub reached : Option ℕ → ℕ → Bool
reached none n = false
reached (some limit) n = leb limit n

abbrev pub is_single : Option ℕ → Bool
is_single none = false
is_single (some n) = n == 1

-- The keys of the rows that a call may insert.
pub record NewIds : Type 0 where
  pub redemption : ℕ
  pub entry : ℕ

abbrev pub Redeeming : Type 0
Redeeming = Result RedeemError RedeemResult × State

module _ (str : ℕ → String) (ids : NewIds) (account : ℕ) (request_id : String) (instant : ℕ)
    (s : State) where
  -- The answer to a repeated request, with the account's balance as it is now.
  abbrev pub replay_result : VoucherRedemption → Account → RedeemResult
  replay_result r a = record {
    credited = r.amount;
    balance = a.balance;
    redemption_id = r.id;
    ledger_entry_id = r.ledger_entry_id;
    request_id = or_request r.request_id request_id;
    replay = true;
  }

  unfoldable pub replay_of : VoucherRedemption → Redeeming
  replay_of r = elim (get_account account s.bank.accounts) [
    | none ↦ (err account_missing, s)
    | some a ↦ (ok (replay_result r a), s)
  ]

  unfoldable pub redeem_key : String
  redeem_key = "voucher_redeem:" ++ str ids.redemption

  unfoldable pub redeem_movement : ℤ → Movement
  unfolding redeem_key
  redeem_movement amount = record {
    account = account;
    amount = some (finite (record { units = amount; places = money_places }));
    reference_type = value Ledger.voucher;
    reference_id = str ids.redemption;
    idempotency_key = redeem_key;
  }

  abbrev pub new_redemption : Source → ℤ → CreditLedgerEntry → VoucherRedemption
  new_redemption source amount entry = record {
    id = ids.redemption;
    account = account;
    voucher = voucher_key source;
    campaign = campaign_key source;
    amount = amount;
    ledger_entry_id = some entry.id;
    request_id = request_id;
    redeemed_at = instant;
  }

  abbrev pub granted_state : Source → ℤ → CreditLedgerEntry → Bank → State
  granted_state source amount entry bank = record s {
    bank = bank;
    redemptions = new_redemption source amount entry ∷ s.redemptions;
    vouchers = mark source s.vouchers;
  }

  abbrev pub granted_result : ℤ → CreditLedgerEntry → RedeemResult
  granted_result amount entry = record {
    credited = amount;
    balance = entry.balance_after;
    redemption_id = ids.redemption;
    ledger_entry_id = some entry.id;
    request_id = request_id;
    replay = false;
  }

  unfoldable pub finish_grant : Source → ℤ → Attempt → Redeeming
  finish_grant source amount (err e, bank) = (err (credit_failed e), s)
  finish_grant source amount (ok entry, bank) =
      (ok (granted_result amount entry), granted_state source amount entry bank)

  -- `_grant`: the width of the redemption's `request_id` and the constraint on its amount, then the
  -- credit.
  unfoldable pub grant : Source → ℤ → Redeeming
  unfolding finish_grant redeem_movement
  grant source amount =
      if not (leb (count request_id) 64)
      then (err data_error, s)
      else if not (ltb_ℤ (pos 0) amount)
      then (err amount_not_positive, s)
      else finish_grant source amount (credit quiet ids.entry (redeem_movement amount) s.bank)

  unfoldable pub grant_reward : Source → RewardType → ℤ → Redeeming
  unfolding grant
  grant_reward source reward_type credit_amount =
      elim (credit_amount_for_reward reward_type credit_amount) [
        | err e ↦ (err e, s)
        | ok amount ↦ grant source amount
      ]

  unfoldable pub redeem_active_voucher : Voucher → Redeeming
  unfolding grant_reward
  redeem_active_voucher v =
      if has_passed v.expires_at instant
      then (err voucher_expired, s)
      else grant_reward (of_voucher v) v.reward_type v.credit_amount

  unfoldable pub redeem_redeemed : Voucher → Redeeming
  unfolding replay_of
  redeem_redeemed v = elim (first_of_voucher v.id account s.redemptions) [
    | some existing ↦ replay_of existing
    | none ↦ (err voucher_invalid, s)
  ]

  -- `_redeem_unique`, by the voucher's status
  unfoldable pub redeem_unique : Voucher → VoucherStatus → Redeeming
  unfolding redeem_active_voucher redeem_redeemed
  redeem_unique v VoucherStatus.redeemed = redeem_redeemed v
  redeem_unique v VoucherStatus.revoked = (err voucher_revoked, s)
  redeem_unique v VoucherStatus.expired = (err voucher_expired, s)
  redeem_unique v VoucherStatus.created = (err voucher_invalid, s)
  redeem_unique v VoucherStatus.active = redeem_active_voucher v

  -- At the limit per account: a repeat where the limit is one.
  unfoldable pub limit_reached : VoucherCampaign → Redeeming
  unfolding replay_of
  limit_reached c = elim (first_of_campaign c.id account s.redemptions) [
    | none ↦ (err voucher_limit, s)
    | some prior ↦
        if is_single c.max_redemptions_per_account then replay_of prior else (err voucher_limit, s)
  ]

  unfoldable pub redeem_active_campaign : VoucherCampaign → Redeeming
  unfolding limit_reached grant_reward
  redeem_active_campaign c =
      if not_started c.starts_at instant
      then (err voucher_invalid, s)
      else if has_passed c.expires_at instant
      then (err voucher_expired, s)
      else if reached c.max_redemptions_per_account (count_of_account c.id account s.redemptions)
      then limit_reached c
      else if reached c.max_redemptions_total (count_of_campaign c.id s.redemptions)
      then (err voucher_limit, s)
      else grant_reward (of_campaign c) c.reward_type c.credit_amount

  -- `_redeem_shared`, by the campaign's status
  unfoldable pub redeem_shared : VoucherCampaign → CampaignStatus → Redeeming
  unfolding redeem_active_campaign
  redeem_shared c CampaignStatus.revoked = (err voucher_revoked, s)
  redeem_shared c CampaignStatus.expired = (err voucher_expired, s)
  redeem_shared c CampaignStatus.draft = (err voucher_invalid, s)
  redeem_shared c CampaignStatus.active = redeem_active_campaign c

  -- The transaction of `_redeem_inner`
  unfoldable pub redeem_code : String → Redeeming
  unfolding redeem_unique redeem_shared
  redeem_code code = elim (find_voucher code s.vouchers) [
    | some v ↦ redeem_unique v v.status
    | none ↦ elim (find_campaign code s.campaigns) [
      | none ↦ (err voucher_invalid, s)
      | some c ↦ redeem_shared c c.status
    ]
  ]

  -- `redeem`, under `BILLING_ENABLED and VOUCHERS_ENABLED`; `request_id` is the stripped text, or a
  -- fresh one in place of the empty text.
  unfoldable pub redeem : TextOps → Bool → String → Redeeming
  unfolding redeem_code
  redeem ops enabled raw =
      let code = normalize_voucher_code ops raw in
      if not enabled
      then (err vouchers_disabled, s)
      else if str_eq code ""
      then (err voucher_invalid, s)
      else if is_reserved_voucher_code ops code
      then (err voucher_reserved, s)
      else redeem_code code
