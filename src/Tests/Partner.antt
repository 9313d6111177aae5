-- ===== src/Tests/Partner.antt =====
-- Commissions on a small store: one individual channel, its customer and an order.
use roamkit_api.Base.{ℕ, ◌≡◌, refl, true, none, some, [], ◌∷◌, String, ok}
use roamkit_api.Base.Int.{pos, ◌+ℤ◌, ◌-ℤ◌, ◌*ℤ◌}
use roamkit_api.Money.{quantize, half_up}
use roamkit_api.Ledger.{get_account, find_key, update_accounts}
use roamkit_api.Ledger.Credit.{
  apply, credit, check_arguments, normalize_amount, normalize_reference_type, fits_columns,
  write_entry,
}
use roamkit_api.Partner.{
  PartnerChannel, individual, PartnerMarginAccrual, Store, order, get_channel, find_attribution,
  find_accrual, organization_of_account,
}
use roamkit_api.Partner.Settlement.{
  SettlesOn, resolve_partner_settlement_account, resolve_partner_settlement_account-SettlesOn,
  billing_account, is_owner_personal_account,
}
use roamkit_api.Partner.Margin.{
  Event, NewIds, accrue, accrued, margin_key, share_of, partner_channel_can_accrue_for_customer,
  price_skip, margin_movement, settle,
}
use roamkit_api.Partner.Commission.{IsCommission, accrue-IsCommission}
use roamkit_api.Tests.Ledger.{bank, alice, bank-IsValid}

-- User 7 owns the channel and account 1; user 8 is the customer.
abbrev pub channel : PartnerChannel
channel = record {
  id = 3;
  kind = individual;
  owner_user = some 7;
  organization = none;
  revenue_share_percent = pos 2500;
  is_active = true;
}

abbrev pub store : Store
store = record {
  bank = bank;
  channels = channel ∷ [];
  attributions = record { id = 4; user = 8; partner_channel = 3 } ∷ [];
  memberships = [];
  organizations = [];
  accruals = [];
}

abbrev pub text : ℕ → String
text n = "1"

abbrev pub new_ids : NewIds
new_ids = record { accrual = 21; entry = 22 }

-- Listed at 10.00 and bought at 6.00.
abbrev purchase : Event
purchase = record {
  source_type = order;
  source_id = "o1";
  list_price = some (pos 10_000_000);
  net_price = some (pos 6_000_000);
  customer = some 8;
}

abbrev commission : PartnerMarginAccrual
commission = record {
  id = 21;
  partner_channel = 3;
  customer_user = 8;
  customer_user_id_snapshot = 8;
  customer_attribution = 4;
  source_type = order;
  source_id = "o1";
  list_price = pos 10_000_000;
  net_price = pos 6_000_000;
  margin = pos 4_000_000;
  revenue_share_percent = pos 2500;
  partner_share = pos 1_000_000;
  ledger_entry = 22;
}

settles_on_owner : resolve_partner_settlement_account channel store ≡ ok alice
unfolding resolve_partner_settlement_account billing_account is_owner_personal_account
    organization_of_account
settles_on_owner = refl

resolve_partner_settlement_account-SettlesOn_example : SettlesOn individual channel store alice
resolve_partner_settlement_account-SettlesOn_example =
    resolve_partner_settlement_account-SettlesOn channel store alice settles_on_owner

pays : (accrue text new_ids purchase store true).0 ≡ ok (accrued commission)
unfolding accrue find_attribution get_channel find_accrual partner_channel_can_accrue_for_customer
    price_skip share_of quantize half_up ◌*ℤ◌ ◌+ℤ◌ resolve_partner_settlement_account
    billing_account is_owner_personal_account organization_of_account margin_movement margin_key
    credit apply check_arguments normalize_amount normalize_reference_type get_account find_key
    fits_columns write_entry update_accounts ◌-ℤ◌ settle
pays = refl

fresh_key : find_key (margin_key purchase) store.bank.ledger ≡ none
unfolding margin_key find_key
fresh_key = refl

accrue-IsCommission_example :
    IsCommission text new_ids purchase store commission (accrue text new_ids purchase store true).1
accrue-IsCommission_example =
    accrue-IsCommission text new_ids purchase store true commission bank-IsValid fresh_key pays
