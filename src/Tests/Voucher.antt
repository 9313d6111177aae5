-- ===== src/Tests/Voucher.antt =====
-- Redemptions of one voucher and one campaign, on the bank of the ledger's tests.
use roamkit_api.Base.{◌≡◌, refl, true, false, none, some, [], ◌∷◌, arith, ok}
use roamkit_api.Base.Int.{pos, ◌+ℤ◌}
use roamkit_api.Money.{quantize}
use roamkit_api.Ledger.{get_account, find_key, update_accounts}
use roamkit_api.Ledger.Credit.{
  apply, credit, check_arguments, normalize_amount, normalize_reference_type, fits_columns,
  write_entry,
}
use roamkit_api.Voucher.{
  find_campaign, Voucher, VoucherCampaign, VoucherStatus, CampaignStatus, unique, shared,
  fixed_credit, State, find_voucher, count_of_campaign, count_of_account,
}
use roamkit_api.Voucher.Codes.{
  issue_unique_voucher, TextOps, normalize_voucher_code, is_reserved_voucher_code,
}
use roamkit_api.Voucher.Redeem.{
  NewIds, RedeemResult, redeem, redeem_code, redeem_key, redeem_movement, grant, grant_reward,
  credit_amount_for_reward, redeem_unique, redeem_active_voucher, finish_grant,
}
use roamkit_api.Voucher.Issue.{issue_unique_voucher_shadows_none}
use roamkit_api.Voucher.Once.{IsGrant, redeem-IsGrant, redeem_once}
use roamkit_api.Voucher.Limits.{AreWithinLimits, redeem-AreWithinLimits, get_campaign}
use roamkit_api.Tests.Ledger.{bank, bank-IsValid}
use roamkit_api.Tests.Partner.{text}

abbrev gift : Voucher
gift = record {
  id = 1;
  code = "GIFT";
  redemption_mode = unique;
  reward_type = fixed_credit;
  credit_amount = pos 2_000_000;
  status = VoucherStatus.active;
  expires_at = some 50;
}

abbrev promo : VoucherCampaign
promo = record {
  id = 2;
  code = some "SUMMER";
  redemption_mode = shared;
  reward_type = fixed_credit;
  credit_amount = pos 1_000_000;
  max_redemptions_total = some 100;
  max_redemptions_per_account = some 1;
  starts_at = none;
  expires_at = none;
  status = CampaignStatus.active;
}

abbrev state : State
state = record { bank = bank; vouchers = gift ∷ []; campaigns = promo ∷ []; redemptions = [] }

abbrev plain : TextOps
plain = record { nfkc = λ t. t; strip = λ t. t; upper = λ t. t }

abbrev ids : NewIds
ids = record { redemption = 61; entry = 62 }

abbrev result : RedeemResult
result = record {
  credited = pos 2_000_000;
  balance = pos 7_000_000;
  redemption_id = 61;
  ledger_entry_id = some 62;
  request_id = "r1";
  replay = false;
}

redeems : (redeem text ids 1 "r1" 40 state plain true "GIFT").0 ≡ ok result
unfolding redeem normalize_voucher_code is_reserved_voucher_code redeem_code find_voucher grant
    grant_reward credit_amount_for_reward redeem_unique redeem_active_voucher finish_grant
    redeem_movement redeem_key credit apply check_arguments normalize_amount
    normalize_reference_type quantize get_account find_key fits_columns write_entry update_accounts
    ◌+ℤ◌
redeems = refl

fresh_key : find_key (redeem_key text ids 1 "r1" 40 state) bank.ledger ≡ none
unfolding redeem_key find_key
fresh_key = refl

redeem-IsGrant_example :
    IsGrant text ids 1 "r1" 40 state
      (normalize_voucher_code plain "GIFT")
      result
      (redeem text ids 1 "r1" 40 state plain true "GIFT").1
redeem-IsGrant_example =
    redeem-IsGrant text ids 1 "r1" 40 state plain true "GIFT" result bank-IsValid fresh_key redeems
      refl

gift_found : find_voucher (normalize_voucher_code plain "GIFT") state.vouchers ≡ some gift
unfolding find_voucher normalize_voucher_code
gift_found = refl

-- Another account, later, with the same code.
redeem_once_example :
    (redeem text
      (record { redemption = 63; entry = 64 })
      9
      "r2"
      41
      (redeem text ids 1 "r1" 40 state plain true "GIFT").1
      plain
      true
      "GIFT").1
    ≡ (redeem text ids 1 "r1" 40 state plain true "GIFT").1
redeem_once_example =
    redeem_once text ids (record { redemption = 63; entry = 64 }) 1 9 "r1" "r2" 40 41 plain true
      true "GIFT" "GIFT" refl state gift result gift_found redeems refl

keyed : get_campaign 2 state.campaigns ≡ some promo
unfolding get_campaign
keyed = refl

within : AreWithinLimits state
unfolding count_of_campaign count_of_account
within = (record { total = omega arith; per_account = λ account. omega arith }, tt)

redeem-AreWithinLimits_example :
    AreWithinLimits (redeem text ids 1 "r1" 40 state plain true "SUMMER").1
redeem-AreWithinLimits_example =
    redeem-AreWithinLimits text ids 1 "r1" 40 state (keyed, tt) within plain true "SUMMER"

promo_found : find_campaign "SUMMER" state.campaigns ≡ some promo
unfolding find_campaign
promo_found = refl

-- The new voucher asks for the campaign's code.
issue_unique_voucher_shadows_none_example :
    find_voucher "SUMMER"
      (issue_unique_voucher plain 3 "SUMMER" (pos 1) VoucherStatus.active none state).1.vouchers
    ≡ find_voucher "SUMMER" state.vouchers
issue_unique_voucher_shadows_none_example =
    issue_unique_voucher_shadows_none plain 3 "SUMMER" (pos 1) VoucherStatus.active none state
      "SUMMER" promo promo_found
