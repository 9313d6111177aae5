-- ===== src/Voucher/Codes.antt =====
-- Voucher codes: src/apps/billing/voucher_codes.py, and the two ways to issue a code of
-- src/apps/billing/services/voucher_redeem.py. Python's `unicodedata.normalize("NFKC", …)`, `strip`
-- and `upper` are the fields of `TextOps`.
use roamkit_api.Base.{
  ℕ, Bool, true, false, Option, some, List, [], ◌∷◌, String, str_eq, if◌then◌else◌, Result, ok, err,
}
use roamkit_api.Base.Int.{ℤ}
use roamkit_api.Voucher.{
  Voucher, VoucherCampaign, VoucherStatus, CampaignStatus, shared, unique, fixed_credit, State,
  has_code,
}

pub record TextOps : Type 0 where
  pub nfkc : String → String
  pub strip : String → String
  pub upper : String → String

unfoldable pub normalize_voucher_code : TextOps → String → String
normalize_voucher_code ops raw = ops.upper (ops.strip (ops.nfkc raw))

abbrev pub reserved_voucher_codes : List String
reserved_voucher_codes = "ADMIN" ∷ "TEST" ∷ "FREE" ∷ "DEMO" ∷ "NULL" ∷ "SYSTEM" ∷ []

unfoldable pub is_one_of : String → List String → Bool
is_one_of code [] = false
is_one_of code (r ∷ rest) = if str_eq code r then true else is_one_of code rest

unfoldable pub is_reserved_voucher_code : TextOps → String → Bool
unfolding normalize_voucher_code is_one_of
is_reserved_voucher_code ops code =
    let normalized = normalize_voucher_code ops code in
    if str_eq normalized "" then false else is_one_of normalized reserved_voucher_codes

pub data CodeError : Type 0 where
  empty_code reserved_code used_code : CodeError

-- `Voucher.objects.filter(code=…).exists()`
unfoldable pub voucher_uses : String → List Voucher → Bool
voucher_uses code [] = false
voucher_uses code (v ∷ rows) = if str_eq v.code code then true else voucher_uses code rows

-- `VoucherCampaign.objects.filter(code=…).exists()`
unfoldable pub campaign_uses : String → List VoucherCampaign → Bool
campaign_uses code [] = false
campaign_uses code (c ∷ rows) = if has_code c.code code then true else campaign_uses code rows

-- `assert_code_available`, with nothing excluded
unfoldable pub assert_code_available : TextOps → String → State → Result CodeError String
unfolding normalize_voucher_code is_reserved_voucher_code
assert_code_available ops raw s =
    let code = normalize_voucher_code ops raw in
    if str_eq code ""
    then err empty_code
    else if is_reserved_voucher_code ops code
    then err reserved_code
    else if voucher_uses code s.vouchers
    then err used_code
    else if campaign_uses code s.campaigns
    then err used_code
    else ok code

-- `issue_unique_voucher` under the key `pk`
unfoldable pub issue_unique_voucher :
    TextOps → ℕ → String → ℤ → VoucherStatus → Option ℕ → State → Result CodeError Voucher × State
unfolding assert_code_available
issue_unique_voucher ops pk raw credit_amount status expires_at s =
    elim (assert_code_available ops raw s) [
      | err e ↦ (err e, s)
      | ok code ↦
          let v : Voucher = record {
            id = pk;
            code = code;
            redemption_mode = unique;
            reward_type = fixed_credit;
            credit_amount = credit_amount;
            status = status;
            expires_at = expires_at;
          } in
          (ok v, record s { vouchers = v ∷ s.vouchers })
    ]

-- The arguments of a new campaign.
pub record Terms : Type 0 where
  pub credit_amount : ℤ
  pub max_redemptions_total : Option ℕ
  pub max_redemptions_per_account : Option ℕ
  pub starts_at : Option ℕ
  pub expires_at : Option ℕ
  pub status : CampaignStatus

-- `issue_shared_campaign` under the key `pk`
unfoldable pub issue_shared_campaign :
    TextOps → ℕ → String → Terms → State → Result CodeError VoucherCampaign × State
unfolding assert_code_available
issue_shared_campaign ops pk raw t s = elim (assert_code_available ops raw s) [
  | err e ↦ (err e, s)
  | ok code ↦
      let c : VoucherCampaign = record {
        id = pk;
        code = some code;
        redemption_mode = shared;
        reward_type = fixed_credit;
        credit_amount = t.credit_amount;
        max_redemptions_total = t.max_redemptions_total;
        max_redemptions_per_account = t.max_redemptions_per_account;
        starts_at = t.starts_at;
        expires_at = t.expires_at;
        status = t.status;
      } in
      (ok c, record s { campaigns = c ∷ s.campaigns })
]
