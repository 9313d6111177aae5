-- ===== src/Voucher/Outcomes.antt =====
-- A redemption of src/apps/billing/services/voucher_redeem.py by cases on its outcomes.
use Prim.Native.String.{count}
use roamkit_api.Base.{
  ℕ, ◌≡◌, refl, Bool, true, false, none, some, String, arith, Result, ok, err, inl, inr, Bool-cases,
  Option-cases, str_eq, if◌then◌else◌, leb,
}
use roamkit_api.Base.Int.{ℤ, pos, ltb_ℤ}
use roamkit_api.Ledger.{Bank, CreditLedgerEntry, get_account}
use roamkit_api.Ledger.Credit.{Attempt, quiet, credit}
use roamkit_api.Voucher.{
  Voucher, VoucherCampaign, VoucherRedemption, VoucherStatus, CampaignStatus, RewardType,
  fixed_credit, percent_bonus, free_subscription, free_topup, State, find_voucher, find_campaign,
  first_of_voucher, first_of_campaign, count_of_account, count_of_campaign,
}
use roamkit_api.Voucher.Codes.{TextOps, normalize_voucher_code, is_reserved_voucher_code}
use roamkit_api.Voucher.Redeem.{
  RedeemError, RedeemResult, Source, of_voucher, of_campaign, NewIds, Redeeming, has_passed,
  not_started, reached, is_single, replay_result, replay_of, redeem_key, redeem_movement,
  granted_state, granted_result, finish_grant, grant, grant_reward, redeem_active_voucher,
  redeem_redeemed, redeem_unique, limit_reached, redeem_active_campaign, redeem_shared, redeem_code,
  redeem, credit_amount_for_reward,
}
use roamkit_api.Voucher.Redeem

-- What a redemption demands of a voucher.
pub record OpenVoucher (instant : ℕ) (v : Voucher) : Type 0 where
  pub active : v.status ≡ VoucherStatus.active
  pub unexpired : has_passed v.expires_at instant ≡ false

-- What it demands of a campaign, for the redemptions that there are.
pub record OpenCampaign (account instant : ℕ) (s : State) (c : VoucherCampaign) : Type 0 where
  pub active : c.status ≡ CampaignStatus.active
  pub started : not_started c.starts_at instant ≡ false
  pub unexpired : has_passed c.expires_at instant ≡ false
  pub per_account :
      reached c.max_redemptions_per_account (count_of_account c.id account s.redemptions) ≡ false
  pub total : reached c.max_redemptions_total (count_of_campaign c.id s.redemptions) ≡ false

-- The code leads to an open voucher or, where it is no voucher's, to an open campaign.
abbrev pub IsOpen : ℕ → ℕ → State → String → Source → Type 0
IsOpen account instant s code (of_voucher v) =
    (find_voucher code s.vouchers ≡ some v) × OpenVoucher instant v
IsOpen account instant s code (of_campaign c) =
    (find_voucher code s.vouchers ≡ none)
    × (find_campaign code s.campaigns ≡ some c)
    × OpenCampaign account instant s c

abbrev pub promised : Source → ℤ
promised (of_voucher v) = v.credit_amount
promised (of_campaign c) = c.credit_amount

abbrev pub reward : Source → RewardType
reward (of_voucher v) = v.reward_type
reward (of_campaign c) = c.reward_type

module _ (str : ℕ → String) (ids : NewIds) (account : ℕ) (request_id : String) (instant : ℕ)
    (s : State) where
  abbrev pub IsRepeat : Result RedeemError RedeemResult → Type 0
  IsRepeat (ok x) = x.replay ≡ true
  IsRepeat (err e) = Unit

  -- The ways in which a redemption ends: only the last writes anything.
  pub data Redeems (code : String) (r : Redeeming) : Type 0 where
    unchanged : (x : Result RedeemError RedeemResult) → IsRepeat x → r ≡ (x, s) → Redeems code r
    granted :
        (source : Source) (entry : CreditLedgerEntry) (bank : Bank)
        → IsOpen account instant s code source
        → ltb_ℤ (pos 0) (promised source) ≡ true
        → credit quiet ids.entry
            (redeem_movement str ids account request_id instant s (promised source))
            s.bank
          ≡ (ok entry, bank)
        → r ≡ (
          ok (granted_result str ids account request_id instant s (promised source) entry),
          granted_state str ids account request_id instant s source (promised source) entry bank,
        )
        → Redeems code r

  module _ (code : String) where
    replay_of-Redeems :
        (row : VoucherRedemption)
        → Redeems code (replay_of str ids account request_id instant s row)
    unfolding replay_of
    replay_of-Redeems row = elim (Option-cases (get_account account s.bank.accounts)) [
      | inl missing ↦ unchanged (err Redeem.account_missing) tt (rw (missing, replay_of) refl)
      | inr (a, found) ↦
          unchanged (ok (replay_result str ids account request_id instant s row a)) refl
            (rw (found, replay_of) refl)
    ]

    grant-Redeems :
        (source : Source)
        → IsOpen account instant s code source
        → Redeems code (grant str ids account request_id instant s source (promised source))
    unfolding grant
    grant-Redeems source opened = elim (Bool-cases (leb (count request_id) 64)) [
      | inr long ↦ unchanged (err Redeem.data_error) tt (rw long)
      | inl fits ↦ elim (Bool-cases (ltb_ℤ (pos 0) (promised source))) [
        | inr low ↦ unchanged (err Redeem.amount_not_positive) tt (rw (fits, low))
        | inl positive ↦
            rw (fits, positive)
              (paid positive
                (credit quiet ids.entry
                  (redeem_movement str ids account request_id instant s (promised source)) s.bank)
                refl)
      ]
    ]
      where
        paid :
            ltb_ℤ (pos 0) (promised source) ≡ true
            → (attempt : Attempt)
            → credit quiet ids.entry
                (redeem_movement str ids account request_id instant s (promised source))
                s.bank
              ≡ attempt
            → Redeems code
                (finish_grant str ids account request_id instant s source (promised source) attempt)
        paid positive (err e, bank) p = unchanged (err (Redeem.credit_failed e)) tt (ground arith)
        paid positive (ok entry, bank) p =
            granted source entry bank opened positive p (ground arith)

    grant_reward-Redeems :
        (source : Source)
        → IsOpen account instant s code source
        → (reward_type : RewardType)
        → Redeems code
            (grant_reward str ids account request_id instant s source reward_type (promised source))
    unfolding grant_reward credit_amount_for_reward
    grant_reward-Redeems source opened fixed_credit = grant-Redeems source opened
    grant_reward-Redeems source opened percent_bonus =
        unchanged (err Redeem.unsupported_reward) tt refl
    grant_reward-Redeems source opened free_subscription =
        unchanged (err Redeem.unsupported_reward) tt refl
    grant_reward-Redeems source opened free_topup =
        unchanged (err Redeem.unsupported_reward) tt refl

    unique-Redeems :
        (v : Voucher) (status : VoucherStatus)
        → find_voucher code s.vouchers ≡ some v
        → v.status ≡ status
        → Redeems code (redeem_unique str ids account request_id instant s v status)
    unfolding redeem_unique redeem_active_voucher
    unique-Redeems v VoucherStatus.created found is = unchanged (err Redeem.voucher_invalid) tt refl
    unique-Redeems v VoucherStatus.revoked found is = unchanged (err Redeem.voucher_revoked) tt refl
    unique-Redeems v VoucherStatus.expired found is = unchanged (err Redeem.voucher_expired) tt refl
    unique-Redeems v VoucherStatus.redeemed found is =
        elim (Option-cases (first_of_voucher v.id account s.redemptions)) [
          | inl missing ↦ unchanged (err Redeem.voucher_invalid) tt (rw (missing, redeem_redeemed))
          | inr (row, first) ↦ rw (first, redeem_redeemed) (replay_of-Redeems row)
        ]
    unique-Redeems v VoucherStatus.active found is =
        elim (Bool-cases (has_passed v.expires_at instant)) [
          | inl late ↦ unchanged (err Redeem.voucher_expired) tt (rw late)
          | inr unexpired ↦ rw unexpired (
              grant_reward-Redeems (of_voucher v)
                (found, record { active = is; unexpired = unexpired }) v.reward_type)
        ]

    limit-Redeems :
        (c : VoucherCampaign) → Redeems code (limit_reached str ids account request_id instant s c)
    unfolding limit_reached
    limit-Redeems c = elim (Option-cases (first_of_campaign c.id account s.redemptions)) [
      | inl missing ↦ unchanged (err Redeem.voucher_limit) tt (rw (missing, limit_reached) refl)
      | inr (prior, found) ↦
          rw (found, limit_reached)
            (elim (Bool-cases (is_single c.max_redemptions_per_account)) [
              | inl single ↦ rw single (replay_of-Redeems prior)
              | inr more ↦ unchanged (err Redeem.voucher_limit) tt (rw more refl)
            ])
    ]

    shared-Redeems :
        (c : VoucherCampaign) (status : CampaignStatus)
        → find_voucher code s.vouchers ≡ none
        → find_campaign code s.campaigns ≡ some c
        → c.status ≡ status
        → Redeems code (redeem_shared str ids account request_id instant s c status)
    unfolding redeem_shared redeem_active_campaign
    shared-Redeems c CampaignStatus.draft none_such found is =
        unchanged (err Redeem.voucher_invalid) tt refl
    shared-Redeems c CampaignStatus.revoked none_such found is =
        unchanged (err Redeem.voucher_revoked) tt refl
    shared-Redeems c CampaignStatus.expired none_such found is =
        unchanged (err Redeem.voucher_expired) tt refl
    shared-Redeems c CampaignStatus.active none_such found is =
        elim (Bool-cases (not_started c.starts_at instant)) [
          | inl early ↦ unchanged (err Redeem.voucher_invalid) tt (rw early)
          | inr started ↦ elim (Bool-cases (has_passed c.expires_at instant)) [
            | inl late ↦ unchanged (err Redeem.voucher_expired) tt (rw started (rw late))
            | inr unexpired ↦ rw started (rw unexpired (by_limits started unexpired))
          ]
        ]
      where
        by_limits :
            not_started c.starts_at instant ≡ false
            → has_passed c.expires_at instant ≡ false
            → Redeems code (
                if reached c.max_redemptions_per_account
                  (count_of_account c.id account s.redemptions)
                then limit_reached str ids account request_id instant s c
                else if reached c.max_redemptions_total (count_of_campaign c.id s.redemptions)
                then (err Redeem.voucher_limit, s)
                else grant_reward str ids account request_id instant s
                    (of_campaign c)
                    c.reward_type
                    c.credit_amount)
        by_limits started unexpired =
            elim (Bool-cases (
              reached c.max_redemptions_per_account
                (count_of_account c.id account s.redemptions))) [
                  | inl used ↦ rw used (limit-Redeems c)
                  | inr per_account ↦
                      elim (Bool-cases
                        (reached c.max_redemptions_total (count_of_campaign c.id s.redemptions))) [
                          | inl full ↦
                              unchanged (err Redeem.voucher_limit) tt (rw per_account (rw full))
                          | inr total ↦ rw per_account (
                              rw total (
                                grant_reward-Redeems (of_campaign c)
                                  (
                                    none_such,
                                    found,
                                    record {
                                      active = is;
                                      started = started;
                                      unexpired = unexpired;
                                      per_account = per_account;
                                      total = total;
                                    },
                                  )
                                  c.reward_type))
                        ]
                ]

    redeem_code-Redeems : Redeems code (redeem_code str ids account request_id instant s code)
    unfolding redeem_code
    redeem_code-Redeems = elim (Option-cases (find_voucher code s.vouchers)) [
      | inr (v, found) ↦ rw (found, redeem_code) (unique-Redeems v v.status found refl)
      | inl none_such ↦ elim (Option-cases (find_campaign code s.campaigns)) [
        | inl missing ↦
            unchanged (err Redeem.voucher_invalid) tt
              (rw (none_such, redeem_code) (rw missing refl))
        | inr (c, found) ↦
            rw (none_such, redeem_code)
              (rw (found, redeem_code) (shared-Redeems c c.status none_such found refl))
      ]
    ]

  pub redeem-Redeems :
      (ops : TextOps) (enabled : Bool) (raw : String)
      → Redeems
          (normalize_voucher_code ops raw)
          (redeem str ids account request_id instant s ops enabled raw)
  unfolding redeem
  redeem-Redeems ops enabled raw = elim (Bool-cases enabled) [
    | inr off ↦ unchanged (err Redeem.vouchers_disabled) tt (rw off)
    | inl on ↦ elim (Bool-cases (str_eq (normalize_voucher_code ops raw) "")) [
      | inl empty ↦ unchanged (err Redeem.voucher_invalid) tt (rw on (rw empty))
      | inr given ↦
          elim (Bool-cases (is_reserved_voucher_code ops (normalize_voucher_code ops raw))) [
            | inl kept ↦ unchanged (err Redeem.voucher_reserved) tt (rw on (rw given (rw kept)))
            | inr free ↦
                rw on (rw given (rw free (redeem_code-Redeems (normalize_voucher_code ops raw))))
          ]
    ]
  ]
