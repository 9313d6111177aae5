-- ===== src/Voucher/Limits.antt =====
-- The limits of shared campaigns in src/apps/billing/services/voucher_redeem.py.
use mathlib.Core.Path.{subst}
use roamkit_api.Base.{
  ℕ, ◌+◌, ◌≤◌, ◌≡◌, ◌≢◌, refl, Bool, true, false, Option, none, some, List, [], ◌∷◌, String, arith,
  if◌then◌else◌, sym, ◌==◌, inl, inr, Bool-cases, ◌&&◌, All,
}
use roamkit_api.Voucher.{
  VoucherCampaign, VoucherRedemption, State, find_campaign, count_of_account, count_of_campaign,
  has_code, is_shared, is_key,
}
use roamkit_api.Voucher.Codes.{TextOps, normalize_voucher_code}
use roamkit_api.Voucher.Redeem.{
  of_voucher, of_campaign, NewIds, Redeeming, reached, new_redemption, redeem,
}
use roamkit_api.Voucher.Outcomes.{Redeems, unchanged, granted, redeem-Redeems}

abbrev pub IsAtMost : Option ℕ → ℕ → Type 0
IsAtMost none n = Unit
IsAtMost (some limit) n = n ≤ limit

-- The campaign has not been redeemed more often than its limits say, in all and by any account.
pub record IsWithinLimits (rows : List VoucherRedemption) (c : VoucherCampaign) : Type 0 where
  pub total : IsAtMost c.max_redemptions_total (count_of_campaign c.id rows)
  pub per_account :
      (account : ℕ) → IsAtMost c.max_redemptions_per_account (count_of_account c.id account rows)

-- Every campaign is within its limits.
abbrev pub AreWithinLimits : State → Type 0
AreWithinLimits s = All (IsWithinLimits s.redemptions) s.campaigns

unfoldable pub get_campaign : ℕ → List VoucherCampaign → Option VoucherCampaign
get_campaign pk [] = none
get_campaign pk (c ∷ rows) = if c.id == pk then some c else get_campaign pk rows

-- `id` is the primary key of the campaigns: each row is the one that its key finds.
abbrev pub IsKeyed : List VoucherCampaign → Type 0
IsKeyed rows = All (λ (c : VoucherCampaign). get_campaign c.id rows ≡ some c) rows

step_limit :
    (limit : Option ℕ) (n : ℕ) (b : Bool)
    → IsAtMost limit n
    → reached limit n ≡ false
    → IsAtMost limit (if b then n + 1 else n)
step_limit none n b w h = tt
step_limit (some limit) n true w h = ground (arith, h)
step_limit (some limit) n false w h = w

-- One more redemption of a campaign that is open to the account.
added-IsWithinLimits :
    (c : VoucherCampaign) (r : VoucherRedemption) (rows : List VoucherRedemption)
    → IsWithinLimits rows c
    → reached c.max_redemptions_total (count_of_campaign c.id rows) ≡ false
    → reached c.max_redemptions_per_account (count_of_account c.id r.account rows) ≡ false
    → IsWithinLimits (r ∷ rows) c
unfolding count_of_campaign count_of_account
added-IsWithinLimits c r rows w total per = record {
  total =
      step_limit c.max_redemptions_total (count_of_campaign c.id rows) (is_key r.campaign c.id)
        w.total total;
  per_account = λ account. elim (Bool-cases (r.account == account)) [
    | inl own ↦
        let same : r.account ≡ account = ground (arith, own) in
        step_limit c.max_redemptions_per_account (count_of_account c.id account rows)
          (is_key r.campaign c.id && r.account == account) (w.per_account account) (rw same at per)
    | inr other ↦
        rw (not_counted (is_key r.campaign c.id) (r.account == account) other)
          (w.per_account account)
  ];
}
  where
    not_counted : (a b : Bool) → b ≡ false → (a && b) ≡ false
    not_counted a b h = ground (arith, h)

-- A redemption of something else.
other-IsWithinLimits :
    (c : VoucherCampaign) (r : VoucherRedemption) (rows : List VoucherRedemption)
    → IsWithinLimits rows c
    → r.campaign ≢ some c.id
    → IsWithinLimits (r ∷ rows) c
unfolding count_of_campaign count_of_account
other-IsWithinLimits c r rows w other =
    let elsewhere : is_key r.campaign c.id ≡ false = missed r.campaign c.id other in
    record {
      total = rw elsewhere w.total;
      per_account = λ account. rw elsewhere (w.per_account account);
    }
  where
    missed : (k : Option ℕ) (pk : ℕ) → k ≢ some pk → is_key k pk ≡ false
    missed none pk h = refl
    missed (some k) pk h = ground (arith, h)

All-found :
    (P : VoucherCampaign → Type 0) (code : String) (c : VoucherCampaign)
    (rows : List VoucherCampaign)
    → All P rows
    → find_campaign code rows ≡ some c
    → P c
unfolding find_campaign
All-found P code c [] all h = cc
All-found P code c (x ∷ rows) all h =
    elim (Bool-cases (has_code x.code code && is_shared x.redemption_mode)) [
      | inl hit ↦ subst P (ground (arith, hit)) all.0
      | inr miss ↦ All-found P code c rows all.1 (ground (arith, miss))
    ]

All-both :
    {P Q R : VoucherCampaign → Type 0}
    → ((c : VoucherCampaign) → P c → Q c → R c)
    → (rows : List VoucherCampaign) → All P rows
    → All Q rows
    → All R rows
All-both f [] p q = tt
All-both f (c ∷ rows) p q = (f c p.0 q.0, All-both f rows p.1 q.1)

module _ (str : ℕ → String) (ids : NewIds) (account : ℕ) (request_id : String) (instant : ℕ)
    (s : State) (keyed : IsKeyed s.campaigns) (within : AreWithinLimits s) where
  limits_cases :
      (code : String) (r : Redeeming)
      → Redeems str ids account request_id instant s code r
      → AreWithinLimits r.1
  limits_cases code r (unchanged x again p) = rw p within
  limits_cases code r (granted (of_voucher v) entry bank opened positive p q) = rw q (
      All-both
        (λ c w _.
          other-IsWithinLimits c
            (new_redemption str ids account request_id instant s (of_voucher v) v.credit_amount
              entry)
            s.redemptions w (λ e. cc e))
        s.campaigns within keyed)
  limits_cases code r (granted (of_campaign c) entry bank opened positive p q) =
      let own =
        All-found (λ (y : VoucherCampaign). get_campaign y.id s.campaigns ≡ some y) code c
          s.campaigns keyed opened.1 in
      rw q (All-both (λ x w k. by_key x w k own) s.campaigns within keyed)
    where
      new : VoucherRedemption
      new =
          new_redemption str ids account request_id instant s (of_campaign c) c.credit_amount entry

      by_key :
          (x : VoucherCampaign)
          → IsWithinLimits s.redemptions x
          → get_campaign x.id s.campaigns ≡ some x
          → get_campaign c.id s.campaigns ≡ some c
          → IsWithinLimits (new ∷ s.redemptions) x
      by_key x w k own = elim (Bool-cases (x.id == c.id)) [
        | inl hit ↦
            let same : c ≡ x = ground (arith, hit, k, own) in
            subst (IsWithinLimits (new ∷ s.redemptions)) same (
              added-IsWithinLimits c new s.redemptions
                (subst (IsWithinLimits s.redemptions) (sym same) w) opened.2.total
                opened.2.per_account)
        | inr miss ↦ other-IsWithinLimits x new s.redemptions w (λ e. ground (arith, miss, e))
      ]

  -- If the campaigns' keys are unique and every campaign is within its total limit and its limit
  -- for each account, then so it is after a redemption, however it ends.
  pub redeem-AreWithinLimits :
      (ops : TextOps) (enabled : Bool) (raw : String)
      → AreWithinLimits (redeem str ids account request_id instant s ops enabled raw).1
  redeem-AreWithinLimits ops enabled raw =
      limits_cases (normalize_voucher_code ops raw)
        (redeem str ids account request_id instant s ops enabled raw)
        (redeem-Redeems str ids account request_id instant s ops enabled raw)
