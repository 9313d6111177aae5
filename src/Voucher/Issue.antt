-- ===== src/Voucher/Issue.antt =====
-- Issuing codes in src/apps/billing/services/voucher_redeem.py: unique vouchers are looked up before
-- campaigns, so a new voucher must not take a campaign's code.
use roamkit_api.Base.{
  ℕ, ◌≡◌, refl, true, false, Option, some, List, [], ◌∷◌, String, arith, ok, str_eq, eq_iff, inl,
  inr, Result-cases,
}
use roamkit_api.Base.Int.{ℤ}
use roamkit_api.Voucher.{VoucherCampaign, VoucherStatus, State, find_voucher, find_campaign}
use roamkit_api.Voucher.Codes.{TextOps, campaign_uses, assert_code_available, issue_unique_voucher}

found_uses :
    (code : String) (c : VoucherCampaign) (rows : List VoucherCampaign)
    → find_campaign code rows ≡ some c
    → campaign_uses code rows ≡ true
unfolding find_campaign campaign_uses
found_uses code c [] h = cc
found_uses code c (x ∷ rows) h = ground (arith, found_uses code c rows)

available_unused :
    (ops : TextOps) (raw code : String) (s : State)
    → assert_code_available ops raw s ≡ ok code
    → campaign_uses code s.campaigns ≡ false
unfolding assert_code_available
available_unused ops raw code s h = ground (arith, h)

-- Issuing a unique voucher never changes where the code of a shared campaign leads.
pub issue_unique_voucher_shadows_none :
    (ops : TextOps) (pk : ℕ) (raw : String) (amount : ℤ) (status : VoucherStatus)
    (expires_at : Option ℕ) (s : State) (code : String) (c : VoucherCampaign)
    → find_campaign code s.campaigns ≡ some c
    → find_voucher code (issue_unique_voucher ops pk raw amount status expires_at s).1.vouchers
      ≡ find_voucher code s.vouchers
unfolding issue_unique_voucher find_voucher
issue_unique_voucher_shadows_none ops pk raw amount status expires_at s code c found =
    elim (Result-cases (assert_code_available ops raw s)) [
      | inr (e, refused) ↦ rw (refused, issue_unique_voucher) refl
      | inl (new, available) ↦
          let unused = available_unused ops raw new s available in
          let used = found_uses code c s.campaigns found in
          let differs : str_eq new code ≡ false = ground (arith, eq_iff new code, unused, used) in
          rw (available, issue_unique_voucher) (rw differs refl)
    ]
