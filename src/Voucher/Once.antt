-- ===== src/Voucher/Once.antt =====
-- What a redemption of src/apps/billing/services/voucher_redeem.py has done when it reports a grant,
-- and that a voucher is granted once.
use mathlib.Core.Path.{subst}
use roamkit_api.Base.{
  ℕ, ◌≡◌, refl, Bool, false, none, some, List, [], ◌∷◌, String, arith, ok, err, str_eq, ap, sym,
  inl, inr, Bool-cases, ◌&&◌,
}
use roamkit_api.Base.Int.{pos, ◌≤ℤ◌}
use roamkit_api.Ledger.{Account, CreditLedgerEntry, get_account, find_key}
use roamkit_api.Ledger.Credit.{Attempt}
use roamkit_api.Ledger.Invariant.{IsValid, credit-IsValid}
use roamkit_api.Ledger.Effects.{Moves, credit_moves}
use roamkit_api.Voucher.{
  Voucher, VoucherRedemption, VoucherStatus, State, find_voucher, mark_redeemed, mark_row,
  is_unique,
}
use roamkit_api.Voucher.Codes.{TextOps, normalize_voucher_code}
use roamkit_api.Voucher.Redeem.{
  RedeemResult, Source, of_voucher, of_campaign, voucher_key, campaign_key, NewIds, Redeeming, mark,
  redeem_key, redeem_movement, granted_state, granted_result, redeem,
}
use roamkit_api.Voucher.Outcomes.{IsOpen, promised, Redeems, unchanged, granted, redeem-Redeems}

module _ (str : ℕ → String) (ids : NewIds) (account : ℕ) (request_id : String) (instant : ℕ)
    (s : State) where
  -- What a reported grant `x` for the code has done from `s` to `s'`.
  pub record IsGrant (code : String) (x : RedeemResult) (s' : State) : Type 0 where
    pub source : Source
    pub opened : IsOpen account instant s code source
    pub amount : x.credited ≡ promised source
    pub positive : pos 1 ≤ℤ x.credited
    pub marked : s'.vouchers ≡ mark source s.vouchers
    pub campaigns : s'.campaigns ≡ s.campaigns
    pub row : VoucherRedemption
    pub stored : s'.redemptions ≡ row ∷ s.redemptions
    pub row_source : (row.voucher ≡ voucher_key source) × (row.campaign ≡ campaign_key source)
    pub row_account : row.account ≡ account
    pub paid :
        (locked : Account) × (entry : CreditLedgerEntry) × (get_account account s.bank.accounts
          ≡ some locked)
        × (entry.delta ≡ x.credited)
        × (row.ledger_entry_id ≡ some entry.id)
        × (x.balance ≡ entry.balance_after)
        × Moves s.bank account locked entry s'.bank

  IsGrant-cases :
      (code : String) (r : Redeeming) (x : RedeemResult)
      → IsValid s.bank
      → find_key (redeem_key str ids account request_id instant s) s.bank.ledger ≡ none
      → Redeems str ids account request_id instant s code r
      → r.0 ≡ ok x
      → x.replay ≡ false
      → IsGrant code x r.1
  IsGrant-cases code r x v fresh (unchanged (ok y) again p) h new = cc
  IsGrant-cases code r x v fresh (unchanged (err e) again p) h new = cc
  IsGrant-cases code r x v fresh (granted source entry bank opened positive p q) h new =
      let made : granted_result str ids account request_id instant s (promised source) entry ≡ x =
        ground arith in
      let (locked, found, delta, more, moves) =
        credit_moves ids.entry
          (redeem_movement str ids account request_id instant s (promised source)) (promised source)
          s.bank entry v (unfold redeem_movement in fresh) (unfold redeem_movement in refl)
          (ap (λ (a : Attempt). a.0) p) in
      rw q (
        subst
          (λ y. IsGrant code y (
            granted_state str ids account request_id instant s source (promised source) entry bank))
          made
          (record {
            source = source;
            opened = opened;
            amount = refl;
            positive = more;
            marked = refl;
            campaigns = refl;
            row = _;
            stored = refl;
            row_source = (refl, refl);
            row_account = refl;
            paid = (
              locked,
              entry,
              unfold redeem_movement in found,
              delta,
              refl,
              refl,
              subst (λ (a : Attempt). Moves s.bank account locked entry a.1) p
                  (unfold redeem_movement in moves),
            );
          }))

  -- Under the invariant of the ledger, and with no earlier entry under the redemption's key, a
  -- redemption that reports a new grant has found the code's open voucher or campaign, has marked
  -- that voucher redeemed, has stored one redemption for it, and has moved exactly its positive
  -- credit amount to the account, under the entry that the redemption names; the reported balance
  -- is the one after that entry.
  pub redeem-IsGrant :
      (ops : TextOps) (enabled : Bool) (raw : String) (x : RedeemResult)
      → IsValid s.bank
      → find_key (redeem_key str ids account request_id instant s) s.bank.ledger ≡ none
      → (redeem str ids account request_id instant s ops enabled raw).0 ≡ ok x
      → x.replay ≡ false
      → IsGrant
          (normalize_voucher_code ops raw)
          x
          (redeem str ids account request_id instant s ops enabled raw).1
  redeem-IsGrant ops enabled raw x v fresh h new =
      IsGrant-cases (normalize_voucher_code ops raw)
        (redeem str ids account request_id instant s ops enabled raw) x v fresh
        (redeem-Redeems str ids account request_id instant s ops enabled raw) h new

  kept_by :
      (code : String) (r : Redeeming)
      → Redeems str ids account request_id instant s code r
      → IsValid s.bank
      → IsValid r.1.bank
  kept_by code r (unchanged x again p) v = rw p v
  kept_by code r (granted source entry bank opened positive p q) v = rw q (
      subst (λ (a : Attempt). IsValid a.1) p
        (credit-IsValid ids.entry
          (redeem_movement str ids account request_id instant s (promised source)) s.bank v))

  -- From a bank that keeps the invariant of the ledger a redemption keeps it, however it ends.
  pub redeem-IsValid :
      (ops : TextOps) (enabled : Bool) (raw : String)
      → IsValid s.bank
      → IsValid (redeem str ids account request_id instant s ops enabled raw).1.bank
  redeem-IsValid ops enabled raw v =
      kept_by (normalize_voucher_code ops raw)
        (redeem str ids account request_id instant s ops enabled raw)
        (redeem-Redeems str ids account request_id instant s ops enabled raw) v

mark_row-code :
    (pk : ℕ) (w : Voucher)
    → ((mark_row pk w).code ≡ w.code) × ((mark_row pk w).redemption_mode ≡ w.redemption_mode)
mark_row-code pk w = ground arith

mark_row_self : (v : Voucher) → mark_row v.id v ≡ record v { status = VoucherStatus.redeemed }
mark_row_self v = ground arith

-- The code of a redeemed voucher leads to that voucher, now redeemed.
find_voucher-mark_redeemed :
    (code : String) (v : Voucher) (rows : List Voucher)
    → find_voucher code rows ≡ some v
    → find_voucher code (mark_redeemed v.id rows)
      ≡ some (record v { status = VoucherStatus.redeemed })
unfolding find_voucher mark_redeemed
find_voucher-mark_redeemed code v [] h = cc
find_voucher-mark_redeemed code v (w ∷ rows) h =
    elim (Bool-cases (str_eq w.code code && is_unique w.redemption_mode)) [
      | inl hit ↦
          let same : w ≡ v = ground (arith, hit) in
          rw (kept.0, kept.1)
            (rw hit (
              subst
                (λ x. some (mark_row v.id x) ≡ some (record v { status = VoucherStatus.redeemed }))
                (sym same) (ap some (mark_row_self v))))
      | inr miss ↦
          rw (kept.0, kept.1)
            (rw miss (find_voucher-mark_redeemed code v rows (ground (arith, miss))))
    ]
  where
    kept :
        ((mark_row v.id w).code ≡ w.code) × ((mark_row v.id w).redemption_mode ≡ w.redemption_mode)
    kept = mark_row-code v.id w

module _ (str : ℕ → String) (ids ids' : NewIds) (account account' : ℕ) (request request' : String)
    (instant instant' : ℕ) (ops : TextOps) (enabled enabled' : Bool) (raw raw' : String)
    (same_code : normalize_voucher_code ops raw' ≡ normalize_voucher_code ops raw) where
  closed_voucher :
      (s : State) (v : Voucher) (r : Redeeming)
      → find_voucher (normalize_voucher_code ops raw) s.vouchers
        ≡ some (record v { status = VoucherStatus.redeemed })
      → Redeems str ids' account' request' instant' s (normalize_voucher_code ops raw) r
      → r.1 ≡ s
  closed_voucher s v r found (unchanged x again p) = ap (λ (y : Redeeming). y.1) p
  closed_voucher s v r found (granted (of_voucher w) entry bank opened positive p q) =
      absurd (ground (arith, found, opened.0, opened.1.active))
  closed_voucher s v r found (granted (of_campaign c) entry bank opened positive p q) =
      cc (opened.0)

  once_cases :
      (s : State) (v : Voucher) (r : Redeeming) (x : RedeemResult)
      → find_voucher (normalize_voucher_code ops raw) s.vouchers ≡ some v
      → Redeems str ids account request instant s (normalize_voucher_code ops raw) r
      → r.0 ≡ ok x
      → x.replay ≡ false
      → find_voucher (normalize_voucher_code ops raw) r.1.vouchers
        ≡ some (record v { status = VoucherStatus.redeemed })
  once_cases s v r x found (unchanged (ok y) again p) h new = cc
  once_cases s v r x found (unchanged (err e) again p) h new = cc
  once_cases s v r x found (granted (of_campaign c) entry bank opened positive p q) h new =
      cc (opened.0)
  once_cases s v r x found (granted (of_voucher w) entry bank opened positive p q) h new =
      let same : w ≡ v = ground (arith, opened.0, found) in
      rw q (
        subst
          (λ y.
            find_voucher (normalize_voucher_code ops raw) (mark_redeemed y.id s.vouchers)
            ≡ some (record v { status = VoucherStatus.redeemed }))
          (sym same)
          (find_voucher-mark_redeemed (normalize_voucher_code ops raw) v s.vouchers found))

  -- Once the code of a unique voucher has been granted, no further redemption of the same
  -- normalized code, by any account and at any instant, changes anything.
  pub redeem_once :
      (s : State) (v : Voucher) (x : RedeemResult)
      → find_voucher (normalize_voucher_code ops raw) s.vouchers ≡ some v
      → (redeem str ids account request instant s ops enabled raw).0 ≡ ok x
      → x.replay ≡ false
      → (redeem str ids' account' request' instant'
          (redeem str ids account request instant s ops enabled raw).1
          ops
          enabled'
          raw').1
        ≡ (redeem str ids account request instant s ops enabled raw).1
  redeem_once s v x found h new =
      let s' = (redeem str ids account request instant s ops enabled raw).1 in
      closed_voucher s' v (redeem str ids' account' request' instant' s' ops enabled' raw')
        (once_cases s v (redeem str ids account request instant s ops enabled raw) x found
          (redeem-Redeems str ids account request instant s ops enabled raw) h new)
        (rw same_code at (redeem-Redeems str ids' account' request' instant' s' ops enabled' raw'))
