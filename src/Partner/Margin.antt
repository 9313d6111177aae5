-- ===== src/Partner/Margin.antt =====
-- `PartnerMarginService` of src/apps/billing/services/partner_margin.py. An accrual runs inside the
-- caller's transaction, so an error is the caller's rollback. `str` is Python's text of a primary
-- key; log lines carry the reasons that `Accrued` returns.
use Prim.Native.String.{◌++◌, count}
use roamkit_api.Base.{
  ℕ, Bool, true, false, not, ◌&&◌, ◌||◌, ◌==◌, leb, Option, none, some, is_none, List, [], ◌∷◌,
  String, if◌then◌else◌, Result, ok, err,
}
use roamkit_api.Base.Int.{ℤ, pos, ◌-ℤ◌, ◌*ℤ◌, ltb_ℤ, leb_ℤ, eqb_ℤ}
use roamkit_api.Money.{finite, quantize}
use roamkit_api.Ledger.{Account, CreditLedgerEntry, value, partner_margin}
use roamkit_api.Ledger.Credit.{
  CreditError, invalid_operation, money_places, Movement, Attempt, quiet, credit,
}
use roamkit_api.Partner.{
  PartnerChannel, ChannelKind, individual, team, CustomerAttribution, SourceType, source_value,
  subscription, order, topup, PartnerMarginAccrual, Store, get_channel, find_attribution,
  find_accrual, has_active_membership,
}
use roamkit_api.Partner.Settlement.{SettlementError, is_user, resolve_partner_settlement_account}

-- `build_source_id`: the texts are `str(source_uuid)` and `billing_date.isoformat()`; `none` is
-- the `ValueError` of a subscription with no date.
unfoldable pub build_source_id : SourceType → String → Option String → Option String
build_source_id subscription canonical none = none
build_source_id subscription canonical (some date) = some (canonical ++ (":" ++ date))
build_source_id order canonical date = some canonical
build_source_id topup canonical date = some canonical

pub data SkipReason : Type 0 where
  flag_disabled no_attribution channel_inactive self_referral : SkipReason
  net_missing net_negative invalid_margin zero_share : SkipReason

pub data Accrued : Type 0 where
  skipped : SkipReason → Accrued
  replay : PartnerMarginAccrual → Accrued
  accrued : PartnerMarginAccrual → Accrued

pub data AccrualError : Type 0 where
  credit_failed : CreditError → AccrualError
  settlement_invalid : SettlementError → AccrualError
  channel_missing insert_failed : AccrualError

is_member : ChannelKind → Option ℕ → ℕ → Store → Bool
is_member individual o user s = false
is_member team none user s = false
is_member team (some o) user s = has_active_membership o user s.memberships

is_owner : ChannelKind → Option ℕ → ℕ → Bool
is_owner individual owner user = is_user owner user
is_owner team owner user = false

unfoldable pub partner_channel_can_accrue_for_customer : PartnerChannel → ℕ → Store → Bool
unfolding is_member is_owner
partner_channel_can_accrue_for_customer c user s =
    if is_owner c.kind c.owner_user user
    then false
    else if is_member c.kind c.organization user s
    then false
    else true

-- The prices after `_price_skip` has let them through, or the reason of the skip.
unfoldable pub price_skip : Option ℤ → Option ℤ → ℤ → Result SkipReason (ℤ × ℤ)
price_skip list_price none percent = err net_missing
price_skip none (some net) percent = err invalid_margin
price_skip (some list) (some net) percent =
    if ltb_ℤ net (pos 0)
    then err net_negative
    else if ltb_ℤ list net
    then err invalid_margin
    else if leb_ℤ percent (pos 0)
    then err zero_share
    else ok (list, net)

-- `(margin * percent / Decimal("100")).quantize(MONEY_QUANT, ROUND_HALF_UP)`: six digits of the
-- margin, two of the percentage and two for the hundred.
unfoldable pub share_of : ℤ → ℤ → Option ℤ
unfolding quantize
share_of margin percent = quantize money_places (record { units = margin *ℤ percent; places = 10 })

pub record Event : Type 0 where
  pub source_type : SourceType
  pub source_id : String
  pub list_price : Option ℤ
  pub net_price : Option ℤ
  pub customer : Option ℕ

-- The fresh keys of the rows that a call may insert.
pub record NewIds : Type 0 where
  pub accrual : ℕ
  pub entry : ℕ

abbrev pub Accruing : Type 0
Accruing = Result AccrualError Accrued × Store

unfoldable pub margin_key : Event → String
margin_key ev = "partner-margin:" ++ (source_value ev.source_type ++ (":" ++ ev.source_id))

unfoldable pub names_entry : ℕ → List PartnerMarginAccrual → Bool
names_entry entry [] = false
names_entry entry (a ∷ rows) = a.ledger_entry == entry || names_entry entry rows

-- The columns and constraints of the audit row: the width of the source's text, one row for a
-- source, one row for an entry.
unfoldable pub can_insert : Store → PartnerMarginAccrual → Bool
unfolding names_entry
can_insert s row =
    leb (count row.source_id) 64
    && (is_none (find_accrual row.source_type row.source_id s.accruals)
        && not (names_entry row.ledger_entry s.accruals))

module _ (str : ℕ → String) (ids : NewIds) (ev : Event) (s : Store) where
  unfoldable pub margin_movement : Account → ℤ → Movement
  unfolding margin_key
  margin_movement account share = record {
    account = account.id;
    amount = some (finite (record { units = share; places = money_places }));
    reference_type = value partner_margin;
    reference_id = str ids.accrual;
    idempotency_key = margin_key ev;
  }

  abbrev pub new_accrual :
      ℕ
      → CustomerAttribution
      → PartnerChannel
      → ℤ × ℤ
      → ℤ
      → CreditLedgerEntry
      → PartnerMarginAccrual
  new_accrual user attribution c prices share entry = record {
    id = ids.accrual;
    partner_channel = c.id;
    customer_user = user;
    customer_user_id_snapshot = attribution.user;
    customer_attribution = attribution.id;
    source_type = ev.source_type;
    source_id = ev.source_id;
    list_price = prices.0;
    net_price = prices.1;
    margin = prices.0 -ℤ prices.1;
    revenue_share_percent = c.revenue_share_percent;
    partner_share = share;
    ledger_entry = entry.id;
  }

  -- The audit row, once the credit has been tried.
  unfoldable pub record_accrual :
      ℕ → CustomerAttribution → PartnerChannel → ℤ × ℤ → ℤ → Attempt → Accruing
  unfolding can_insert
  record_accrual user attribution c prices share (err e, bank) = (err (credit_failed e), s)
  record_accrual user attribution c prices share (ok entry, bank) =
      let row = new_accrual user attribution c prices share entry in
      if can_insert s row
      then (ok (accrued row), record s { bank = bank; accruals = row ∷ s.accruals })
      else (err insert_failed, s)

  -- From the settlement account on.
  unfoldable pub settle : ℕ → CustomerAttribution → PartnerChannel → ℤ × ℤ → ℤ → Accruing
  unfolding margin_movement record_accrual
  settle user attribution c prices share = elim (resolve_partner_settlement_account c s) [
    | err e ↦ (err (settlement_invalid e), s)
    | ok account ↦
        record_accrual user attribution c prices share
          (credit quiet ids.entry (margin_movement account share) s.bank)
  ]

  unfoldable pub accrue_share :
      ℕ → CustomerAttribution → PartnerChannel → ℤ × ℤ → Option ℤ → Accruing
  accrue_share user attribution c prices none = (err (credit_failed invalid_operation), s)
  accrue_share user attribution c prices (some share) =
      if eqb_ℤ share (pos 0)
      then (ok (skipped zero_share), s)
      else settle user attribution c prices share

  -- The tests behind the replay of an accrual that exists.
  unfoldable pub accrue_new : ℕ → CustomerAttribution → PartnerChannel → Accruing
  unfolding accrue_share share_of
  accrue_new user attribution c =
      if not c.is_active
      then (ok (skipped channel_inactive), s)
      else if not (partner_channel_can_accrue_for_customer c user s)
      then (ok (skipped self_referral), s)
      else elim (price_skip ev.list_price ev.net_price c.revenue_share_percent) [
        | err reason ↦ (ok (skipped reason), s)
        | ok prices ↦
            accrue_share user attribution c prices
              (share_of (prices.0 -ℤ prices.1) c.revenue_share_percent)
      ]

  unfoldable pub accrue_for : ℕ → CustomerAttribution → PartnerChannel → Accruing
  unfolding accrue_new
  accrue_for user attribution c = elim (find_accrual ev.source_type ev.source_id s.accruals) [
    | some existing ↦ (ok (replay existing), s)
    | none ↦ accrue_new user attribution c
  ]

  unfoldable pub accrue_attributed : ℕ → CustomerAttribution → Accruing
  unfolding accrue_for
  accrue_attributed user attribution = elim (get_channel attribution.partner_channel s.channels) [
    | none ↦ (err channel_missing, s)
    | some c ↦ accrue_for user attribution c
  ]

  unfoldable pub accrue_customer : Option ℕ → Accruing
  unfolding accrue_attributed
  accrue_customer none = (ok (skipped no_attribution), s)
  accrue_customer (some user) = elim (find_attribution user s.attributions) [
    | none ↦ (ok (skipped no_attribution), s)
    | some attribution ↦ accrue_attributed user attribution
  ]

  -- `accrue`, under the setting `PARTNER_CHANNEL_ENABLED`
  unfoldable pub accrue : Bool → Accruing
  unfolding accrue_customer
  accrue enabled =
      if not enabled then (ok (skipped flag_disabled), s) else accrue_customer ev.customer
