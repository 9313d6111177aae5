-- ===== src/Partner/Settlement.antt =====
-- `resolve_partner_settlement_account` of src/apps/billing/services/partner_settlement.py: the
-- account that settles a channel. It reads the tables and writes none.
use roamkit_api.Base.{
  ℕ, ◌≡◌, refl, Bool, true, false, not, ◌&&◌, Option, none, some, List, [], ◌∷◌, arith, ◌==◌,
  is_none, Option-cases, ◌∙◌, inl, inr, ap, sym, if◌then◌else◌, Result, ok, err, ◌>>=◌, ◌>>◌,
  raise_if,
}
use roamkit_api.Ledger.{Account, AccountKind, personal, organization, get_account}
use roamkit_api.Partner.{
  PartnerChannel, ChannelKind, individual, team, Organization, Store, get_organization,
  organization_of_account,
}

pub data SettlementError : Type 0 where
  ownership_invalid account_missing : SettlementError

abbrev pub is_user : Option ℕ → ℕ → Bool
is_user none pk = false
is_user (some u) pk = u == pk

-- `owner.billing_account`
unfoldable pub billing_account : ℕ → List Account → Option Account
billing_account user [] = none
billing_account user (a ∷ rows) = if is_user a.user user then some a else billing_account user rows

is_personal : AccountKind → Bool
is_personal personal = true
is_personal organization = false

-- `_is_owner_personal_account`
unfoldable pub is_owner_personal_account : Account → ℕ → List Organization → Bool
unfolding is_personal
is_owner_personal_account a owner organizations =
    is_personal a.kind
    && (is_user a.user owner && is_none (organization_of_account a.id organizations))

linked_is : Option Organization → Organization → Bool
linked_is none o = false
linked_is (some l) o = l.id == o.id

-- `_is_organization_account`
unfoldable pub is_organization_account : Account → Organization → List Organization → Bool
unfolding is_personal linked_is
is_organization_account a o organizations =
    not (is_personal a.kind)
    && (is_none a.user
        && (o.account == a.id && linked_is (organization_of_account a.id organizations) o))

abbrev pub or_missing : Option Account → Result SettlementError Account
or_missing none = err account_missing
or_missing (some a) = ok a

-- `_personal_settlement_account`, after `_require_individual_owner`
personal_settlement : Option ℕ → Option ℕ → Store → Result SettlementError Account
personal_settlement (some owner) none s = do
  account ← or_missing (billing_account owner s.bank.accounts)
  raise_if (not (is_owner_personal_account account owner s.organizations)) account_missing
  ok account
personal_settlement none o s = err ownership_invalid
personal_settlement (some owner) (some o) s = err ownership_invalid

abbrev or_invalid : Option Organization → Result SettlementError Organization
or_invalid none = err ownership_invalid
or_invalid (some o) = ok o

-- `_organization_settlement_account`, after `_require_team_owner`
organization_settlement : Option ℕ → Option ℕ → Store → Result SettlementError Account
organization_settlement none (some pk) s = do
  o ← or_invalid (get_organization pk s.organizations)
  account ← or_missing (get_account o.account s.bank.accounts)
  raise_if (not (is_organization_account account o s.organizations)) account_missing
  ok account
organization_settlement (some u) o s = err ownership_invalid
organization_settlement none none s = err ownership_invalid

unfoldable pub resolve_partner_settlement_account :
    PartnerChannel → Store → Result SettlementError Account
unfolding personal_settlement organization_settlement
resolve_partner_settlement_account c s = elim c.kind [
  | individual ↦ personal_settlement c.owner_user c.organization s
  | team ↦ organization_settlement c.owner_user c.organization s
]

abbrev PersonalOf : Option ℕ → Option ℕ → Store → Account → Type 0
PersonalOf owner o s a =
    (a.kind ≡ personal)
    × (a.user ≡ owner)
    × (o ≡ none)
    × (organization_of_account a.id s.organizations ≡ none)
    × ((u : ℕ) × (owner ≡ some u) × (billing_account u s.bank.accounts ≡ some a))

abbrev TeamOf : Option ℕ → Option ℕ → Store → Account → Type 0
TeamOf owner pk s a =
    (a.kind ≡ organization)
    × (a.user ≡ none)
    × (owner ≡ none)
    × ((o : Organization) × (linked : Organization) × (pk ≡ some o.id)
        × (get_organization o.id s.organizations ≡ some o)
        × (o.account ≡ a.id)
        × (get_account o.account s.bank.accounts ≡ some a)
        × (organization_of_account a.id s.organizations ≡ some linked)
        × (linked.id ≡ o.id))

-- The account belongs to the owner of the channel: the stored billing account of its user, personal
-- and with no organization pointing at it, or the stored account that the channel's own row of the
-- organizations names, of the organization kind, with no user, and pointed at by that organization.
abbrev pub SettlesOn : ChannelKind → PartnerChannel → Store → Account → Type 0
SettlesOn individual c s a = PersonalOf c.owner_user c.organization s a
SettlesOn team c s a = TeamOf c.owner_user c.organization s a

is_none-eq {ℓ} : {A : Type ℓ} (o : Option A) → is_none o ≡ true → o ≡ none
is_none-eq none h = refl
is_none-eq (some a) h = cc

is_user-eq : (o : Option ℕ) (u : ℕ) → is_user o u ≡ true → o ≡ some u
is_user-eq none u h = cc
is_user-eq (some v) u h = ground arith

id-get_organization :
    (pk : ℕ) (rows : List Organization) (o : Organization)
    → get_organization pk rows ≡ some o
    → o.id ≡ pk
unfolding get_organization
id-get_organization pk [] o h = cc
id-get_organization pk (x ∷ rows) o h = ground (arith, id-get_organization pk rows o)

owner_check :
    (a : Account) (owner : ℕ) (s : Store)
    → is_owner_personal_account a owner s.organizations ≡ true
    → (a.kind ≡ personal)
      × (a.user ≡ some owner)
      × (organization_of_account a.id s.organizations ≡ none)
unfolding is_owner_personal_account
owner_check a owner s h =
    ground
      (arith, is_user-eq a.user owner, is_none-eq (organization_of_account a.id s.organizations))

personal_settlement-owned :
    (owner o : Option ℕ) (s : Store) (a : Account)
    → personal_settlement owner o s ≡ ok a
    → PersonalOf owner o s a
unfolding personal_settlement
personal_settlement-owned (some owner) none s a h =
    elim (Option-cases (billing_account owner s.bank.accounts)) [
      | inl missing ↦ absurd (ground (arith, h, missing))
      | inr (b, found) ↦
          let same : b ≡ a = ground (arith, h, found) in
          let fits : (a.kind ≡ personal)
              × (a.user ≡ some owner)
              × (organization_of_account a.id s.organizations ≡ none) =
            ground (arith, h, found, owner_check a owner s) in
          (fits.0, fits.1, refl, fits.2, (owner, refl, rw (← same) found))
    ]
personal_settlement-owned none o s a h = cc
personal_settlement-owned (some owner) (some o) s a h = cc

organization_check :
    (a : Account) (o : Organization) (s : Store)
    → is_organization_account a o s.organizations ≡ true
    → (a.kind ≡ organization)
      × (a.user ≡ none)
      × (o.account ≡ a.id)
      × (linked_is (organization_of_account a.id s.organizations) o ≡ true)
unfolding is_organization_account
organization_check a o s h = ground (arith, is_none-eq a.user)

linked_is-eq :
    (l : Option Organization) (o : Organization)
    → linked_is l o ≡ true
    → (linked : Organization) × (l ≡ some linked) × (linked.id ≡ o.id)
unfolding linked_is
linked_is-eq none o h = cc
linked_is-eq (some l) o h = (l, refl, ground (arith, h))

-- What follows where the organization has been found.
team_settlement :
    (o : Organization) (pk : ℕ) (s : Store) (a : Account)
    → o.id ≡ pk
    → get_organization pk s.organizations ≡ some o
    → (or_missing (get_account o.account s.bank.accounts) >>= λ account.
        raise_if (not (is_organization_account account o s.organizations)) account_missing
        >> ok account)
      ≡ ok a
    → TeamOf none (some pk) s a
team_settlement o pk s a found_id found h =
    elim (Option-cases (get_account o.account s.bank.accounts)) [
      | inl missing ↦ absurd (ground (arith, h, missing))
      | inr (b, row) ↦
          let same : b ≡ a = ground (arith, h, row) in
          let fits : (a.kind ≡ organization)
              × (a.user ≡ none)
              × (o.account ≡ a.id)
              × (linked_is (organization_of_account a.id s.organizations) o ≡ true) =
            ground (arith, h, row, organization_check a o s) in
          let (linked, points, own) =
            linked_is-eq (organization_of_account a.id s.organizations) o fits.3 in
          (
            fits.0,
            fits.1,
            refl,
            (
              o,
              linked,
              ap some (sym found_id),
              ap (λ k. get_organization k s.organizations) found_id ∙ found,
              fits.2,
              rw (← same) row,
              points,
              own,
            ),
          )
    ]

organization_settlement-owned :
    (owner o : Option ℕ) (s : Store) (a : Account)
    → organization_settlement owner o s ≡ ok a
    → TeamOf owner o s a
unfolding organization_settlement
organization_settlement-owned none (some pk) s a h =
    elim (Option-cases (get_organization pk s.organizations)) [
      | inl missing ↦ absurd (ground arith)
      | inr (o, found) ↦
          let found_id = id-get_organization pk s.organizations o found in
          team_settlement o pk s a found_id found (ground (arith, h, found))
    ]
organization_settlement-owned (some u) o s a h = cc
organization_settlement-owned none none s a h = cc

-- A resolved account belongs to the owner of the channel: for an individual it is the billing account
-- of the channel's own user, personal, with no organization pointing at it; for a team it is the
-- account named by the stored row of the channel's own organization, of the organization kind, with
-- no user, and the organization that points at it is that one.
pub resolve_partner_settlement_account-SettlesOn :
    (c : PartnerChannel) (s : Store) (a : Account)
    → resolve_partner_settlement_account c s ≡ ok a
    → SettlesOn c.kind c s a
unfolding resolve_partner_settlement_account
resolve_partner_settlement_account-SettlesOn c s a = by_kind c.kind
  where
    by_kind :
        (k : ChannelKind)
        → elim k as (λ _. Result SettlementError Account) [
          | individual ↦ personal_settlement c.owner_user c.organization s
          | team ↦ organization_settlement c.owner_user c.organization s
        ]
          ≡ ok a
        → SettlesOn k c s a
    by_kind individual h = personal_settlement-owned c.owner_user c.organization s a h
    by_kind team h = organization_settlement-owned c.owner_user c.organization s a h
