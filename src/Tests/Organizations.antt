-- ===== src/Tests/Organizations.antt =====
-- A team of an owner and a member, with an invite for a third user.
use roamkit_api.Base.{
  ◌≡◌, ◌⊎◌, refl, true, none, some, List, [], ◌∷◌, str_eq, arith, ok, first_where, count_where,
  update_where, AreUnique,
}
use roamkit_api.Base.Int.{pos}
use roamkit_api.Partner.{ChannelKind, MembershipStatus}
use roamkit_api.Organizations.{
  Organization, OrganizationStatus, Membership, MembershipRole, owner, OrganizationInvite,
  InviteRole, pending, User, State, find_member, is_active_owner, is_attributed, save_membership,
}
use roamkit_api.Organizations.Members.{set_role, transfer_ownership, insert_membership}
use roamkit_api.Organizations.Invites.{Texts, normalize_invite_email}
use roamkit_api.Organizations.Accepting.{accept_invite, accept_locked, accept_pending, join}
use roamkit_api.Organizations.Saves.{IsValid}
use roamkit_api.Organizations.Steps.{Manages}
use roamkit_api.Organizations.Separation.{IsSeparate}
use roamkit_api.Organizations.Requests.{
  TeamRequest, transfers, revokes, accepts, run, perform, AreFair, run-IsValid, run-IsSeparate,
  perform-Manages, perform_keeps_owner,
}
use roamkit_api.Organizations.Transfer.{transfer_ownership_hands_over}

abbrev pub texts : Texts
texts = record { strip = λ t. t; lower = λ t. t; iexact = str_eq; digest = λ t. t }

abbrev pub acme : Organization
acme = record { id = 1; name = "Acme"; status = OrganizationStatus.active; account = 10 }

abbrev pub boss : Membership
boss = record { organization = 1; user = 7; role = owner; status = MembershipStatus.active }

abbrev pub worker : Membership
worker = record {
  organization = 1;
  user = 9;
  role = MembershipRole.member;
  status = MembershipStatus.active;
}

abbrev pub guest : User
guest = record { id = 5; email = "e@x" }

abbrev pub letter : OrganizationInvite
letter = record {
  id = 2;
  organization = 1;
  email = "e@x";
  email_normalized = "e@x";
  role = InviteRole.viewer;
  status = pending;
  token_hash = "tok";
  expires_at = 100;
  invited_by = 7;
  accepted_by = none;
  accepted_at = none;
  revoked_at = none;
}

-- User 4 is a customer of the team's channel.
abbrev pub office : State
office = record {
  bank = record { accounts = []; ledger = [] };
  organizations = acme ∷ [];
  memberships = worker ∷ boss ∷ [];
  invites = letter ∷ [];
  users = guest ∷ [];
  channels =
      record {
        id = 3;
        kind = ChannelKind.team;
        owner_user = none;
        organization = some 1;
        revenue_share_percent = pos 1000;
        is_active = true;
      }
      ∷ [];
  attributions = record { id = 6; user = 4; partner_channel = 3 } ∷ [];
}

office-IsValid : IsValid office
unfolding AreUnique first_where count_where
office-IsValid = record { unique = (refl, (refl, tt)); one_owner = λ pk o h. ground (arith, h) }

office-IsSeparate : IsSeparate office
unfolding first_where is_attributed
office-IsSeparate o u m h active = ground (arith, h)

abbrev requests : List TeamRequest
requests = accepts guest 50 "tok" ∷ transfers 7 1 9 ∷ revokes 9 1 5 ∷ []

requests-AreFair : AreFair texts requests office
unfolding first_where
requests-AreFair = ((λ i h m k. ground (arith, h, k)), (tt, (tt, tt)))

run-IsValid_example : IsValid (run texts requests office)
run-IsValid_example = run-IsValid texts requests office requests-AreFair office-IsValid

-- The owner is invited to the own organization, accepts, and is a viewer then.
abbrev boss_user : User
boss_user = record { id = 7; email = "b@x" }

abbrev careless : State
careless = record office {
  users = guest ∷ boss_user ∷ [];
  invites =
      record letter { id = 8; email = "b@x"; email_normalized = "b@x"; token_hash = "own" }
      ∷ letter
      ∷ [];
}

abbrev careless_requests : List TeamRequest
careless_requests = accepts guest 50 "tok" ∷ accepts boss_user 50 "own" ∷ []

no_owner_left :
    count_where (is_active_owner 1) (run texts careless_requests careless).memberships ≡ 0
unfolding run perform accept_invite accept_locked accept_pending normalize_invite_email
    is_attributed join save_membership insert_membership first_where count_where update_where
no_owner_left = refl

run-IsSeparate_example : IsSeparate (run texts requests office)
run-IsSeparate_example =
    run-IsSeparate texts requests office requests-AreFair office-IsValid office-IsSeparate

perform-Manages_example :
    (find_member 1 9 (perform texts (revokes 7 1 9) office) ≡ find_member 1 9 office)
    ⊎ Manages 7 1 office
perform-Manages_example =
    perform-Manages texts (revokes 7 1 9) office 1 9 office-IsValid tt (λ e. omega (arith, e))

perform_keeps_owner_example :
    (m : Membership) × (find_member 1 7 (perform texts (revokes 9 1 7) office) ≡ some m)
    × (is_active_owner 1 m ≡ true)
unfolding first_where
perform_keeps_owner_example =
    perform_keeps_owner texts (revokes 9 1 7) office 1 7 boss office-IsValid tt
      (λ e. omega (arith, e)) refl refl

transfer_ownership_hands_over_example :
    (t : State) × (transfer_ownership 7 1 9 office ≡ (ok (set_role owner worker), t))
    × (find_member 1 9 t ≡ some (set_role owner worker))
    × (find_member 1 7 t ≡ some (set_role MembershipRole.admin boss))
unfolding first_where is_attributed
transfer_ownership_hands_over_example =
    transfer_ownership_hands_over 1 7 9 acme boss worker office office-IsValid refl refl refl refl
      refl refl (λ e. omega (arith, e)) refl
