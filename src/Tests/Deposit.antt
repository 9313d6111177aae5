-- ===== src/Tests/Deposit.antt =====
-- A deposit of 2.00 to the account of the ledger's tests.
use Prim.Native.String.{◌++◌, count}
use text.Mathlib.TextLemmas.{length-append}
use roamkit_api.Base.{
  ℕ, zero, suc, ◌≡◌, ap, sym, ◌∙◌, refl, true, some, [], ◌∷◌, String, none, arith, ok, err, inl,
  ◌⊎◌, first_where,
}
use roamkit_api.Base.Int.{pos, ◌+ℤ◌}
use roamkit_api.Money.{finite, quantize}
use roamkit_api.Ledger.{CreditLedgerEntry, get_account, find_key}
use roamkit_api.Ledger.Credit.{normalize_amount}
use roamkit_api.Ledger.Effects.{Moves}
use roamkit_api.Deposit.{
  DepositRequest, State, cex_manual, has_key, has_hash, duplicate_transaction, is_completed,
}
use roamkit_api.Deposit.Completion.{Environment, TransferResult, transferred, set_completed}
use roamkit_api.Deposit.Verification.{
  Request, verify, check_request, new_deposit, normalize_payment_method, normalize_tx_hash,
}
use roamkit_api.Deposit.Rows.{AreDistinct}
use roamkit_api.Deposit.Invariant.{IsSound}
use roamkit_api.Deposit.Credited.{IsInjective}
use roamkit_api.Deposit.Verified.{IsNew, verify-IsSound}
use roamkit_api.Deposit.Duplicate.{verify_duplicate}
use roamkit_api.Deposit.Payment.{calm, IsConfirmed, verify_credits}
use roamkit_api.Tests.Ledger.{bank, alice, bank-IsValid}

-- Texts of keys that tell them apart.
abbrev tally : ℕ → String
tally zero = ""
tally (suc n) = "1" ++ tally n

count-tally : (n : ℕ) → count (tally n) ≡ n
count-tally zero = refl
count-tally (suc n) = omega (arith, length-append "1" (tally n), count-tally n)

tally-IsInjective : IsInjective tally
unfolding IsInjective
tally-IsInjective a b p = sym (count-tally a) ∙ ap count p ∙ count-tally b

abbrev hash : String
hash = "0x0123456789012345678901234567890123456789012345678901234567890123"

abbrev transfer : TransferResult
transfer = record { status = "success"; confirmations = 12; amount = pos 2_000_000 }

abbrev env : Environment
env = record {
  billing_enabled = true;
  min_confirmations = 10;
  str = tally;
  hashes = record { strip_lower = λ t. t; starts_0x = λ t. true; is_hexadecimal = λ t. true };
  fetch_usdt_transfer = λ h. transferred transfer;
}

abbrev request : Request
request = record {
  account = 1;
  tx_hash = hash;
  payment_method = "cex_manual";
  amount_requested = some (finite (record { units = pos 2; places = 0 }));
  idempotency_key = "k1";
}

abbrev state : State
state = record { bank = bank; deposits = [] }

state-IsSound : IsSound tally state
unfolding AreDistinct
state-IsSound = record { valid = bank-IsValid; distinct = tt; credited = tt }

state-IsNew : IsNew tally 3 state
unfolding find_key first_where
state-IsNew = record { row = refl; entry = refl }

verify-IsSound_example : IsSound tally (verify env 71 calm calm 3 request state).1
verify-IsSound_example =
    verify-IsSound env 71 tally-IsInjective calm calm (λ s v. v) (λ s v. v) 3 (λ s v. v) request
      state state-IsSound state-IsNew

confirmed : IsConfirmed env 71 3 2_000_000 cex_manual hash request transfer state
unfolding check_request normalize_payment_method normalize_amount normalize_tx_hash quantize
    first_where
confirmed = record {
  accepted = refl;
  width = omega arith;
  no_key = refl;
  no_row = refl;
  no_hash = refl;
  not_empty = λ p. omega (arith, ap count p);
  answer = refl;
  success = refl;
  confirmed = omega arith;
  amount = refl;
}

alice_row : get_account 1 bank.accounts ≡ some alice
unfolding get_account
alice_row = refl

verify_credits_example :
    let d =
      set_completed
        (pos 2_000_000)
        (new_deposit env 71 calm calm request cex_manual (pos 2_000_000) hash 3) in
    let result = verify env 71 calm calm 3 request state in
    (result.0 ≡ ok d)
    × (result.1.deposits ≡ d ∷ [])
    × ((e : CreditLedgerEntry) × (e.delta ≡ pos 2_000_000) × Moves bank 1 alice e result.1.bank)
unfolding ◌+ℤ◌
verify_credits_example =
    verify_credits env 71 3 2_000_000 cex_manual hash request transfer state alice confirmed
      (omega arith) (omega arith) (omega arith) bank-IsValid alice_row state-IsNew.entry
      (omega arith) (omega arith)

abbrev done : DepositRequest
done =
    record (set_completed (pos 2_000_000)
      (new_deposit env 71 calm calm request cex_manual (pos 2_000_000) hash 3)) { id = 2 }

abbrev state_after : State
state_after = record { bank = bank; deposits = done ∷ [] }

abbrev again : Request
again = record request { idempotency_key = "k2" }

again_accepted :
    check_request env 71 calm calm 3 again
    ≡ ok (pos 2_000_000, new_deposit env 71 calm calm again cex_manual (pos 2_000_000) hash 3)
unfolding check_request normalize_payment_method normalize_amount normalize_tx_hash quantize
again_accepted = refl

done_row : first_where (has_hash (some hash)) state_after.deposits ≡ some done
unfolding first_where
done_row = refl

no_key_again : first_where (has_key "k2") state_after.deposits ≡ none
unfolding first_where
no_key_again = refl

verify_duplicate_example :
    let result = verify env 71 calm calm 3 again state_after in
    (result ≡ (err duplicate_transaction, state_after)) ⊎ (result ≡ (ok done, state_after))
unfolding AreDistinct first_where is_completed
verify_duplicate_example =
    verify_duplicate env 71 3 calm calm again (pos 2_000_000) cex_manual hash done state_after
      (refl, (λ h e. refl), tt) done_row refl again_accepted (inl no_key_again)
