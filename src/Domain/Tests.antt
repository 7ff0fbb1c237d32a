-- ===== src/Domain/Tests.antt =====
-- src/domain/: runs of apply on two accounts.
use bank_managment_system.Prelude.{
  ℕ, ◌+◌, ◌≡◌, ◌≢◌, refl, true, some, List, [], ◌∷◌, All, ◌↔◌, arith,
}
use bank_managment_system.Prelude.Text.{text}
use bank_managment_system.Prelude.Exec.{ok, throw, overflow_error}
use bank_managment_system.Prelude.{Option, ◌%◌, length, subst}
use bank_managment_system.Prelude.Text.{Bytes}
use bank_managment_system.Domain.PasswordHasher.{
  PasswordHash, create, verify, iterations, digest_len_bytes,
}
use bank_managment_system.Domain.PasswordHasher.RoundTrip.{AreBytes, GivesBytes, verify-create}
use bank_managment_system.Domain.Types.{AccountId, AccountStatus}
use bank_managment_system.Domain.Money.{Money, int64_max}
use bank_managment_system.Domain.Account
use bank_managment_system.Domain.Account.{Account}
use bank_managment_system.Domain.Account.Laws.{Fits, credited, debited}
use bank_managment_system.Domain.Transaction.{Transaction}
use bank_managment_system.Domain.Operations.Rules.{Permitted, validate-Permitted_iff}
use bank_managment_system.Domain.Operations.{find_account, validate, apply}
use bank_managment_system.Domain.Operations.Find.{ids, total}
use bank_managment_system.Domain.Operations.Effect.{inflow, outflow, CreditFits, apply-conserves}
use bank_managment_system.Domain.Operations.Exact.{
  apply_transfers, apply-transfer_overflow, apply-ok_iff, apply-Fits,
}

abbrev pub account_of : AccountId → ℕ → Account
account_of id cents = record {
  id = id;
  owner_id = id;
  balance = record { cents = cents };
  status = AccountStatus.active;
  version = 0;
}

abbrev two_accounts : List Account
two_accounts = account_of 1 1000 ∷ account_of 2 500 ∷ []

abbrev pub amount : Money
amount = record { cents = 300 }

abbrev move : Transaction
move = Transaction.transfer 1 2 amount

two_accounts-Fits : All Fits two_accounts
two_accounts-Fits = (omega arith, (omega arith, tt))

move-valid : validate move two_accounts ≡ true
unfolding validate find_account Account.can_withdraw
move-valid = refl

apply-move :
    let (result, l') = apply move two_accounts in
    (result ≡ ok tt)
    × (find_account l' 1 ≡ some (debited amount (account_of 1 1000)))
    × (find_account l' 2 ≡ some (credited amount (account_of 2 500)))
    × ((j : AccountId) → j ≢ 1 → j ≢ 2 → find_account l' j ≡ find_account two_accounts j)
unfolding find_account
apply-move =
    apply_transfers 1 2 amount two_accounts (account_of 1 1000) (account_of 2 500) move-valid refl
      refl (omega arith)

apply-conserves_example :
    (total (apply move two_accounts).1 + outflow move ≡ total two_accounts + inflow move)
    × (ids (apply move two_accounts).1 ≡ ids two_accounts)
apply-conserves_example = apply-conserves move two_accounts apply-move.0

apply-ok_iff_example :
    ((apply move two_accounts).0 ≡ ok tt)
    ↔ ((validate move two_accounts ≡ true) × CreditFits move two_accounts)
apply-ok_iff_example = apply-ok_iff move two_accounts two_accounts-Fits

apply-Fits_example : All Fits (apply move two_accounts).1
apply-Fits_example = apply-Fits move two_accounts two_accounts-Fits

-- The second account has no room.
abbrev full_accounts : List Account
full_accounts = account_of 1 1000 ∷ account_of 2 int64_max ∷ []

full_accounts-Fits : All Fits full_accounts
full_accounts-Fits = (omega arith, (omega arith, tt))

full-valid : validate move full_accounts ≡ true
unfolding validate find_account Account.can_withdraw
full-valid = refl

apply-transfer_overflow_example :
    let (result, l') = apply move full_accounts in
    (result ≡ throw (overflow_error (text "Money: addition overflow")))
    × (find_account l' 1 ≡ some (debited amount (account_of 1 1000)))
    × (find_account l' 2 ≡ some (account_of 2 int64_max))
unfolding find_account
apply-transfer_overflow_example =
    apply-transfer_overflow 1 2 amount full_accounts (account_of 1 1000) (account_of 2 int64_max)
      full_accounts-Fits full-valid refl refl (omega arith)

validate-Permitted_iff_example : (validate move two_accounts ≡ true) ↔ Permitted move two_accounts
validate-Permitted_iff_example = validate-Permitted_iff move two_accounts

-- A derivation that gives the length of the pin, and random bytes that are all one.
abbrev pub pbkdf2 : Bytes → Bytes → ℕ → ℕ → Option Bytes
pbkdf2 pin salt n size = some (length pin % 256 ∷ [])

pub pbkdf2-GivesBytes : GivesBytes pbkdf2
pbkdf2-GivesBytes pin salt n size digest e =
    let same : ◌≡◌ {A = Bytes} (length pin % 256 ∷ []) digest = cc e in
    subst AreBytes same (omega arith, tt)

abbrev pub random : ℕ → Option Bytes
random n = some (1 ∷ [])

abbrev pub pin : Bytes
pin = b'1' ∷ b'2' ∷ b'3' ∷ b'4' ∷ []

verify-create_example :
    (h : PasswordHash) × (create pbkdf2 random pin ≡ ok h)
    × ((verify pbkdf2 pin h ≡ true)
        ↔ (pbkdf2 pin (1 ∷ []) iterations digest_len_bytes ≡ some (4 ∷ [])))
verify-create_example =
    verify-create pbkdf2 pbkdf2-GivesBytes random (1 ∷ []) (4 ∷ []) pin pin refl (omega arith, tt)
      refl refl
