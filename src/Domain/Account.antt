-- ===== src/Domain/Account.antt =====
-- src/domain/Account.h. A member function that mutates is an action on the account; the version is a
-- uint64_t, whose increment wraps.
pub mod Laws
use bank_managment_system.Prelude.{ℕ, ◌+◌, ◌%◌, ◌^◌, ◌==◌, Bool, not, ◌&&◌, if◌then◌else◌}
use bank_managment_system.Prelude.Text.{text}
use bank_managment_system.Prelude.Exec.{Exec, ok, throw, domain_error, lift, ◌>>=◌, modify}
use bank_managment_system.Domain.Types.{AccountId, CustomerId, AccountStatus, status_eq}
use bank_managment_system.Domain.Money.{Money, plus, minus, can_subtract}

pub record Account : Type 0 where
  pub id : AccountId
  pub owner_id : CustomerId
  pub balance : Money
  pub status : AccountStatus
  pub version : ℕ

-- ++version_
abbrev pub bump : ℕ → ℕ
bump v = (v + 1) % 2 ^ 64

unfoldable pub deposit : Money → Exec Account (Unit {0})
unfolding plus
deposit amount a =
    if amount.cents == 0
    then (ok tt, a)
    else (do
      sum ← lift (plus a.balance amount)
      modify (λ b. record b { balance = sum; version = bump b.version }))
        a

unfoldable pub can_withdraw : Account → Money → Bool
can_withdraw a amount = status_eq a.status AccountStatus.active && can_subtract a.balance amount

unfoldable pub withdraw : Money → Exec Account (Unit {0})
unfolding minus
withdraw amount a =
    if not (status_eq a.status AccountStatus.active)
    then (
      throw (domain_error (text "Account: transaction refused on a frozen or closed account")),
      a,
    )
    else if not (can_subtract a.balance amount)
    then (throw (domain_error (text "Account: insufficient funds")), a)
    else (do
      rest ← lift (minus a.balance amount)
      modify (λ b. record b { balance = rest; version = bump b.version }))
        a

unfoldable pub set_status : AccountStatus → Account → Account
set_status s a =
    if status_eq a.status s then a else record a { status = s; version = bump a.version }
