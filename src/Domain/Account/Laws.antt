-- ===== src/Domain/Account/Laws.antt =====
-- src/domain/Account.h: what the mutating member functions return and leave, on every branch.
use bank_managment_system.Prelude.{◌+◌, ◌-◌, ◌≤◌, ◌<◌, ◌≡◌, true, arith}
use bank_managment_system.Prelude.Text.{text}
use bank_managment_system.Prelude.Exec.{ok, throw, overflow_error}
use bank_managment_system.Domain.Money.{Money, int64_max}
use bank_managment_system.Domain.Account.{Account, bump, deposit, withdraw, can_withdraw}

abbrev pub credited : Money → Account → Account
credited m a = record a {
  balance = record { cents = a.balance.cents + m.cents };
  version = bump a.version;
}

abbrev pub debited : Money → Account → Account
debited m a = record a {
  balance = record { cents = a.balance.cents - m.cents };
  version = bump a.version;
}

-- The stored amount is one that int64_t holds.
abbrev pub Fits : Account → Type 0
Fits a = a.balance.cents ≤ int64_max

pub deposit_credits :
    (m : Money) (a : Account)
    → 0 < m.cents
    → a.balance.cents + m.cents ≤ int64_max
    → deposit m a ≡ (ok tt, credited m a)
unfolding deposit
deposit_credits m a p h = ground arith

pub deposit_overflows :
    (m : Money) (a : Account)
    → Fits a
    → int64_max < a.balance.cents + m.cents
    → deposit m a ≡ (throw (overflow_error (text "Money: addition overflow")), a)
unfolding deposit
deposit_overflows m a f h = ground arith

pub withdraw_debits :
    (m : Money) (a : Account) → can_withdraw a m ≡ true → withdraw m a ≡ (ok tt, debited m a)
unfolding withdraw can_withdraw
withdraw_debits m a h = ground arith

pub id-deposit : (m : Money) (a : Account) → (deposit m a).1.id ≡ a.id
unfolding deposit
id-deposit m a = ground arith

pub id-withdraw : (m : Money) (a : Account) → (withdraw m a).1.id ≡ a.id
unfolding withdraw
id-withdraw m a = ground arith

pub balance-deposit :
    (m : Money) (a : Account)
    → (deposit m a).0 ≡ ok tt
    → (deposit m a).1.balance.cents + 0 ≡ a.balance.cents + m.cents
unfolding deposit
balance-deposit m a h = ground arith

pub balance-withdraw :
    (m : Money) (a : Account)
    → (withdraw m a).0 ≡ ok tt
    → (withdraw m a).1.balance.cents + m.cents ≡ a.balance.cents + 0
unfolding withdraw
balance-withdraw m a h = ground arith

pub deposit-Fits : (m : Money) (a : Account) → Fits a → Fits (deposit m a).1
unfolding deposit
deposit-Fits m a h = ground arith

pub withdraw-Fits : (m : Money) (a : Account) → Fits a → Fits (withdraw m a).1
unfolding withdraw
withdraw-Fits m a h = ground arith

pub deposit_room :
    (m : Money) (a : Account)
    → Fits a
    → 0 < m.cents
    → (deposit m a).0 ≡ ok tt
    → a.balance.cents + m.cents ≤ int64_max
unfolding deposit
deposit_room m a f p h = ground arith
