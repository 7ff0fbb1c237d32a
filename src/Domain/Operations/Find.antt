-- ===== src/Domain/Operations/Find.antt =====
-- src/domain/TransactionOps.cpp: what find_account sees before and after a call through
-- require_account.
use bank_managment_system.Prelude.{
  ℕ, ◌+◌, ◌≡◌, ◌≢◌, refl, ◌==◌, Option, none, some, List, [], ◌∷◌, arith, ap, subst, All,
  Bool-cases, inl, inr,
}
use bank_managment_system.Prelude.Text.{text}
use bank_managment_system.Prelude.Exec.{Exec, Throws, ok, throw, out_of_range}
use bank_managment_system.Domain.Types.{AccountId}
use bank_managment_system.Domain.Account.{Account}
use bank_managment_system.Domain.Operations.{find_account, on_account}

-- The member function leaves the id alone.
abbrev pub KeepsId : Exec Account (Unit {0}) → Type 0
KeepsId method = (a : Account) → (method a).1.id ≡ a.id

-- What the call returns, by what is found.
abbrev pub called : Exec Account (Unit {0}) → Option Account → Throws (Unit {0})
called method none = throw (out_of_range (text "apply: involved account missing from span"))
called method (some a) = (method a).0

abbrev pub mutated : Exec Account (Unit {0}) → Option Account → Option Account
mutated method none = none
mutated method (some a) = some (method a).1

pub on_account-result :
    (id : AccountId) (method : Exec Account (Unit {0})) (l : List Account)
    → (on_account id method l).0 ≡ called method (find_account l id)
unfolding on_account find_account
on_account-result id method [] = refl
on_account-result id method (a ∷ l) = ground (arith, on_account-result id method l)

pub find-on_account_self :
    (id : AccountId) (method : Exec Account (Unit {0})) (l : List Account)
    → KeepsId method
    → find_account (on_account id method l).1 id ≡ mutated method (find_account l id)
unfolding on_account find_account
find-on_account_self id method [] keeps = refl
find-on_account_self id method (a ∷ l) keeps =
    ground (arith, keeps a, find-on_account_self id method l keeps)

pub find-on_account_ne :
    (id j : AccountId) (method : Exec Account (Unit {0})) (l : List Account)
    → KeepsId method
    → j ≢ id
    → find_account (on_account id method l).1 j ≡ find_account l j
unfolding on_account find_account
find-on_account_ne id j method [] keeps ne = refl
find-on_account_ne id j method (a ∷ l) keeps ne =
    ground (arith, keeps a, find-on_account_ne id j method l keeps ne)

pub find_account-id :
    (id : AccountId) (l : List Account) (a : Account) → find_account l id ≡ some a → a.id ≡ id
unfolding find_account
find_account-id id [] a h = cc
find_account-id id (b ∷ l) a h = ground (arith, find_account-id id l a)

abbrev pub ids : List Account → List AccountId
ids [] = []
ids (a ∷ l) = a.id ∷ ids l

pub ids-on_account :
    (id : AccountId) (method : Exec Account (Unit {0})) (l : List Account)
    → KeepsId method
    → ids (on_account id method l).1 ≡ ids l
unfolding on_account
ids-on_account id method [] keeps = refl
ids-on_account id method (a ∷ l) keeps = ground (arith, keeps a, ids-on_account id method l keeps)

-- The sum of the balances.
abbrev pub total : List Account → ℕ
total [] = 0
total (a ∷ l) = a.balance.cents + total l

-- A call that returns adds `gain` cents and takes `loss` cents.
abbrev pub Moves : ℕ → ℕ → Exec Account (Unit {0}) → Type 0
Moves gain loss method =
    (a : Account)
    → (method a).0 ≡ ok tt
    → (method a).1.balance.cents + loss ≡ a.balance.cents + gain

pub total-on_account :
    (id : AccountId) (gain loss : ℕ) (method : Exec Account (Unit {0})) (l : List Account)
    → Moves gain loss method
    → (on_account id method l).0 ≡ ok tt
    → total (on_account id method l).1 + loss ≡ total l + gain
unfolding on_account
total-on_account id gain loss method [] moves h = cc
total-on_account id gain loss method (a ∷ l) moves h =
    ground (arith, moves a, total-on_account id gain loss method l moves)

-- The call on an account that is there.
pub on_account_call :
    (id : AccountId) (method : Exec Account (Unit {0})) (l : List Account) (a a' : Account)
    (r : Throws (Unit {0}))
    → KeepsId method
    → find_account l id ≡ some a
    → method a ≡ (r, a')
    → ((on_account id method l).0 ≡ r) × (find_account (on_account id method l).1 id ≡ some a')
on_account_call id method l a a' r keeps found e = (
  cc (on_account-result id method l, ap (called method) found),
  cc (find-on_account_self id method l keeps, ap (mutated method) found),
)

pub find_account-All {ℓ} :
    (P : Account → Type ℓ) (id : AccountId) (l : List Account) (a : Account)
    → All P l
    → find_account l id ≡ some a
    → P a
unfolding find_account
find_account-All P id [] a h e = cc
find_account-All P id (b ∷ l) a h e = elim (Bool-cases (b.id == id)) [
  | inl here ↦ let same : b ≡ a = ground arith in subst P same h.0
  | inr there ↦ find_account-All P id l a h.1 (ground arith)
]
