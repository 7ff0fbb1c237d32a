-- ===== src/Concurrency/Processor/Found.antt =====
-- src/concurrency/TransactionProcessor.cpp: the accounts that the loading loop finds in a ledger, under
-- the ids in ascending order.
use bank_managment_system.Prelude.{
  ℕ, Distinct, ◌≡◌, ◌≢◌, refl, sym, subst, ◌∙◌, true, false, Option, none, some, List, [], ◌∷◌,
  ◌++◌, All, is_empty, leb, arith, Bool-cases, inl, inr,
}
use bank_managment_system.Prelude.Text.{text, to_string}
use bank_managment_system.Prelude.OrderedMap.{lookup}
use bank_managment_system.Domain.Types.{AccountId}
use bank_managment_system.Domain.Account.{Account}
use bank_managment_system.Domain.Money.{Money}
use bank_managment_system.Domain.Account.Laws.{Fits}
use bank_managment_system.Domain.Transaction.{Transaction, debit_account, credit_account}
use bank_managment_system.Domain.Operations.{involved_accounts, contains, find_account}
use bank_managment_system.Domain.Operations.Find.{ids}
use bank_managment_system.Persistence.InMemory.{Accounts}
use bank_managment_system.Persistence.InMemory.Laws.{IsLedger, Loaded, lookup-All}
use bank_managment_system.Concurrency.Processor.{sort, insert_id}
use bank_managment_system.Concurrency.Processor.Local.{keep_found, found_in}

-- The lock order: the ids that process_impl takes differ from each other.
pub sort-Distinct : (txn : Transaction) → Distinct (sort (involved_accounts txn))
unfolding involved_accounts debit_account credit_account sort insert_id
sort-Distinct (Transaction.deposit a m) = (tt, tt)
sort-Distinct (Transaction.withdraw a m) = (tt, tt)
sort-Distinct (Transaction.transfer from to m) = ground arith

message_some : (id : AccountId) → is_empty (text "account not found: " ++ to_string id) ≡ false
unfolding text
message_some id = refl

module _ (m : Accounts) (ledger : IsLedger m) where
  pub lookup-id : (id : AccountId) (a : Account) → lookup id m ≡ some a → a.id ≡ id
  lookup-id id a e = sym (lookup-All (λ (x : ℕ × Account). x.0 ≡ x.1.id) id a m ledger.keyed e)

  pub lookup-Fits : (id : AccountId) (a : Account) → lookup id m ≡ some a → Fits a
  lookup-Fits id a e = lookup-All (λ (x : ℕ × Account). Fits x.1) id a m ledger.fit e

  -- With no missing message, every id was found.
  pub record AllFound (xs : List AccountId) (l : List Account) : Type 0 where
    pub same_ids : ids l ≡ xs
    pub loaded : Loaded m l
    pub fits : All Fits l

  extend :
      (x : AccountId) (xs : List AccountId) (o : Option Account)
      → lookup x m ≡ o
      → (is_empty (found_in m xs).1 ≡ true → AllFound xs (found_in m xs).0)
      → is_empty (keep_found x (found_in m xs) o).1 ≡ true
      → AllFound (x ∷ xs) (keep_found x (found_in m xs) o).0
  extend x xs none e rest h = cc (message_some x)
  extend x xs (some a) e rest h =
      let all = rest h in
      let same = lookup-id x a e in
      record {
        same_ids = ground (arith, all.same_ids);
        loaded = (subst (λ (k : ℕ). lookup k m ≡ some a) (sym same) e, all.loaded);
        fits = (lookup-Fits x a e, all.fits);
      }

  pub found_in-AllFound :
      (xs : List AccountId) → is_empty (found_in m xs).1 ≡ true → AllFound xs (found_in m xs).0
  found_in-AllFound [] h = record { same_ids = refl; loaded = tt; fits = tt }
  found_in-AllFound (x ∷ xs) h = extend x xs (lookup x m) refl (found_in-AllFound xs) h

-- What find_account sees in loaded accounts is what the map holds.
pub find-Loaded :
    (m : Accounts) (l : List Account) (j : AccountId)
    → Loaded m l
    → contains (ids l) j ≡ true
    → find_account l j ≡ lookup j m
unfolding find_account
find-Loaded m [] j h c = cc
find-Loaded m (a ∷ l) j h c = ground (arith, h.0, find-Loaded m l j h.1)

pub involved_from :
    (from to : AccountId) (m : Money)
    → contains (sort (involved_accounts (Transaction.transfer from to m))) from ≡ true
unfolding involved_accounts debit_account credit_account sort insert_id
involved_from from to m = ground arith

pub involved_to :
    (from to : AccountId) (m : Money)
    → contains (sort (involved_accounts (Transaction.transfer from to m))) to ≡ true
unfolding involved_accounts debit_account credit_account sort insert_id
involved_to from to m = ground arith

-- Every id that the map holds is found.
found_some :
    (m : Accounts) (id : AccountId) (xs : List AccountId) (a : Account)
    → lookup id m ≡ some a
    → is_empty (found_in m (id ∷ xs)).1 ≡ is_empty (found_in m xs).1
found_some m id xs a e = rw (e, found_in, keep_found)

pub found_both :
    (m : Accounts) (from to : AccountId) (amount : Money) (a b : Account)
    → lookup from m ≡ some a
    → lookup to m ≡ some b
    → is_empty (found_in m (sort (involved_accounts (Transaction.transfer from to amount)))).1
      ≡ true
unfolding involved_accounts debit_account credit_account sort insert_id
found_both m from to amount a b ea eb = ground arith

insert_id-All {ℓ} :
    (P : ℕ → Type ℓ) (x : AccountId) (ys : List AccountId) → P x → All P ys → All P (insert_id x ys)
unfolding insert_id
insert_id-All P x [] px h = (px, tt)
insert_id-All P x (y ∷ ys) px h = elim (Bool-cases (leb x y)) [
  | inl before ↦ rw before (px, h)
  | inr after ↦ rw after (h.0, insert_id-All P x ys px h.1)
]

sort-All {ℓ} : (P : ℕ → Type ℓ) (xs : List AccountId) → All P xs → All P (sort xs)
unfolding sort
sort-All P [] h = tt
sort-All P (x ∷ xs) h = insert_id-All P x (sort xs) h.0 (sort-All P xs h.1)

not_contained : (xs : List AccountId) (j : AccountId) → contains xs j ≡ false → All (λ y. j ≢ y) xs
not_contained [] j h = tt
not_contained (x ∷ xs) j h = (ground arith, not_contained xs j (ground arith))

-- An id that does not stand among others differs from each of them, sorted or not.
pub sort-apart :
    (xs : List AccountId) (j : AccountId) → contains xs j ≡ false → All (λ y. j ≢ y) (sort xs)
sort-apart xs j h = sort-All (λ y. j ≢ y) xs (not_contained xs j h)

-- A transfer between two accounts of a ledger finds both.
pub record Finds (m : Accounts) (from to : AccountId) (l : List Account) (a b : Account)
    : Type 0 where
  pub from_found : find_account l from ≡ some a
  pub to_found : find_account l to ≡ some b

pub transfer-Finds :
    (m : Accounts) (from to : AccountId) (amount : Money) (a b : Account)
    → IsLedger m
    → lookup from m ≡ some a
    → lookup to m ≡ some b
    → Finds m from to
        (found_in m (sort (involved_accounts (Transaction.transfer from to amount)))).0
        a
        b
transfer-Finds m from to amount a b ledger ea eb =
    let xs = sort (involved_accounts (Transaction.transfer from to amount)) in
    let all = found_in-AllFound m ledger xs (found_both m from to amount a b ea eb) in
    let there = λ (j : AccountId) (c : contains xs j ≡ true).
      find-Loaded m (found_in m xs).0 j all.loaded
        (subst (λ k. contains k j ≡ true) (sym all.same_ids) c) in
    record {
      from_found = there from (involved_from from to amount) ∙ ea;
      to_found = there to (involved_to from to amount) ∙ eb;
    }
