-- ===== src/Persistence/InMemory/Laws.antt =====
-- src/persistence/InMemoryAccountRepository.h: the map as a ledger, and the sum of its balances.
use bank_managment_system.Prelude.{
  ℕ, ◌+◌, ◌≡◌, ◌≢◌, refl, ◌==◌, some, List, [], ◌∷◌, All, arith, Distinct, subst, sym, ◌∙◌,
  Bool-cases, inl, inr, ltb,
}
use bank_managment_system.Prelude.OrderedMap.{
  OrderedMap, IsSorted, lookup, insert_or_assign, values, insert-IsSorted, lookup-insert_ne,
  lookup-insert_self, lookup-Above,
}
use bank_managment_system.Domain.Types.{AccountId}
use bank_managment_system.Domain.Account.{Account}
use bank_managment_system.Domain.Account.Laws.{Fits}
use bank_managment_system.Domain.Operations.Find.{ids, total}
use bank_managment_system.Persistence.InMemory.{Accounts}

-- Keys ascend, an account stands under its own id, and each balance is an int64_t.
pub record IsLedger (m : Accounts) : Type 0 where
  pub sorted : IsSorted m
  pub keyed : All (λ (e : ℕ × Account). e.0 ≡ e.1.id) m
  pub fit : All (λ (e : ℕ × Account). Fits e.1) m

insert-All {ℓ} :
    {V : Type 0} (P : ℕ × V → Type ℓ) (k : ℕ) (v : V) (m : OrderedMap V)
    → P (k, v)
    → All P m
    → All P (insert_or_assign k v m)
unfolding insert_or_assign
insert-All P k v [] p h = (p, tt)
insert-All P k v ((j, w) ∷ m) p h = elim (Bool-cases (j == k)) [
  | inl here ↦ rw here (p, h.1)
  | inr other ↦ rw other (elim (Bool-cases (ltb k j)) [
    | inl less ↦ rw less (p, h)
    | inr more ↦ rw more (h.0, insert-All P k v m p h.1)
  ])
]

pub save-IsLedger :
    (a : Account) (m : Accounts) → Fits a → IsLedger m → IsLedger (insert_or_assign a.id a m)
save-IsLedger a m f h = record {
  sorted = insert-IsSorted a.id a m h.sorted;
  keyed = insert-All (λ (e : ℕ × Account). e.0 ≡ e.1.id) a.id a m refl h.keyed;
  fit = insert-All (λ (e : ℕ × Account). Fits e.1) a.id a m f h.fit;
}

pub lookup-All {ℓ} :
    {V : Type 0} (P : ℕ × V → Type ℓ) (k : ℕ) (v : V) (m : OrderedMap V)
    → All P m
    → lookup k m ≡ some v
    → P (k, v)
unfolding lookup
lookup-All P k v [] h e = cc
lookup-All {V} P k v ((j, w) ∷ m) h e = elim (Bool-cases (j == k)) [
  | inl here ↦ let same : ◌≡◌ {A = ℕ × V} (j, w) (k, v) = ground arith in subst P same h.0
  | inr other ↦ lookup-All P k v m h.1 (ground arith)
]

-- One account is saved over what stood there.
pub total-insert :
    (k : ℕ) (old a : Account) (m : Accounts)
    → IsSorted m
    → lookup k m ≡ some old
    → total (values (insert_or_assign k a m)) + old.balance.cents
      ≡ total (values m) + a.balance.cents
unfolding lookup insert_or_assign values
total-insert k old a [] s e = cc
total-insert k old a ((j, w) ∷ m) s e =
    ground (arith, total-insert k old a m s.1, lookup-Above k j m s.0)

-- for (const Account& account : loaded) accounts_.save(account)
abbrev pub saved : List Account → Accounts → Accounts
saved [] m = m
saved (a ∷ l) m = saved l (insert_or_assign a.id a m)

-- The accounts as they stand in the map.
abbrev pub Loaded : Accounts → List Account → Type 0
Loaded m l = All (λ (a : Account). lookup a.id m ≡ some a) l

Loaded-insert :
    (a : Account) (m : Accounts) (l : List Account)
    → All (λ y. a.id ≢ y) (ids l)
    → Loaded m l
    → Loaded (insert_or_assign a.id a m) l
Loaded-insert a m [] d h = tt
Loaded-insert a m (b ∷ l) d h =
    (lookup-insert_ne a.id b.id a m d.0 ∙ h.0, Loaded-insert a m l d.1 h.1)

pub saved-IsLedger :
    (l : List Account) (m : Accounts) → All Fits l → IsLedger m → IsLedger (saved l m)
saved-IsLedger [] m f h = h
saved-IsLedger (a ∷ l) m f h =
    saved-IsLedger l (insert_or_assign a.id a m) f.1 (save-IsLedger a m f.0 h)

-- What is saved replaces what was loaded.
pub total-saved :
    (l l' : List Account) (m : Accounts)
    → ids l' ≡ ids l
    → Distinct (ids l)
    → IsSorted m
    → Loaded m l
    → total (values (saved l' m)) + total l ≡ total (values m) + total l'
total-saved [] [] m e d s h = omega arith
total-saved [] (b ∷ l') m e d s h = absurd (ground arith)
total-saved (a ∷ l) [] m e d s h = absurd (ground arith)
total-saved (a ∷ l) (b ∷ l') m e d s h =
    let same : b.id ≡ a.id = ground (arith, e) in
    let rest : ids l' ≡ ids l = ground (arith, e) in
    let apart = subst (λ (x : ℕ). All (λ y. x ≢ y) (ids l)) (sym same) d.0 in
    omega (
      arith,
      total-insert b.id a b m s (rw same h.0),
      total-saved l l' (insert_or_assign b.id b m) rest d.1 (insert-IsSorted b.id b m s)
          (Loaded-insert b m l apart h.1),
    )

-- An account that is not among the saved ones stays as it was.
pub lookup-saved_ne :
    (j : AccountId) (l : List Account) (m : Accounts)
    → All (λ y. j ≢ y) (ids l)
    → lookup j (saved l m) ≡ lookup j m
lookup-saved_ne j [] m h = refl
lookup-saved_ne j (a ∷ l) m h =
    lookup-saved_ne j l (insert_or_assign a.id a m) h.1
    ∙ lookup-insert_ne a.id j a m (λ e. h.0 (sym e))

-- An account that is saved once stands there afterwards.
pub lookup-saved : (l : List Account) (m : Accounts) → Distinct (ids l) → Loaded (saved l m) l
lookup-saved [] m d = tt
lookup-saved (a ∷ l) m d =
    let m' = insert_or_assign a.id a m in
    (lookup-saved_ne a.id l m' d.0 ∙ lookup-insert_self a.id a m, lookup-saved l m' d.1)
