-- ===== src/Prelude/OrderedMap.antt =====
-- std::map with an unsigned key: the entries in ascending order of their keys.
use Prim.Native.Nat.{ℕ, suc, ◌<◌}
use mathlib.Core.Path.{◌≡◌, refl}
use mathlib.Core.Logic.{◌≢◌}
use mathlib.Core.Option.{Option, none, some}
use mathlib.Core.List.{List, [], ◌∷◌}
use native.Mathlib.Omega.{arith}
use bank_managment_system.Prelude.Tests.{ltb, ◌==◌, if◌then◌else◌}
use bank_managment_system.Prelude.Lists.{All}

abbrev pub OrderedMap {ℓ} : Type ℓ → Type ℓ
OrderedMap V = List (ℕ × V)

module _ {ℓ} {V : Type ℓ} where
  unfoldable pub lookup : ℕ → OrderedMap V → Option V
  lookup k [] = none
  lookup k ((j, v) ∷ m) = if j == k then some v else lookup k m

  unfoldable pub insert_or_assign : ℕ → V → OrderedMap V → OrderedMap V
  insert_or_assign k v [] = (k, v) ∷ []
  insert_or_assign k v ((j, w) ∷ m) =
      let rest = insert_or_assign k v m in
      if j == k then (k, v) ∷ m else if ltb k j then (k, v) ∷ (j, w) ∷ m else (j, w) ∷ rest

  unfoldable pub erase : ℕ → OrderedMap V → OrderedMap V
  erase k [] = []
  erase k ((j, v) ∷ m) = if j == k then m else (j, v) ∷ erase k m

  -- The values in the order of the iteration.
  unfoldable pub values : OrderedMap V → List V
  values [] = []
  values ((j, v) ∷ m) = v ∷ values m

  abbrev pub Above : ℕ → OrderedMap V → Type 0
  Above k m = All (λ e. k < e.0) m

  -- The order that std::map keeps; no key stands twice.
  abbrev pub IsSorted : OrderedMap V → Type 0
  IsSorted [] = Unit
  IsSorted ((k, v) ∷ m) = Above k m × IsSorted m

  pub lookup-insert :
      (k j : ℕ) (v : V) (m : OrderedMap V)
      → lookup j (insert_or_assign k v m) ≡ (if k == j then some v else lookup j m)
  unfolding lookup insert_or_assign
  lookup-insert k j v [] = refl
  lookup-insert k j v ((i, w) ∷ m) = ground (arith, lookup-insert k j v m)

  pub lookup-insert_self :
      (k : ℕ) (v : V) (m : OrderedMap V) → lookup k (insert_or_assign k v m) ≡ some v
  lookup-insert_self k v m = ground (arith, lookup-insert k k v m)

  pub lookup-insert_ne :
      (k j : ℕ) (v : V) (m : OrderedMap V) → k ≢ j → lookup j (insert_or_assign k v m) ≡ lookup j m
  lookup-insert_ne k j v m ne = ground (arith, lookup-insert k j v m)

  Above-lt : (j k : ℕ) (m : OrderedMap V) → j < k → Above k m → Above j m
  Above-lt j k [] lt h = tt
  Above-lt j k (e ∷ m) lt h = (omega arith, Above-lt j k m lt h.1)

  Above-insert :
      (i k : ℕ) (v : V) (m : OrderedMap V) → i < k → Above i m → Above i (insert_or_assign k v m)
  unfolding insert_or_assign
  Above-insert i k v [] lt h = (lt, tt)
  Above-insert i k v ((j, w) ∷ m) lt h = ground (arith, Above-insert i k v m lt h.1)

  pub insert-IsSorted :
      (k : ℕ) (v : V) (m : OrderedMap V) → IsSorted m → IsSorted (insert_or_assign k v m)
  unfolding insert_or_assign
  insert-IsSorted k v [] h = (tt, tt)
  insert-IsSorted k v ((j, w) ∷ m) h =
      ground (arith, insert-IsSorted k v m h.1, Above-insert j k v m, Above-lt k j m)

  pub lookup-Above : (j k : ℕ) (m : OrderedMap V) → Above k m → j < suc k → lookup j m ≡ none
  unfolding lookup
  lookup-Above j k [] h lt = refl
  lookup-Above j k ((i, w) ∷ m) h lt = ground (arith, lookup-Above j k m h.1 lt)

  Above-erase : (i k : ℕ) (m : OrderedMap V) → Above i m → Above i (erase k m)
  unfolding erase
  Above-erase i k [] h = tt
  Above-erase i k ((j, w) ∷ m) h = ground (arith, Above-erase i k m h.1)

  pub erase-IsSorted : (k : ℕ) (m : OrderedMap V) → IsSorted m → IsSorted (erase k m)
  unfolding erase
  erase-IsSorted k [] h = tt
  erase-IsSorted k ((j, w) ∷ m) h = ground (arith, erase-IsSorted k m h.1, Above-erase j k m h.0)

  pub lookup-erase :
      (k j : ℕ) (m : OrderedMap V)
      → IsSorted m
      → lookup j (erase k m) ≡ (if k == j then none else lookup j m)
  unfolding lookup erase
  lookup-erase k j [] h = ground arith
  lookup-erase k j ((i, w) ∷ m) h = ground (arith, lookup-erase k j m h.1, lookup-Above j i m h.0)
