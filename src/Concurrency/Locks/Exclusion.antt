-- ===== src/Concurrency/Locks/Exclusion.antt =====
-- src/concurrency/ScopedAccountLock.h: how often the mutex of an account is held.
use bank_managment_system.Prelude.{
  ℕ, ◌+◌, ◌≤◌, ◌≡◌, ◌≢◌, ◌==◌, refl, ap, subst, inl, inr, Bool-cases, List, [], ◌∷◌, ◌++◌, All,
  arith,
}
use bank_managment_system.Prelude.Counts.{is_it, count, count-append}
use bank_managment_system.Domain.Types.{AccountId}
use bank_managment_system.Concurrency.Locks.{
  Worker, Holder, Step, Reaches, Unlocked, start_all, locking, locks, unlocks, at_start, one_more,
}

-- How often the mutex of an id is held by all the workers.
abbrev pub holders : AccountId → List Worker → ℕ
holders x [] = 0
holders x (w ∷ l) = count x w.held + holders x l

holders-append :
    (x : AccountId) (l k : List Worker) → holders x (l ++ k) ≡ holders x l + holders x k
holders-append x [] k = omega arith
holders-append x (w ∷ l) k = omega (arith, holders-append x l k)

count-free :
    (x : AccountId) (ys : List AccountId) → All (λ (y : AccountId). y ≢ x) ys → count x ys ≡ 0
count-free x [] h = refl
count-free x (y ∷ ys) h = ground (arith, h.0, count-free x ys h.1)

holders-Unlocked : (x : AccountId) (l : List Worker) → Unlocked x l → holders x l ≡ 0
holders-Unlocked x [] h = refl
holders-Unlocked x (w ∷ l) h = omega (arith, count-free x w.held h.0, holders-Unlocked x l h.1)

locked_once :
    (z : AccountId) (before after : List Worker) (w : Worker) (x : AccountId)
    (rest : List AccountId)
    → Unlocked x (before ++ w ∷ after)
    → holders z (before ++ w ∷ after) ≤ 1
    → holders z (before ++ locking x rest w ∷ after) ≤ 1
locked_once z before after w x rest free one =
    let split = holders-append z before (w ∷ after) in
    let split' = holders-append z before (locking x rest w ∷ after) in
    elim (Bool-cases (x == z)) [
      | inl same ↦
          let e : x ≡ z = ground arith in
          let none_now =
            subst (λ k. holders k (before ++ w ∷ after) ≡ 0) e
              (holders-Unlocked x (before ++ w ∷ after) free) in
          let adds : is_it z x ≡ 1 = rw same refl in omega (arith, split, split', none_now, adds)
      | inr other ↦
          let adds : is_it z x ≡ 0 = rw other refl in omega (arith, split, split', one, adds)
    ]

unlocked_once :
    (z : AccountId) (before after : List Worker) (w : Worker) (x : AccountId)
    (these those : List AccountId)
    → w.held ≡ these ++ x ∷ those
    → holders z (before ++ w ∷ after) ≤ 1
    → holders z (before ++ record w { held = these ++ those } ∷ after) ≤ 1
unlocked_once z before after w x these those e one = omega (
  arith,
  one,
  ap (count z) e,
  holders-append z before (w ∷ after),
  holders-append z before (record w { held = these ++ those } ∷ after),
  count-append z these (x ∷ those),
  count-append z these those,
)

holders-Step :
    (z : AccountId) (now later : List Worker)
    → Step now later
    → holders z now ≤ 1
    → holders z later ≤ 1
holders-Step z _ _ (locks before after w x rest e free) one =
    locked_once z before after w x rest free one
holders-Step z _ _ (unlocks before after w x these those e f) one =
    unlocked_once z before after w x these those f one

start_once : (z : AccountId) (lockers : List Holder) → holders z (start_all lockers) ≡ 0
start_once z [] = refl
start_once z (locker ∷ rest) = omega (arith, start_once z rest)

-- A mutex is held by one guard at most.
pub held_once :
    (lockers : List Holder) (now : List Worker) (z : AccountId)
    → Reaches (start_all lockers) now
    → holders z now ≤ 1
held_once lockers _ z at_start = omega (arith, start_once z lockers)
held_once lockers _ z (one_more {now} {later} reached step) =
    holders-Step z now later step (held_once lockers now z reached)
