-- ===== src/Concurrency/Locks.antt =====
-- src/concurrency/AccountLockManager.cpp, ScopedAccountLock.h, ScopedAccountLocks.h, and the part of
-- TransactionProcessor::process_impl that takes the account locks: workers that run at the same time,
-- each of which locks the mutexes of its accounts one at a time, in the sorted order, and unlocks
-- them when its guards are destroyed.
pub mod Order
pub mod Progress
pub mod Exclusion
pub mod Critical
use bank_managment_system.Prelude.{
  ℕ, ◌==◌, ltb, if◌then◌else◌, ◌<◌, ◌≡◌, ◌≢◌, List, [], ◌∷◌, ◌++◌, All,
}
use bank_managment_system.Domain.Types.{AccountId}
use bank_managment_system.Domain.Transaction.{Transaction}
use bank_managment_system.Domain.Operations.{involved_accounts}
use bank_managment_system.Concurrency.Processor.{sort}

-- One that takes account locks: the ids behind its guards, and those it has yet to lock.
pub record Worker : Type 0 where
  pub held : List AccountId
  pub wanted : List AccountId

-- The guards of ScopedAccountLocks: one if both ids are the same, and the lower id first.
abbrev pub one_or_two : AccountId → AccountId → List AccountId
one_or_two first second = if second == first then first ∷ [] else first ∷ second ∷ []

unfoldable pub scoped_ids : AccountId → AccountId → List AccountId
scoped_ids first second =
    if ltb second first then one_or_two second first else one_or_two first second

-- What takes account locks: process_impl, and whoever holds a ScopedAccountLocks of two accounts.
pub data Holder : Type 0 where
  processes : Transaction → Holder
  holds_scoped : AccountId → AccountId → Holder

unfoldable pub guard_ids : Holder → List AccountId
unfolding sort involved_accounts scoped_ids
guard_ids (processes txn) = sort (involved_accounts txn)
guard_ids (holds_scoped first second) = scoped_ids first second

abbrev pub start : Holder → Worker
start holder = record { held = []; wanted = guard_ids holder }

abbrev pub start_all : List Holder → List Worker
start_all [] = []
start_all (holder ∷ rest) = start holder ∷ start_all rest

-- The mutex of an account is not locked.
abbrev pub Unlocked : AccountId → List Worker → Type 0
Unlocked x workers = All (λ (w : Worker). All (λ (y : AccountId). y ≢ x) w.held) workers

abbrev pub locking : AccountId → List AccountId → Worker → Worker
locking x rest w = record { held = x ∷ w.held; wanted = rest }

-- One step of one worker: the constructor of a guard gets the mutex, which no worker has locked, or,
-- once all are locked and the work is done, the destructor of a guard unlocks it.
pub data Step : List Worker → List Worker → Type 0 where
  locks :
      (before after : List Worker) (w : Worker) (x : AccountId) (rest : List AccountId)
      → w.wanted ≡ x ∷ rest
      → Unlocked x (before ++ w ∷ after)
      → Step (before ++ w ∷ after) (before ++ locking x rest w ∷ after)
  unlocks :
      (before after : List Worker) (w : Worker) (x : AccountId) (these those : List AccountId)
      → w.wanted ≡ []
      → w.held ≡ these ++ x ∷ those
      → Step (before ++ w ∷ after) (before ++ record w { held = these ++ those } ∷ after)

-- Any number of steps.
pub data Reaches (workers : List Worker) : List Worker → Type 0 where
  at_start : Reaches workers workers
  one_more :
      {now later : List Worker} → Reaches workers now → Step now later → Reaches workers later
