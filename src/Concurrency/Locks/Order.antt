-- ===== src/Concurrency/Locks/Order.antt =====
-- src/concurrency/TransactionProcessor.cpp: the order of the ids that a worker holds and wants.
use bank_managment_system.Prelude.{ℕ, ◌<◌, ◌≡◌, subst, List, [], ◌∷◌, ◌++◌, All, All-map, arith}
use bank_managment_system.Domain.Types.{AccountId}
use bank_managment_system.Domain.Transaction.{Transaction, debit_account, credit_account}
use bank_managment_system.Domain.Operations.{involved_accounts}
use bank_managment_system.Concurrency.Processor.{sort, insert_id}
use bank_managment_system.Concurrency.Locks.{
  Worker, Holder, processes, holds_scoped, guard_ids, scoped_ids, Step, Reaches, start, start_all,
  locking, locks, unlocks, at_start, one_more,
}

-- What is wanted ascends, and is above all that is held.
abbrev pub Ascends : List AccountId → Type 0
Ascends [] = Unit
Ascends (x ∷ xs) = All (λ (y : ℕ). x < y) xs × Ascends xs

pub record InOrder (w : Worker) : Type 0 where
  pub ascends : Ascends w.wanted
  pub above : All (λ (h : ℕ). All (λ (y : ℕ). h < y) w.wanted) w.held

pub All-middle :
    (P : Worker → Type 0) (before : List Worker) (w : Worker) (after : List Worker)
    → All P (before ++ w ∷ after)
    → P w
All-middle P [] w after h = h.0
All-middle P (v ∷ before) w after h = All-middle P before w after h.1

All-replace :
    (P : Worker → Type 0) (before : List Worker) (w w' : Worker) (after : List Worker)
    → All P (before ++ w ∷ after)
    → P w'
    → All P (before ++ w' ∷ after)
All-replace P [] w w' after h p = (p, h.1)
All-replace P (v ∷ before) w w' after h p = (h.0, All-replace P before w w' after h.1 p)

All-without :
    (P : ℕ → Type 0) (these : List ℕ) (x : ℕ) (those : List ℕ)
    → All P (these ++ x ∷ those)
    → All P (these ++ those)
All-without P [] x those h = h.1
All-without P (y ∷ these) x those h = (h.0, All-without P these x those h.1)

locking-InOrder :
    (w : Worker) (x : AccountId) (rest : List AccountId)
    → w.wanted ≡ x ∷ rest
    → InOrder w
    → InOrder (locking x rest w)
locking-InOrder w x rest e h =
    let ascending = subst Ascends e h.ascends in
    let above =
      subst (λ (k : List ℕ). All (λ (y : ℕ). All (λ (z : ℕ). y < z) k) w.held) e h.above in
    record {
      ascends = ascending.1;
      above = (
        ascending.0,
        All-map (λ (y : ℕ). All (λ (z : ℕ). y < z) (x ∷ rest))
            (λ (y : ℕ). All (λ (z : ℕ). y < z) rest) w.held (λ y k. k.1) above,
      );
    }

unlocking-InOrder :
    (w : Worker) (x : AccountId) (these those : List AccountId)
    → w.held ≡ these ++ x ∷ those
    → InOrder w
    → InOrder (record w { held = these ++ those })
unlocking-InOrder w x these those e h = record {
  ascends = h.ascends;
  above =
      All-without (λ (y : ℕ). All (λ (z : ℕ). y < z) w.wanted) these x those
        (subst (All (λ (y : ℕ). All (λ (z : ℕ). y < z) w.wanted)) e h.above);
}

Step-InOrder : (now later : List Worker) → Step now later → All InOrder now → All InOrder later
Step-InOrder _ _ (locks before after w x rest e free) h =
    All-replace InOrder before w (locking x rest w) after h
      (locking-InOrder w x rest e (All-middle InOrder before w after h))
Step-InOrder _ _ (unlocks before after w x these those e f) h =
    All-replace InOrder before w (record w { held = these ++ those }) after h
      (unlocking-InOrder w x these those f (All-middle InOrder before w after h))

start-InOrder : (holder : Holder) → InOrder (start holder)
unfolding guard_ids involved_accounts debit_account credit_account sort insert_id scoped_ids
start-InOrder (holds_scoped first second) = record { ascends = ground arith; above = tt }
start-InOrder (processes (Transaction.deposit a m)) = record { ascends = (tt, tt); above = tt }
start-InOrder (processes (Transaction.withdraw a m)) = record { ascends = (tt, tt); above = tt }
start-InOrder (processes (Transaction.transfer from to m)) = record {
  ascends = ground arith;
  above = tt;
}

start_all-InOrder : (lockers : List Holder) → All InOrder (start_all lockers)
start_all-InOrder [] = tt
start_all-InOrder (holder ∷ rest) = (start-InOrder holder, start_all-InOrder rest)

pub Reaches-InOrder :
    (lockers : List Holder) (now : List Worker) → Reaches (start_all lockers) now → All InOrder now
Reaches-InOrder lockers _ at_start = start_all-InOrder lockers
Reaches-InOrder lockers _ (one_more {now} {later} reached step) =
    Step-InOrder now later step (Reaches-InOrder lockers now reached)
