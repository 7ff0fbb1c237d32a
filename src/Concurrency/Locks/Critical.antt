-- ===== src/Concurrency/Locks/Critical.antt =====
-- src/concurrency/TransactionProcessor.cpp and ScopedAccountLocks.h: who is between the last lock
-- and the first unlock at the same time.
use bank_managment_system.Prelude.{
  ℕ, zero, suc, ◌+◌, ◌≤◌, ◌<◌, ◌≡◌, ◌≢◌, refl, ap, subst, ◌⊎◌, inl, inr, Option, none, some, List,
  [], ◌∷◌, ◌++◌, length, length-append, arith,
}
use bank_managment_system.Prelude.Counts.{count}
use bank_managment_system.Domain.Types.{AccountId}
use bank_managment_system.Domain.Transaction.{Transaction, debit_account, credit_account}
use bank_managment_system.Domain.Operations.{involved_accounts}
use bank_managment_system.Concurrency.Processor.{sort, insert_id}
use bank_managment_system.Concurrency.Locks.{
  Worker, Holder, processes, holds_scoped, guard_ids, scoped_ids, Step, Reaches, start_all, locking,
  locks, unlocks, at_start, one_more,
}
use bank_managment_system.Concurrency.Locks.Exclusion.{holders, held_once}

-- The accounts that a transaction debits or credits, and those that a ScopedAccountLocks is for.
abbrev pub Names : Holder → AccountId → Type 0
Names (processes txn) x = (debit_account txn ≡ some x) ⊎ (credit_account txn ≡ some x)
Names (holds_scoped first second) x = (first ≡ x) ⊎ (second ≡ x)

-- All its guards have locked, and none has unlocked.
pub record IsInside (h : Holder) (w : Worker) : Type 0 where
  pub nothing_wanted : w.wanted ≡ []
  pub all_held : length w.held ≡ length (guard_ids h)

-- The element at a place.
abbrev pub nth : {A : Type 0} → ℕ → List A → Option A
nth i [] = none
nth zero (a ∷ l) = some a
nth (suc i) (a ∷ l) = nth i l

-- A guard is there for each account that is named.
guarded : (h : Holder) (x : AccountId) → Names h x → 1 ≤ count x (guard_ids h)
unfolding guard_ids involved_accounts debit_account credit_account sort insert_id scoped_ids
guarded (holds_scoped first second) x named = ground (arith, named)
guarded (processes (Transaction.deposit a m)) x named = ground (arith, named)
guarded (processes (Transaction.withdraw a m)) x named = ground (arith, named)
guarded (processes (Transaction.transfer from to m)) x named = ground (arith, named)

-- Nothing has been unlocked, so each guard is held or wanted; or something has, and nothing is
-- wanted any more.
abbrev Locking : Holder → Worker → Type 0
Locking h w =
    ((x : ℕ) → count x w.held + count x w.wanted ≡ count x (guard_ids h))
    × (length w.held + length w.wanted ≡ length (guard_ids h))

abbrev Unlocking : Holder → Worker → Type 0
Unlocking h w = (w.wanted ≡ []) × (length w.held < length (guard_ids h))

abbrev Stage : Holder → Worker → Type 0
Stage h w = Locking h w ⊎ Unlocking h w

locking-Stage :
    (h : Holder) (w : Worker) (x : AccountId) (rest : List AccountId)
    → w.wanted ≡ x ∷ rest
    → Stage h w
    → Stage h (locking x rest w)
locking-Stage h w x rest e (inl (counted, sized)) =
    inl
      ((λ z. omega (arith, counted z, ap (count z) e)), omega (arith, sized, ap (length {A = ℕ}) e))
locking-Stage h w x rest e (inr (nothing, _)) = absurd cc

unlocking-Stage :
    (h : Holder) (w : Worker) (x : AccountId) (these those : List AccountId)
    → w.wanted ≡ []
    → w.held ≡ these ++ x ∷ those
    → Stage h w
    → Stage h (record w { held = these ++ those })
unlocking-Stage h w x these those nothing e stage =
    let shorter : length w.held ≡ suc (length (these ++ those)) =
      omega (
        arith,
        ap (length {A = ℕ}) e,
        length-append these (x ∷ those),
        length-append these those,
      ) in
    elim stage [
      | inl (_, sized) ↦ inr (nothing, omega (arith, sized, shorter))
      | inr (_, fewer) ↦ inr (nothing, omega (arith, fewer, shorter))
    ]

-- Each worker at its stage.
abbrev Staged : List Holder → List Worker → Type 0
Staged [] [] = Unit
Staged (h ∷ hs) (w ∷ ws) = Stage h w × Staged hs ws
Staged _ _ = ⊥

Staged-replace :
    (hs : List Holder) (before after : List Worker) (w w' : Worker)
    → ((h : Holder) → Stage h w → Stage h w')
    → Staged hs (before ++ w ∷ after)
    → Staged hs (before ++ w' ∷ after)
Staged-replace [] [] after w w' f s = s
Staged-replace [] (v ∷ before) after w w' f s = s
Staged-replace (h ∷ hs) [] after w w' f s = (f h s.0, s.1)
Staged-replace (h ∷ hs) (v ∷ before) after w w' f s =
    (s.0, Staged-replace hs before after w w' f s.1)

Step-Staged :
    (hs : List Holder) (now later : List Worker) → Step now later → Staged hs now → Staged hs later
Step-Staged hs _ _ (locks before after w x rest e free) s =
    Staged-replace hs before after w (locking x rest w) (λ h. locking-Stage h w x rest e) s
Step-Staged hs _ _ (unlocks before after w x these those nothing e) s =
    Staged-replace hs before after w (record w { held = these ++ those })
      (λ h. unlocking-Stage h w x these those nothing e) s

start_all-Staged : (hs : List Holder) → Staged hs (start_all hs)
start_all-Staged [] = tt
start_all-Staged (h ∷ hs) = (inl ((λ x. omega arith), omega arith), start_all-Staged hs)

Reaches-Staged : (hs : List Holder) (now : List Worker) → Reaches (start_all hs) now → Staged hs now
Reaches-Staged hs _ at_start = start_all-Staged hs
Reaches-Staged hs _ (one_more {now} {later} reached step) =
    Step-Staged hs now later step (Reaches-Staged hs now reached)

Staged-nth :
    (i : ℕ) (hs : List Holder) (ws : List Worker) (h : Holder) (w : Worker)
    → Staged hs ws
    → nth i hs ≡ some h
    → nth i ws ≡ some w
    → Stage h w
Staged-nth i [] [] h w s e f = absurd cc
Staged-nth i [] (v ∷ ws) h w s e f = absurd s
Staged-nth i (g ∷ hs) [] h w s e f = absurd s
Staged-nth zero (g ∷ hs) (v ∷ ws) h w s e f =
    let same_holder : g ≡ h = cc in
    let same_worker : v ≡ w = cc in
    subst (λ k. Stage k w) same_holder (subst (Stage g) same_worker s.0)
Staged-nth (suc i) (g ∷ hs) (v ∷ ws) h w s e f = Staged-nth i hs ws h w s.1 e f

-- One that is inside holds the mutex of every account that it names.
inside_holds :
    (h : Holder) (w : Worker) (x : AccountId)
    → Stage h w
    → IsInside h w
    → Names h x
    → 1 ≤ count x w.held
inside_holds h w x (inl (counted, sized)) inside named =
    omega (arith, counted x, ap (count x) inside.nothing_wanted, guarded h x named)
inside_holds h w x (inr (_, fewer)) inside named = absurd (omega (arith, fewer, inside.all_held))

count-holders :
    (x : AccountId) (i : ℕ) (ws : List Worker) (w : Worker)
    → nth i ws ≡ some w
    → count x w.held ≤ holders x ws
count-holders x i [] w e = absurd cc
count-holders x zero (v ∷ ws) w e =
    let same : v ≡ w = cc in omega (arith, ap (λ (u : Worker). count x u.held) same)
count-holders x (suc i) (v ∷ ws) w e = omega (arith, count-holders x i ws w e)

both-holders :
    (x : AccountId) (i j : ℕ) (ws : List Worker) (v w : Worker)
    → i ≢ j
    → nth i ws ≡ some v
    → nth j ws ≡ some w
    → count x v.held + count x w.held ≤ holders x ws
both-holders x i j [] v w ne e f = absurd cc
both-holders x zero zero (u ∷ ws) v w ne e f = absurd (ne refl)
both-holders x zero (suc j) (u ∷ ws) v w ne e f =
    let same : u ≡ v = cc in
    omega (arith, ap (λ (k : Worker). count x k.held) same, count-holders x j ws w f)
both-holders x (suc i) zero (u ∷ ws) v w ne e f =
    let same : u ≡ w = cc in
    omega (arith, ap (λ (k : Worker). count x k.held) same, count-holders x i ws v e)
both-holders x (suc i) (suc j) (u ∷ ws) v w ne e f =
    omega (arith, both-holders x i j ws v w (λ k. ne (omega (arith, k))) e f)

-- However the workers of any transactions, and of any ScopedAccountLocks of two accounts, have taken
-- turns, two of them are never between their last lock and their first unlock at the same time if
-- both name the same account: as the one it debits or credits, or as one of the two it locks.
pub start_all-Apart :
    (lockers : List Holder) (now : List Worker) (i j : ℕ) (g h : Holder) (v w : Worker)
    (x : AccountId)
    → Reaches (start_all lockers) now
    → i ≢ j
    → nth i lockers ≡ some g
    → nth j lockers ≡ some h
    → nth i now ≡ some v
    → nth j now ≡ some w
    → IsInside g v
    → IsInside h w
    → Names g x
    → ¬ (Names h x)
start_all-Apart lockers now i j g h v w x reached ne gi hj vi wj inside_v inside_w named =
    let staged = Reaches-Staged lockers now reached in
    let one = held_once lockers now x reached in
    let v_holds = inside_holds g v x (Staged-nth i lockers now g v staged gi vi) inside_v named in
    let both = both-holders x i j now v w ne vi wj in
    λ also.
      let w_holds = inside_holds h w x (Staged-nth j lockers now h w staged hj wj) inside_w also in
      omega (arith, one, v_holds, w_holds, both)
