-- ===== src/Concurrency/LockTests.antt =====
-- src/concurrency/: two that lock the same accounts, one of which has locked its first, and two that
-- lock different accounts.
use bank_managment_system.Prelude.{◌≡◌, refl, ◌⊎◌, inr, arith, List, [], ◌∷◌, All}
use bank_managment_system.Domain.Transaction.{Transaction, debit_account, credit_account}
use bank_managment_system.Domain.Operations.{involved_accounts}
use bank_managment_system.Concurrency.Processor.{sort, insert_id}
use bank_managment_system.Concurrency.Locks.{
  Worker, Holder, guard_ids, scoped_ids, Reaches, start, start_all, locking, locks, at_start,
  one_more,
}
use bank_managment_system.Concurrency.Locks.Progress.{IsDone, CanStep, start_all-Progress}
use bank_managment_system.Concurrency.Locks.Critical.{IsInside, Names, start_all-Apart}

abbrev there : Holder
there = Holder.holds_scoped 2 1

abbrev back : Holder
back = Holder.processes (Transaction.transfer 2 1 (record { cents = 7 }))

abbrev both : List Holder
both = there ∷ back ∷ []

abbrev first_locked : List Worker
first_locked = locking 1 (2 ∷ []) (start there) ∷ start back ∷ []

wants : (start there).wanted ≡ 1 ∷ 2 ∷ []
unfolding guard_ids scoped_ids
wants = refl

first_reached : Reaches (start_all both) first_locked
first_reached =
    one_more at_start (locks [] (start back ∷ []) (start there) 1 (2 ∷ []) wants (tt, (tt, tt)))

start_all-Progress_example : All IsDone first_locked ⊎ CanStep first_locked
start_all-Progress_example = start_all-Progress both first_locked first_reached

-- One that shares no account with it, and a state in which both are inside.
abbrev aside : Holder
aside = Holder.processes (Transaction.deposit 3 (record { cents = 5 }))

abbrev apart : List Holder
apart = there ∷ aside ∷ []

wants_3 : (start aside).wanted ≡ 3 ∷ []
unfolding guard_ids sort insert_id involved_accounts debit_account credit_account
wants_3 = refl

abbrev there_1 : Worker
there_1 = locking 1 (2 ∷ []) (start there)

abbrev there_inside : Worker
there_inside = locking 2 [] there_1

abbrev aside_inside : Worker
aside_inside = locking 3 [] (start aside)

both_reached : Reaches (start_all apart) (there_inside ∷ aside_inside ∷ [])
both_reached =
    one_more
      (one_more
        (one_more at_start
          (locks [] (start aside ∷ []) (start there) 1 (2 ∷ []) wants (tt, (tt, tt))))
        (locks [] (start aside ∷ []) there_1 2 [] refl ((omega arith, tt), (tt, tt))))
      (locks (there_inside ∷ []) [] (start aside) 3 [] wants_3
        ((omega arith, (omega arith, tt)), (tt, tt)))

there-IsInside : IsInside there there_inside
unfolding guard_ids scoped_ids
there-IsInside = record { nothing_wanted = refl; all_held = refl }

aside-IsInside : IsInside aside aside_inside
unfolding guard_ids sort insert_id involved_accounts debit_account credit_account
aside-IsInside = record { nothing_wanted = refl; all_held = refl }

start_all-Apart_example : ¬ (Names aside 1)
start_all-Apart_example =
    start_all-Apart apart (there_inside ∷ aside_inside ∷ []) 0 1 there aside there_inside
      aside_inside 1 both_reached (omega arith) refl refl refl refl there-IsInside aside-IsInside
      (inr refl)
