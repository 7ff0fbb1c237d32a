-- ===== src/Concurrency/ConsumerTests.antt =====
-- src/concurrency/TransactionProcessor.cpp: two consumers that take each other's ids.
use bank_managment_system.Prelude.{◌≡◌, ◌+◌, length, refl, [], ◌∷◌, ◌++◌}
use bank_managment_system.Domain.Transaction.{Transaction}
use bank_managment_system.Concurrency.Consumers.{
  waiting, holding, processing, Consumers, reserve_id, enqueue_reserved, take_id, reserves,
  enqueues, pops, takes, at_start, waiting_consumers, ConsumersReach, started, stepped,
}
use bank_managment_system.Concurrency.Consumers.Pairing.{in_hand, half_done, consumers-InOrder}
use bank_managment_system.Concurrency.Tests.{amount, move}

abbrev other : Transaction
other = Transaction.deposit 3 amount

-- Both are submitted, under the ids 7 and 8.
abbrev submitted : Consumers
submitted = record (at_start 7 (waiting_consumers 2)) {
  queue = move ∷ other ∷ [];
  reserved = 7 ∷ 8 ∷ [];
  next_id = 9;
  accepted = move ∷ other ∷ [];
  issued = 7 ∷ 8 ∷ [];
}

submitted-ConsumersReach : ConsumersReach 2 7 submitted
unfolding reserve_id enqueue_reserved
submitted-ConsumersReach =
    let s0 = at_start 7 (waiting_consumers 2) in
    let s1 = reserve_id move s0 in
    let s2 = enqueue_reserved move s1 in
    let s3 = reserve_id other s2 in
    stepped s3 submitted
      (stepped s2 s3
        (stepped s1 s2 (stepped s0 s1 started (reserves s0 move refl)) (enqueues s1 move refl))
        (reserves s2 other refl))
      (enqueues s3 other refl)

-- The first consumer has popped the first transaction, the second one the second.
abbrev in_hands : Consumers
in_hands = record submitted {
  queue = [];
  popped = move ∷ other ∷ [];
  consumers = holding move ∷ holding other ∷ [];
}

in_hands-ConsumersReach : ConsumersReach 2 7 in_hands
in_hands-ConsumersReach =
    let half : Consumers = record submitted {
      queue = other ∷ [];
      popped = move ∷ [];
      consumers = holding move ∷ waiting ∷ [];
    } in
    stepped half in_hands
      (stepped submitted half submitted-ConsumersReach
        (pops submitted [] (waiting ∷ []) move (other ∷ []) refl refl))
      (pops half (holding move ∷ []) [] other [] refl refl)

-- The second consumer is the first to take an id.
abbrev crossed : Consumers
crossed = record in_hands {
  reserved = [];
  taken = 7 ∷ 8 ∷ [];
  consumers = processing move 8 ∷ processing other 7 ∷ [];
}

crossed-ConsumersReach : ConsumersReach 2 7 crossed
unfolding take_id
crossed-ConsumersReach =
    let half : Consumers = record in_hands {
      reserved = 8 ∷ [];
      taken = 7 ∷ [];
      consumers = holding move ∷ processing other 7 ∷ [];
    } in
    stepped half crossed
      (stepped in_hands half in_hands-ConsumersReach
        (takes in_hands (holding move ∷ []) [] other refl))
      (takes half [] (processing other 7 ∷ []) move refl)

consumers-InOrder_example :
    (crossed.accepted ≡ crossed.popped ++ crossed.queue)
    × (crossed.issued ≡ crossed.taken ++ crossed.reserved)
    × (length crossed.reserved
        ≡ length crossed.queue + in_hand crossed.consumers + half_done crossed.submitting)
consumers-InOrder_example = consumers-InOrder 2 7 crossed crossed-ConsumersReach
