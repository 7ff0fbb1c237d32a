-- ===== src/Concurrency/Consumers/Pairing.antt =====
-- src/concurrency/TransactionProcessor.cpp: the order of the transactions and of the reserved ids.
use bank_managment_system.Prelude.{
  ℕ, zero, suc, ◌+◌, ◌≡◌, ◌≢◌, refl, ap, sym, ◌∙◌, Option, none, some, List, [], ◌∷◌, ◌++◌, length,
  arith, append_assoc, length-append,
}
use bank_managment_system.Domain.Types.{TransactionId}
use bank_managment_system.Domain.Transaction.{Transaction}
use bank_managment_system.Concurrency.Consumers.{
  Consumer, waiting, holding, processing, Consumers, reserve_id, enqueue_reserved, pop_front,
  take_front, take_id, ConsumerStep, reserves, enqueues, pops, takes, finishes, waiting_consumers,
  ConsumersReach, started, stepped,
}

abbrev pub in_hand : List Consumer → ℕ
in_hand [] = 0
in_hand (holding _ ∷ cs) = suc (in_hand cs)
in_hand (waiting ∷ cs) = in_hand cs
in_hand (processing _ _ ∷ cs) = in_hand cs

abbrev pub half_done : Option Transaction → ℕ
half_done none = 0
half_done (some _) = 1

in_hand-append : (cs ds : List Consumer) → in_hand (cs ++ ds) ≡ in_hand cs + in_hand ds
in_hand-append [] ds = omega arith
in_hand-append (holding _ ∷ cs) ds = omega (arith, in_hand-append cs ds)
in_hand-append (waiting ∷ cs) ds = in_hand-append cs ds
in_hand-append (processing _ _ ∷ cs) ds = in_hand-append cs ds

in_hand-waiting : (n : ℕ) → in_hand (waiting_consumers n) ≡ 0
in_hand-waiting zero = refl
in_hand-waiting (suc n) = in_hand-waiting n

-- Both queues are first in, first out, and an id is reserved for each transaction that is queued,
-- in the hand of a consumer, or about to be queued.
pub record InOrder (s : Consumers) : Type 0 where
  pub transactions : s.accepted ≡ s.popped ++ s.queue
  pub ids : s.issued ≡ s.taken ++ s.reserved
  pub paired : length s.reserved ≡ length s.queue + in_hand s.consumers + half_done s.submitting

module _ (s : Consumers) (h : InOrder s) where
  reserves-InOrder : (txn : Transaction) → s.submitting ≡ none → InOrder (reserve_id txn s)
  unfolding reserve_id
  reserves-InOrder txn e = record {
    transactions = h.transactions;
    ids = ap (λ l. l ++ s.next_id ∷ []) h.ids ∙ append_assoc s.taken s.reserved (s.next_id ∷ []);
    paired =
        let free : half_done s.submitting ≡ 0 = ap half_done e in
        omega (arith, length-append s.reserved (s.next_id ∷ []), h.paired, free);
  }

  enqueues-InOrder :
      (txn : Transaction) → s.submitting ≡ some txn → InOrder (enqueue_reserved txn s)
  unfolding enqueue_reserved
  enqueues-InOrder txn e = record {
    transactions =
        ap (λ l. l ++ txn ∷ []) h.transactions ∙ append_assoc s.popped s.queue (txn ∷ []);
    ids = h.ids;
    paired =
        let half : half_done s.submitting ≡ 1 = ap half_done e in
        omega (arith, length-append s.queue (txn ∷ []), h.paired, half);
  }

  pops-InOrder :
      (before after : List Consumer) (txn : Transaction) (rest : List Transaction)
      → s.consumers ≡ before ++ waiting ∷ after
      → s.queue ≡ txn ∷ rest
      → InOrder (record (pop_front txn rest s) { consumers = before ++ holding txn ∷ after })
  pops-InOrder before after txn rest e q = record {
    transactions =
        h.transactions ∙ ap (λ l. s.popped ++ l) q ∙ sym (append_assoc s.popped (txn ∷ []) rest);
    ids = h.ids;
    paired =
        let now : in_hand s.consumers ≡ in_hand (before ++ waiting ∷ after) = ap in_hand e in
        let longer : length s.queue ≡ suc (length rest) = ap length q in
        omega (
          arith,
          in_hand-append before (waiting ∷ after),
          in_hand-append before (holding txn ∷ after),
          h.paired,
          now,
          longer,
        );
  }

  -- A consumer that has a transaction in hand finds a reserved id.
  reserved_is :
      (before after : List Consumer) (txn : Transaction)
      → s.consumers ≡ before ++ holding txn ∷ after
      → s.reserved ≢ []
  reserved_is before after txn e none_left =
      let now : in_hand s.consumers ≡ in_hand (before ++ holding txn ∷ after) = ap in_hand e in
      let short : length s.reserved ≡ 0 = ap length none_left in
      omega (arith, in_hand-append before (holding txn ∷ after), h.paired, now, short)

  taken-InOrder :
      (before after : List Consumer) (txn : Transaction) (reserved : List TransactionId)
      → s.consumers ≡ before ++ holding txn ∷ after
      → s.reserved ≡ reserved
      → InOrder (record ((take_front reserved s).1) {
        consumers = before ++ processing txn (take_front reserved s).0 ∷ after;
      })
  taken-InOrder before after txn [] e r = absurd (reserved_is before after txn e r)
  taken-InOrder before after txn (id ∷ rest) e r = record {
    transactions = h.transactions;
    ids = h.ids ∙ ap (λ l. s.taken ++ l) r ∙ sym (append_assoc s.taken (id ∷ []) rest);
    paired =
        let now : in_hand s.consumers ≡ in_hand (before ++ holding txn ∷ after) = ap in_hand e in
        let longer : length s.reserved ≡ suc (length rest) = ap length r in
        omega (
          arith,
          in_hand-append before (holding txn ∷ after),
          in_hand-append before (processing txn id ∷ after),
          h.paired,
          now,
          longer,
        );
  }

  finishes-InOrder :
      (before after : List Consumer) (txn : Transaction) (id : TransactionId)
      → s.consumers ≡ before ++ processing txn id ∷ after
      → InOrder (record s { consumers = before ++ waiting ∷ after })
  finishes-InOrder before after txn id e = record {
    transactions = h.transactions;
    ids = h.ids;
    paired =
        let now : in_hand s.consumers ≡ in_hand (before ++ processing txn id ∷ after) =
          ap in_hand e in
        omega (
          arith,
          in_hand-append before (processing txn id ∷ after),
          in_hand-append before (waiting ∷ after),
          h.paired,
          now,
        );
  }

ConsumerStep-InOrder : (s s' : Consumers) → ConsumerStep s s' → InOrder s → InOrder s'
unfolding take_id
ConsumerStep-InOrder s _ (reserves _ txn e) h = reserves-InOrder s h txn e
ConsumerStep-InOrder s _ (enqueues _ txn e) h = enqueues-InOrder s h txn e
ConsumerStep-InOrder s _ (pops _ before after txn rest e q) h =
    pops-InOrder s h before after txn rest e q
ConsumerStep-InOrder s _ (takes _ before after txn e) h =
    taken-InOrder s h before after txn s.reserved e refl
ConsumerStep-InOrder s _ (finishes _ before after txn id e) h =
    finishes-InOrder s h before after txn id e

ConsumersReach-InOrder : (n next : ℕ) (s : Consumers) → ConsumersReach n next s → InOrder s
ConsumersReach-InOrder n next _ started = record {
  transactions = refl;
  ids = refl;
  paired = omega (arith, in_hand-waiting n);
}
ConsumersReach-InOrder n next _ (stepped s s' reached step) =
    ConsumerStep-InOrder s s' step (ConsumersReach-InOrder n next s reached)

-- However any number of consumers and calls of submit have taken turns: the transactions were
-- popped in the order in which they were queued, the ids were taken in the order in which submit
-- gave them out, and there are as many reserved ids as transactions that are queued, in the hand of
-- a consumer, or about to be queued, so that no consumer draws an id anew.
pub consumers-InOrder :
    (worker_count next : ℕ) (s : Consumers)
    → ConsumersReach worker_count next s
    → (s.accepted ≡ s.popped ++ s.queue)
      × (s.issued ≡ s.taken ++ s.reserved)
      × (length s.reserved ≡ length s.queue + in_hand s.consumers + half_done s.submitting)
consumers-InOrder n next s reached =
    let h = ConsumersReach-InOrder n next s reached in (h.transactions, h.ids, h.paired)
