-- ===== src/Concurrency/Processor.antt =====
-- src/concurrency/TransactionProcessor.cpp, one call at a time. The processor's state holds that of the
-- services it refers to. A lock changes no state here: process_impl is one critical section.
pub mod Local
pub mod Outcome
pub mod Found
pub mod Settlement
pub mod Trail
pub mod Transfers
pub mod Permits
pub mod Ids
pub mod Steps
pub mod Front
pub mod Restart
pub mod Stores
pub mod RunStores
pub mod Runs
pub mod Construct
pub mod Consumer
pub mod Drain
pub mod Invariant
use bank_managment_system.Prelude.{
  ℕ, zero, suc, ◌+◌, ◌%◌, ◌^◌, ◌==◌, leb, Bool, true, false, not, if◌then◌else◌, Option, none, some,
  List, [], ◌∷◌, ◌++◌, is_empty,
}
use bank_managment_system.Prelude.Int.{ℤ}
use bank_managment_system.Prelude.Text.{Bytes, text, to_string}
use bank_managment_system.Prelude.Exec.{
  Exec, Exception, Throws, ok, throw, what, pure, gets, lift, try_catch, ◌>>=◌, ◌>>◌,
}
use bank_managment_system.Core.{Result, success, failure}
use bank_managment_system.Domain.Types.{AccountId, CustomerId, TransactionId, TransactionState}
use bank_managment_system.Domain.Account.{Account}
use bank_managment_system.Domain.Transaction.{
  Transaction, TransactionRecord, project_transaction, describe,
}
use bank_managment_system.Domain.Operations.{involved_accounts, validate, apply}
use bank_managment_system.Persistence.Repository.{
  AccountRepository, TransactionRepository, AuditRepository,
}
use bank_managment_system.Persistence.Wal.{Wal, Disk}
use bank_managment_system.Persistence.Wal
use bank_managment_system.Concurrency.Queue.{TransactionQueue, enqueue, try_pop, size}

-- What the processor is given: the repositories, the disk under the journal, and the clock, as the
-- time that each call of timeutil::now() returns, by its number.
pub record Services : Type 1 where
  pub accounts : AccountRepository
  pub transactions : TransactionRepository
  pub audit : AuditRepository
  pub disk : Disk
  pub time_at : ℕ → ℤ

-- The members of the class, and the state of what its references name.
pub record Processor (s : Services) : Type 0 where
  pub queue : TransactionQueue
  pub reserved : List TransactionId
  pub next_id : ℕ
  pub next_audit_id : ℕ
  pub accepting : Bool
  pub started : Bool
  pub accounts : s.accounts.State
  pub transactions : s.transactions.State
  pub audit : s.audit.State
  pub wal : Wal
  pub clock_calls : ℕ

-- std::sort of account ids.
unfoldable pub insert_id : AccountId → List AccountId → List AccountId
insert_id x [] = x ∷ []
insert_id x (y ∷ ys) = if leb x y then x ∷ y ∷ ys else y ∷ insert_id x ys

unfoldable pub sort : List AccountId → List AccountId
unfolding insert_id
sort [] = []
sort (x ∷ xs) = insert_id x (sort xs)

-- What the catch block reports of an exception.
abbrev pub message_of : Exception → Bytes
message_of ex = if is_empty (what ex) then text "unknown error" else what ex

module _ (s : Services) where
  abbrev pub Action : Type 0 → Type 0
  Action A = Exec (Processor s) A

  abbrev pub on_accounts : {A : Type 0} → Exec s.accounts.State A → Action A
  on_accounts m p = let (r, state) = m p.accounts in (r, record p { accounts = state })

  abbrev pub on_transactions : {A : Type 0} → Exec s.transactions.State A → Action A
  on_transactions m p = let (r, state) = m p.transactions in (r, record p { transactions = state })

  abbrev pub on_audit : {A : Type 0} → Exec s.audit.State A → Action A
  on_audit m p = let (r, state) = m p.audit in (r, record p { audit = state })

  abbrev pub on_wal : {A : Type 0} → Exec Wal A → Action A
  on_wal m p = let (r, state) = m p.wal in (r, record p { wal = state })

  -- timeutil::now()
  abbrev pub now : Action ℤ
  now p = (ok (s.time_at p.clock_calls), record p { clock_calls = p.clock_calls + 1 })

  -- next_id_.fetch_add(1), on a uint64_t
  abbrev pub fetch_id : Action TransactionId
  fetch_id p = (ok p.next_id, record p { next_id = (p.next_id + 1) % 2 ^ 64 })

  -- next_audit_id_.fetch_add(1)
  abbrev pub fetch_audit_id : Action ℕ
  fetch_audit_id p =
      (ok p.next_audit_id, record p { next_audit_id = (p.next_audit_id + 1) % 2 ^ 64 })

  unfoldable pub append_audit : CustomerId → Bytes → Bytes → Action (Unit {0})
  append_audit actor action details = do
    id ← fetch_audit_id
    time ← now
    on_audit (
        s.audit.append (record {
          id = id;
          timestamp = time;
          actor_id = actor;
          action = action;
          details = details;
        }))

  -- An error path: the audit entry, and the failure that is returned.
  unfoldable pub fail : Bytes → Bytes → Action (Result TransactionRecord)
  fail details message = do append_audit 0 (text "txn.failed") details; pure (failure message)

  -- The body of the loop that loads the accounts, with the rounds that follow it.
  abbrev pub keep_loaded :
      AccountId → Action (List Account × Bytes) → Option Account → Action (List Account × Bytes)
  keep_loaded id rounds none = pure ([], text "account not found: " ++ to_string id)
  keep_loaded id rounds (some a) = do later ← rounds; pure (a ∷ later.0, later.1)

  -- The loop, up to the first account that is missing, with missing_message.
  unfoldable pub load : List AccountId → Action (List Account × Bytes)
  load [] = pure ([], [])
  load (id ∷ rest) = do
    found ← on_accounts (s.accounts.find_by_id id)
    keep_loaded id (load rest) found

  unfoldable pub save_all : List Account → Action (Unit {0})
  save_all [] = pure tt
  save_all (a ∷ rest) = on_accounts (s.accounts.save a) >> save_all rest

  -- From the intent in the journal to the audit entry of success.
  unfoldable pub execute :
      Transaction → TransactionId → List Account → Action (Result TransactionRecord)
  execute txn id loaded = do
    time ← now
    let validated = record (project_transaction time id txn) { state = TransactionState.validated }
    on_wal (Wal.append s.disk validated)
    let (result, applied) = apply txn loaded
    lift result
    save_all applied
    on_wal (Wal.mark_committed s.disk id)
    let committed = record validated { state = TransactionState.committed }
    on_transactions (s.transactions.append committed)
    append_audit 0 (text "txn.completed") (describe txn)
    pure (success committed)

  -- What follows the loading loop.
  unfoldable pub execute_loaded :
      Transaction → TransactionId → List Account × Bytes → Action (Result TransactionRecord)
  execute_loaded txn id (loaded, missing_message) =
      if not (is_empty missing_message)
      then fail missing_message missing_message
      else if not (validate txn loaded)
      then (let message = text "validation failed: " ++ describe txn in fail message message)
      else execute txn id loaded

  -- The body of the try block.
  unfoldable pub attempt : Transaction → TransactionId → Action (Result TransactionRecord)
  attempt txn id = do loaded ← load (sort (involved_accounts txn)); execute_loaded txn id loaded

  -- The catch block.
  unfoldable pub report : Exception → Action (Result TransactionRecord)
  report ex = fail (message_of ex) (message_of ex)

  unfoldable pub process_impl : Transaction → TransactionId → Action (Result TransactionRecord)
  process_impl txn id =
      if is_empty (involved_accounts txn)
      then fail (text "transaction names no accounts")
          (text "validation failed: no accounts involved")
      else try_catch (attempt txn id) report

  unfoldable pub process_one : Transaction → Action (Result TransactionRecord)
  process_one txn = do id ← fetch_id; process_impl txn id

  abbrev pub on_queue : {A : Type 0} → (TransactionQueue → A × TransactionQueue) → Action A
  on_queue f p = let (a, q) = f p.queue in (ok a, record p { queue = q })

  abbrev pub reserve : TransactionId → Action (Unit {0})
  reserve id p = (ok tt, record p { reserved = p.reserved ++ id ∷ [] })

  -- if (!reserved_.empty() && reserved_.front() == id) reserved_.pop();
  abbrev pub take_back : TransactionId → List TransactionId → List TransactionId
  take_back id [] = []
  take_back id (x ∷ rest) = if x == id then rest else x ∷ rest

  abbrev pub take_back_id : TransactionId → Action (Unit {0})
  take_back_id id p = (ok tt, record p { reserved = take_back id p.reserved })

  -- After enqueue: the reservation is taken back if the queue was closed.
  abbrev pub settle_queued : TransactionId → Bool → Action (Result TransactionId)
  settle_queued id false = do take_back_id id; pure (failure (text "queue closed"))
  settle_queued id true = pure (success id)

  -- After the test of accepting_.
  abbrev pub submit_when : Transaction → Bool → Action (Result TransactionId)
  submit_when txn false = pure (failure (text "processor stopped"))
  submit_when txn true = do
    id ← fetch_id
    reserve id
    queued ← on_queue (enqueue txn)
    settle_queued id queued

  unfoldable pub submit : Transaction → Action (Result TransactionId)
  submit txn = do accepting ← gets (λ p. p.accepting); submit_when txn accepting

  abbrev pub pop_reserved : List TransactionId → Action TransactionId
  pop_reserved [] p = fetch_id p
  pop_reserved (id ∷ rest) p = (ok id, record p { reserved = rest })

  unfoldable pub take_reserved_id : Action TransactionId
  take_reserved_id p = pop_reserved p.reserved p

  -- After try_pop.
  abbrev pub process_popped : Option Transaction → Action (Option (Result TransactionRecord))
  process_popped none = pure none
  process_popped (some txn) = do
    id ← take_reserved_id
    result ← process_impl txn id
    pure (some result)

  unfoldable pub process_next : Action (Option (Result TransactionRecord))
  process_next = do popped ← on_queue try_pop; process_popped popped

  -- Each round pops one transaction, so the length of the queue bounds the rounds.
  unfoldable pub process_rounds : ℕ → Action (List (Result TransactionRecord))
  process_rounds zero = pure []
  process_rounds (suc rounds) = do
    result ← process_next
    elim result [ none ↦ pure [] | some r ↦ do later ← process_rounds rounds; pure (r ∷ later) ]

  unfoldable pub process_until_empty : Action (List (Result TransactionRecord))
  process_until_empty p = process_rounds (suc (size p.queue)) p
