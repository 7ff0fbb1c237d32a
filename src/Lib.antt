-- ===== src/Lib.antt =====
-- A bank management system in C++20: accounts and transactions with their rules (src/domain),
-- repositories, a write-ahead journal and its text format (src/persistence), the queue and the
-- processor that carry transactions out (src/concurrency), and services on top (src/services).
--
-- A client calls TransactionProcessor::submit, which reserves an id and queues the transaction, or
-- process_one, which takes the next id and runs process_impl at once; process_next and
-- process_until_empty run process_impl on the front of the queue. process_impl loads the accounts
-- from the account repository, validates, appends the intent to the journal, applies the
-- transaction to its copies, saves them, marks the journal entry committed, and writes to the
-- transaction and the audit repository.
--
-- The files:
--   Prelude        lists, bytes, integers, an ordered map, and actions that mutate and may throw
--   Core           src/core/Result.h
--   Domain/Types, Money, Account, Transaction, AuditEntry, Session, Customer, PasswordHasher
--                  the headers of these names in src/domain
--   Domain/Operations
--                  src/domain/TransactionOps.cpp: find_account, validate, apply; on_account is a
--                  call through the reference that require_account returns
--   Persistence/Repository, InMemory
--                  the repository interfaces and their container-backed implementations
--   Persistence/Json, Parser, Serializer, Deserializer
--                  src/persistence/Json.cpp, the parser in its own file, and Serializer.cpp
--   Persistence/Wal, Wal/Frame, Wal/Load
--                  src/persistence/WalLogger.cpp: open_journal is the constructor, append,
--                  mark_committed, truncate_interrupted_tail, load_all and replay_from carry the
--                  code's names; Wal/Log holds the list of records that specifies it
--   Persistence/Snapshot
--                  src/persistence/SnapshotStore.cpp: store, load and clear
--   Persistence/Sqlite, Sqlite/Repositories
--                  src/persistence/SqliteHelpers.cpp and the four Sqlite*Repository.cpp
--   Concurrency/Queue, Processor
--                  src/concurrency/TransactionQueue.cpp and TransactionProcessor.cpp; process_impl
--                  is cut into load, execute_loaded, execute and report, its parts in order; the
--                  constructor and the consumer are in Processor/Construct
--   Concurrency/Consumers
--                  submit, consumer_loop and take_reserved_id of the processor, mutex by mutex, for
--                  several consumers; ConsumerTests has a run in which two take each other's ids
--   Concurrency/ThreadPool
--                  src/concurrency/ThreadPool.cpp: submit, the turns of a worker, and stop as
--                  begin_stop and the turns of its caller
--   Concurrency/Locks
--                  the account locks of process_impl and of ScopedAccountLocks: many workers that
--                  lock and unlock one mutex at a time, as a step relation
--   Services/Audit, Banking, Sessions, Auth
--                  src/services/AuditService.cpp, BankingService.cpp, SessionManager.cpp and
--                  AuthService.cpp; the banking service works on the repositories of its processor
-- The children of these modules hold the lemmas; the modules whose
-- names end in Tests hold runs on examples.
--
-- How state and errors are modelled. A function that mutates or throws is an action Exec S A from
-- a state to a result, which is a value or an exception, and the state afterwards: what was
-- written before a throw stays written. The processor takes its services as a parameter: the
-- repositories as records of operations, the file system of the journal as three calls that say
-- whether the stream was good, the clock as the time of each call by its number. OpenSSL and the
-- random device are functions in the same way. The theorems about the processor are about the in-
-- memory repositories and a file system that IsReliable describes: no call fails, a write lands at
-- the end, put replaces one byte, resize_file cuts the file. In the processor a mutex has no
-- state: each public call is one step, and process_impl, which holds its account locks from the
-- first load to the end, is one step too. How those locks are taken by several workers at once is
-- the subject of Concurrency/Locks.
--
-- The thread pool is a step relation on its queue, its workers and the thread that calls stop; a
-- task is a number, and whoever has the mutex takes one turn. A worker whose wait is over is taken
-- to be woken, as notify_one and notify_all see to. The SQLite library is an engine with a
-- database as its state, which prepares statements, binds values and runs a query to its end; the
-- snapshot's file system is one call for each call of the code, any of which may fail.
--
-- Numbers. An id and a version are numbers whose increment wraps at 2^64. Money is a natural
-- number of cents, since the constructor refuses negative ones; its ceiling 2^63 - 1 is tested as
-- in the code. A byte is a number below 256; the text in the code is ASCII. A time is a number of
-- nanoseconds.
--
-- Bounds. process_until_empty loops while process_next returns; each round pops one transaction,
-- so it is given the length of the queue and one more round. SessionManager::create loops until it
-- draws a token that is not in use; it is given a number of attempts, and `none` stands for a loop
-- that goes on. The JSON parser is given three calls for each character and one more, and says so,
-- apart from a refusal, if that is not enough, which never happens; the loop over a string is
-- given its length and one more, and the consumer the length of its queue and one more. All other
-- loops are by recursion on the list or the digits they run over.
--
-- Not modelled: start and stop of the processor with their thread pool, the opening of the SQLite
-- database with its schema, the interest service, which is a stub, and stream output.
pub mod Prelude
pub mod Core
pub mod Domain
pub mod Persistence
pub mod Concurrency
pub mod Services
