-- ===== src/Services/Banking.antt =====
-- src/services/BankingService.h and BankingService.cpp. The service is given the repositories of its
-- processor; op_mutex_ makes each call one step.
pub mod Freeze
use bank_managment_system.Prelude.{
  ℕ, Bool, true, false, if◌then◌else◌, Option, none, some, List, ◌++◌,
}
use bank_managment_system.Prelude.Text.{Bytes, text, to_string}
use bank_managment_system.Prelude.Exec.{Exec, Exception, ok, what, pure, try_catch, ◌>>=◌, ◌>>◌}
use bank_managment_system.Core.{Result, success, failure, VoidResult, void_success, void_failure}
use bank_managment_system.Domain.Types.{AccountId, AccountStatus, status_eq}
use bank_managment_system.Domain.Money.{Money}
use bank_managment_system.Domain.Account
use bank_managment_system.Domain.Account.{Account}
use bank_managment_system.Domain.Transaction.{Transaction, TransactionRecord}
use bank_managment_system.Concurrency.Processor.{
  Services, Processor, on_accounts, on_transactions, process_one,
}
use bank_managment_system.Services.Audit
use bank_managment_system.Services.Audit.{Trail}

-- The processor with its repositories, and the counter of the audit service.
pub record Bank (s : Services) : Type 0 where
  pub processor : Processor s
  pub next_audit_id : ℕ

module _ (s : Services) where
  abbrev pub on_processor : {A : Type 0} → Exec (Processor s) A → Exec (Bank s) A
  on_processor m b = let (r, p) = m b.processor in (r, record b { processor = p })

  -- A call of the audit service on the processor's repository and clock.
  abbrev pub on_trail : {A : Type 0} → Exec (Trail s.audit) A → Exec (Bank s) A
  on_trail m b =
      let (r, t) = m (record {
        entries = b.processor.audit;
        next_audit_id = b.next_audit_id;
        clock_calls = b.processor.clock_calls;
      }) in
      (
        r,
        record {
          processor = record b.processor { audit = t.entries; clock_calls = t.clock_calls };
          next_audit_id = t.next_audit_id;
        },
      )

  unfoldable pub deposit : AccountId → Money → Exec (Bank s) (Result TransactionRecord)
  deposit id amount = on_processor (process_one s (Transaction.deposit id amount))

  unfoldable pub withdraw : AccountId → Money → Exec (Bank s) (Result TransactionRecord)
  withdraw id amount = on_processor (process_one s (Transaction.withdraw id amount))

  unfoldable pub transfer : AccountId → AccountId → Money → Exec (Bank s) (Result TransactionRecord)
  transfer from to amount = on_processor (process_one s (Transaction.transfer from to amount))

  abbrev pub find_account : AccountId → Exec (Bank s) (Option Account)
  find_account id = on_processor (on_accounts s (s.accounts.find_by_id id))

  abbrev pub balance_of : AccountId → Option Account → Result Money
  balance_of id none = failure (text "account not found: " ++ to_string id)
  balance_of id (some a) = success a.balance

  unfoldable pub balance : AccountId → Exec (Bank s) (Result Money)
  balance id = do found ← find_account id; pure (balance_of id found)

  unfoldable pub history : AccountId → Exec (Bank s) (Result (List TransactionRecord))
  history id =
      try_catch
        (do
          records ← on_processor (on_transactions s (s.transactions.for_account id))
          pure (success records))
        (λ ex. pure (failure (text "history query failed: " ++ what ex)))

  -- The try block around save: what it reports.
  abbrev pub save_status : Bytes → Account → Exec (Bank s) (Option Bytes)
  save_status problem updated =
      try_catch (do on_processor (on_accounts s (s.accounts.save updated)); pure none)
        (λ ex. pure (some (problem ++ what ex)))

  -- What follows it.
  abbrev pub report_status : AccountId → Bytes → Option Bytes → Exec (Bank s) VoidResult
  report_status id action (some message) = pure (void_failure message)
  report_status id action none = do
    ignored ← on_trail (Audit.append s.audit s.time_at 0 action (text "account " ++ to_string id))
    pure void_success

  unfoldable pub freeze_found : AccountId → Option Account → Exec (Bank s) VoidResult
  freeze_found id none = pure (void_failure (text "account not found"))
  freeze_found id (some a) =
      if status_eq a.status AccountStatus.closed
      then pure (void_failure (text "cannot freeze closed account"))
      else if status_eq a.status AccountStatus.frozen
      then pure void_success
      else (do
        problem ← save_status (text "freeze failed: ") (Account.set_status AccountStatus.frozen a)
        report_status id (text "account.frozen") problem)

  unfoldable pub freeze : AccountId → Exec (Bank s) VoidResult
  freeze id = do found ← find_account id; freeze_found id found

  unfoldable pub unfreeze_found : AccountId → Option Account → Exec (Bank s) VoidResult
  unfreeze_found id none = pure (void_failure (text "account not found"))
  unfreeze_found id (some a) =
      if status_eq a.status AccountStatus.closed
      then pure (void_failure (text "cannot unfreeze closed account"))
      else if status_eq a.status AccountStatus.active
      then pure void_success
      else (do
        problem ← save_status (text "unfreeze failed: ") (Account.set_status AccountStatus.active a)
        report_status id (text "account.unfrozen") problem)

  unfoldable pub unfreeze : AccountId → Exec (Bank s) VoidResult
  unfreeze id = do found ← find_account id; unfreeze_found id found
