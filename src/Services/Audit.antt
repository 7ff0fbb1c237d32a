-- ===== src/Services/Audit.antt =====
-- src/services/AuditService.h and AuditService.cpp.
pub mod Laws
use bank_managment_system.Prelude.{ℕ, ◌+◌, ◌%◌, ◌^◌, none, some, List, ◌++◌}
use bank_managment_system.Prelude.Int.{ℤ}
use bank_managment_system.Prelude.Text.{Bytes, text}
use bank_managment_system.Prelude.Exec.{Exec, ok, what, pure, try_catch, ◌>>=◌, ◌>>◌}
use bank_managment_system.Core.{Result, success, failure, VoidResult, void_success, void_failure}
use bank_managment_system.Domain.Types.{CustomerId}
use bank_managment_system.Domain.AuditEntry.{AuditEntry, AuditFilter}
use bank_managment_system.Persistence.Repository.{AuditRepository}

-- The repository behind the reference, the counter of this file, and the clock.
pub record Trail (repository : AuditRepository) : Type 0 where
  pub entries : repository.State
  pub next_audit_id : ℕ
  pub clock_calls : ℕ

-- The first id that the counter gives.
abbrev pub first_audit_id : ℕ
first_audit_id = 1_000_000_000_000_000

module _ (repository : AuditRepository) (time_at : ℕ → ℤ) where
  abbrev pub on_entries : {A : Type 0} → Exec repository.State A → Exec (Trail repository) A
  on_entries m t = let (r, entries) = m t.entries in (r, record t { entries = entries })

  abbrev pub next_entry : CustomerId → Bytes → Bytes → Exec (Trail repository) AuditEntry
  next_entry actor action details t = (
    ok (record {
      id = t.next_audit_id;
      timestamp = time_at t.clock_calls;
      actor_id = actor;
      action = action;
      details = details;
    }),
    record t { next_audit_id = (t.next_audit_id + 1) % 2 ^ 64; clock_calls = t.clock_calls + 1 },
  )

  -- audit_detail::append
  unfoldable pub append : CustomerId → Bytes → Bytes → Exec (Trail repository) VoidResult
  append actor action details =
      try_catch
        (do
          entry ← next_entry actor action details
          on_entries (repository.append entry)
          pure void_success)
        (λ ex. pure (void_failure (text "audit append failed: " ++ what ex)))

  unfoldable pub find : AuditFilter → Exec (Trail repository) (Result (List AuditEntry))
  find filter =
      try_catch (do entries ← on_entries (repository.find filter); pure (success entries))
        (λ ex. pure (failure (text "audit query failed: " ++ what ex)))

  unfoldable pub find_by_actor : CustomerId → Exec (Trail repository) (Result (List AuditEntry))
  find_by_actor actor = find (record { action = none; actor = some actor; since = none })

  unfoldable pub find_by_action : Bytes → Exec (Trail repository) (Result (List AuditEntry))
  find_by_action action = find (record { action = some action; actor = none; since = none })

  unfoldable pub find_since : ℤ → Exec (Trail repository) (Result (List AuditEntry))
  find_since since = find (record { action = none; actor = none; since = some since })
