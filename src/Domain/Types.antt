-- ===== src/Domain/Types.antt =====
-- src/domain/Types.h: the enumerations, their stored text forms, and identifiers.
pub mod Names
use bank_managment_system.Prelude.{ℕ, Option, none, some, if◌then◌else◌, Bool, true, false}
use bank_managment_system.Prelude.Text.{Bytes, text, text_eq}

-- Id<Tag>: a uint64_t; the tag keeps C++ calls apart and has no run-time content.
abbrev pub CustomerId : Type 0
CustomerId = ℕ

abbrev pub AccountId : Type 0
AccountId = ℕ

abbrev pub TransactionId : Type 0
TransactionId = ℕ

pub data Role : Type 0 where
  customer teller admin : Role

pub data AccountStatus : Type 0 where
  active frozen closed : AccountStatus

pub data TransactionType : Type 0 where
  deposit withdraw transfer : TransactionType

pub data TransactionState : Type 0 where
  pending validated wal_written applied committed failed rolled_back : TransactionState

pub data SessionState : Type 0 where
  anonymous authenticated expired revoked : SessionState

-- `==` of the enumeration.
abbrev pub status_eq : AccountStatus → AccountStatus → Bool
status_eq AccountStatus.active AccountStatus.active = true
status_eq AccountStatus.frozen AccountStatus.frozen = true
status_eq AccountStatus.closed AccountStatus.closed = true
status_eq _ _ = false

unfoldable pub role_to_string : Role → Bytes
role_to_string Role.customer = text "customer"
role_to_string Role.teller = text "teller"
role_to_string Role.admin = text "admin"

unfoldable pub account_status_to_string : AccountStatus → Bytes
account_status_to_string AccountStatus.active = text "active"
account_status_to_string AccountStatus.frozen = text "frozen"
account_status_to_string AccountStatus.closed = text "closed"

unfoldable pub transaction_type_to_string : TransactionType → Bytes
transaction_type_to_string TransactionType.deposit = text "deposit"
transaction_type_to_string TransactionType.withdraw = text "withdraw"
transaction_type_to_string TransactionType.transfer = text "transfer"

unfoldable pub transaction_state_to_string : TransactionState → Bytes
transaction_state_to_string TransactionState.pending = text "pending"
transaction_state_to_string TransactionState.validated = text "validated"
transaction_state_to_string TransactionState.wal_written = text "wal_written"
transaction_state_to_string TransactionState.applied = text "applied"
transaction_state_to_string TransactionState.committed = text "committed"
transaction_state_to_string TransactionState.failed = text "failed"
transaction_state_to_string TransactionState.rolled_back = text "rolled_back"

unfoldable pub session_state_to_string : SessionState → Bytes
session_state_to_string SessionState.anonymous = text "anonymous"
session_state_to_string SessionState.authenticated = text "authenticated"
session_state_to_string SessionState.expired = text "expired"
session_state_to_string SessionState.revoked = text "revoked"

unfoldable pub role_from_string : Bytes → Option Role
role_from_string s =
    if text_eq s (text "customer")
    then some Role.customer
    else if text_eq s (text "teller")
    then some Role.teller
    else if text_eq s (text "admin")
    then some Role.admin
    else none

unfoldable pub account_status_from_string : Bytes → Option AccountStatus
account_status_from_string s =
    if text_eq s (text "active")
    then some AccountStatus.active
    else if text_eq s (text "frozen")
    then some AccountStatus.frozen
    else if text_eq s (text "closed")
    then some AccountStatus.closed
    else none

unfoldable pub transaction_type_from_string : Bytes → Option TransactionType
transaction_type_from_string s =
    if text_eq s (text "deposit")
    then some TransactionType.deposit
    else if text_eq s (text "withdraw")
    then some TransactionType.withdraw
    else if text_eq s (text "transfer")
    then some TransactionType.transfer
    else none

unfoldable pub transaction_state_from_string : Bytes → Option TransactionState
transaction_state_from_string s =
    if text_eq s (text "pending")
    then some TransactionState.pending
    else if text_eq s (text "validated")
    then some TransactionState.validated
    else if text_eq s (text "wal_written")
    then some TransactionState.wal_written
    else if text_eq s (text "applied")
    then some TransactionState.applied
    else if text_eq s (text "committed")
    then some TransactionState.committed
    else if text_eq s (text "failed")
    then some TransactionState.failed
    else if text_eq s (text "rolled_back")
    then some TransactionState.rolled_back
    else none

unfoldable pub session_state_from_string : Bytes → Option SessionState
session_state_from_string s =
    if text_eq s (text "anonymous")
    then some SessionState.anonymous
    else if text_eq s (text "authenticated")
    then some SessionState.authenticated
    else if text_eq s (text "expired")
    then some SessionState.expired
    else if text_eq s (text "revoked")
    then some SessionState.revoked
    else none
