-- ===== src/Domain/Types/Names.antt =====
-- src/domain/Types.h: the text forms of the enumerations are the schema of the database and of the
-- journal.
use bank_managment_system.Prelude.{◌≡◌, refl, Option, some, arith}
use bank_managment_system.Prelude.Text.{Bytes, text, text_eq, text_eq_sound}
use bank_managment_system.Domain.Types.{
  Role, AccountStatus, TransactionType, TransactionState, SessionState, role_to_string,
  role_from_string, account_status_to_string, account_status_from_string,
  transaction_type_to_string, transaction_type_from_string, transaction_state_to_string,
  transaction_state_from_string, session_state_to_string, session_state_from_string,
}

-- What is printed is read back.
abbrev pub ReadsBack : {A : Type 0} → (A → Bytes) → (Bytes → Option A) → Type 0
ReadsBack {A} print parse = (x : A) → parse (print x) ≡ some x

-- Nothing is read but what is printed.
abbrev pub ReadsOnly : {A : Type 0} → (A → Bytes) → (Bytes → Option A) → Type 0
ReadsOnly {A} print parse = (s : Bytes) (x : A) → parse s ≡ some x → s ≡ print x

pub role-ReadsBack : ReadsBack role_to_string role_from_string
unfolding role_to_string role_from_string text text_eq
role-ReadsBack Role.customer = refl
role-ReadsBack _ = refl

role-ReadsOnly : ReadsOnly role_to_string role_from_string
unfolding role_to_string role_from_string
role-ReadsOnly s x h = ground (
  arith,
  text_eq_sound s (text "customer"),
  text_eq_sound s (text "teller"),
  text_eq_sound s (text "admin"),
)

pub status-ReadsBack : ReadsBack account_status_to_string account_status_from_string
unfolding account_status_to_string account_status_from_string text text_eq
status-ReadsBack AccountStatus.active = refl
status-ReadsBack _ = refl

status-ReadsOnly : ReadsOnly account_status_to_string account_status_from_string
unfolding account_status_to_string account_status_from_string
status-ReadsOnly s x h = ground (
  arith,
  text_eq_sound s (text "active"),
  text_eq_sound s (text "frozen"),
  text_eq_sound s (text "closed"),
)

pub type-ReadsBack : ReadsBack transaction_type_to_string transaction_type_from_string
unfolding transaction_type_to_string transaction_type_from_string text text_eq
type-ReadsBack TransactionType.deposit = refl
type-ReadsBack _ = refl

type-ReadsOnly : ReadsOnly transaction_type_to_string transaction_type_from_string
unfolding transaction_type_to_string transaction_type_from_string
type-ReadsOnly s x h = ground (
  arith,
  text_eq_sound s (text "deposit"),
  text_eq_sound s (text "withdraw"),
  text_eq_sound s (text "transfer"),
)

pub state-ReadsBack : ReadsBack transaction_state_to_string transaction_state_from_string
unfolding transaction_state_to_string transaction_state_from_string text text_eq
state-ReadsBack TransactionState.pending = refl
state-ReadsBack _ = refl

state-ReadsOnly : ReadsOnly transaction_state_to_string transaction_state_from_string
unfolding transaction_state_to_string transaction_state_from_string
state-ReadsOnly s x h = ground (
  arith,
  text_eq_sound s (text "pending"),
  text_eq_sound s (text "validated"),
  text_eq_sound s (text "wal_written"),
  text_eq_sound s (text "applied"),
  text_eq_sound s (text "committed"),
  text_eq_sound s (text "failed"),
  text_eq_sound s (text "rolled_back"),
)

session_state-ReadsBack : ReadsBack session_state_to_string session_state_from_string
unfolding session_state_to_string session_state_from_string text text_eq
session_state-ReadsBack SessionState.anonymous = refl
session_state-ReadsBack _ = refl

session_state-ReadsOnly : ReadsOnly session_state_to_string session_state_from_string
unfolding session_state_to_string session_state_from_string
session_state-ReadsOnly s x h = ground (
  arith,
  text_eq_sound s (text "anonymous"),
  text_eq_sound s (text "authenticated"),
  text_eq_sound s (text "expired"),
  text_eq_sound s (text "revoked"),
)

-- For roles, account statuses, transaction types, transaction states and session states, the
-- reader returns a value exactly for the text that the printer gives it.
names_round_trip :
    (ReadsBack role_to_string role_from_string × ReadsOnly role_to_string role_from_string)
    × (ReadsBack account_status_to_string account_status_from_string
        × ReadsOnly account_status_to_string account_status_from_string)
    × (ReadsBack transaction_type_to_string transaction_type_from_string
        × ReadsOnly transaction_type_to_string transaction_type_from_string)
    × (ReadsBack transaction_state_to_string transaction_state_from_string
        × ReadsOnly transaction_state_to_string transaction_state_from_string)
    × (ReadsBack session_state_to_string session_state_from_string
        × ReadsOnly session_state_to_string session_state_from_string)
names_round_trip = (
  (role-ReadsBack, role-ReadsOnly),
  (status-ReadsBack, status-ReadsOnly),
  (type-ReadsBack, type-ReadsOnly),
  (state-ReadsBack, state-ReadsOnly),
  (session_state-ReadsBack, session_state-ReadsOnly),
)
