-- ===== src/Persistence/Wal/Frame.antt =====
-- src/persistence/WalLogger.cpp: the fixed-width header of a journal line.
use bank_managment_system.Prelude.{
  ℕ, zero, suc, ◌+◌, ◌-◌, ◌*◌, ◌/◌, ◌%◌, ◌^◌, ◌==◌, ltb, leb, ◌&&◌, ◌||◌, if◌then◌else◌, Option,
  none, some, [], ◌∷◌, ◌++◌,
}
use bank_managment_system.Prelude.Text.{Bytes}
use bank_managment_system.Domain.Types.{TransactionId, TransactionState}

abbrev pub id_field_width : ℕ
id_field_width = 16

abbrev pub state_field_pos : ℕ
state_field_pos = 16

abbrev pub header_size : ℕ
header_size = 17

-- static_cast<int>(state)
abbrev pub state_index : TransactionState → ℕ
state_index TransactionState.pending = 0
state_index TransactionState.validated = 1
state_index TransactionState.wal_written = 2
state_index TransactionState.applied = 3
state_index TransactionState.committed = 4
state_index TransactionState.failed = 5
state_index TransactionState.rolled_back = 6

-- static_cast<TransactionState>(value), for a value up to that of RolledBack.
abbrev pub state_at : ℕ → TransactionState
state_at v =
    if v == 0
    then TransactionState.pending
    else if v == 1
    then TransactionState.validated
    else if v == 2
    then TransactionState.wal_written
    else if v == 3
    then TransactionState.applied
    else if v == 4
    then TransactionState.committed
    else if v == 5
    then TransactionState.failed
    else TransactionState.rolled_back

unfoldable pub state_byte : TransactionState → ℕ
state_byte s = b'0' + state_index s

-- A char above 0x7f is negative, and its value minus '0' too: it is refused like one above '6'.
unfoldable pub state_from_byte : ℕ → Option TransactionState
state_from_byte c = if ltb c b'0' || ltb 6 (c - b'0') then none else some (state_at (c - b'0'))

-- "%016llx"
abbrev pub hex_digit : ℕ → ℕ
hex_digit d = if ltb d 10 then b'0' + d else b'a' + d - 10

unfoldable pub hex_field : ℕ → ℕ → Bytes
hex_field zero n = []
hex_field (suc width) n = hex_field width (n / 16) ++ hex_digit (n % 16) ∷ []

unfoldable pub id_to_field : TransactionId → Bytes
unfolding hex_field
id_to_field id = hex_field id_field_width id

-- The lambda nibble; `none` is -1.
unfoldable pub nibble : ℕ → Option ℕ
nibble c =
    if leb b'0' c && leb c b'9'
    then some (c - b'0')
    else if leb b'a' c && leb c b'f'
    then some (c - b'a' + 10)
    else none

-- The loop of id_from_field with the value so far, a uint64_t.
unfoldable pub read_hex : ℕ → Bytes → Option ℕ
unfolding nibble
read_hex value [] = some value
read_hex value (c ∷ rest) = elim (nibble c) [
  | none ↦ none
  | some d ↦ read_hex ((value * 16 + d) % 2 ^ 64) rest
]

unfoldable pub id_from_field : Bytes → Option TransactionId
unfolding read_hex
id_from_field field = read_hex 0 field
