-- ===== src/Persistence/Wal/Line.antt =====
-- src/persistence/WalLogger.cpp: the reading of a written journal line.
use bank_managment_system.Prelude.{
  ℕ, zero, suc, ◌+◌, ◌*◌, ◌/◌, ◌%◌, ◌^◌, ◌<◌, leb, ◌≡◌, ◌≢◌, true, Option-cases, inl, inr, refl, ap,
  sym, ◌∙◌, Option, some, none, List, [], ◌∷◌, ◌++◌, append_assoc, length, length-append, take,
  drop, arith,
}
use bank_managment_system.Prelude.Text.{Bytes, text}
use bank_managment_system.Domain.Types.{AccountId, TransactionId, TransactionState}
use bank_managment_system.Domain.Transaction.{TransactionRecord}
use bank_managment_system.Persistence.Json.{Value, Members, set_member}
use bank_managment_system.Persistence.Json.OneLine.{
  IsOneLine, IsOneLine-append, IsFlat, set_member-HasFlat, object-IsOneLine,
}
use bank_managment_system.Persistence.Serializer.{
  serialize, transaction_to_json, account_id_value, to_int64, to_unix_ms,
}
use bank_managment_system.Persistence.Wal.Frame
use bank_managment_system.Persistence.Wal.Frame.{
  id_field_width, hex_field, id_to_field, id_from_field, nibble, read_hex, state_byte,
  state_from_byte, state_index, state_at,
}
use bank_managment_system.Persistence.Wal.{parse_line, line_of}
use bank_managment_system.Persistence.Wal.Laws.{entry_of}

nibble-hex_digit : (d : ℕ) → d < 16 → nibble (Frame.hex_digit d) ≡ some d
unfolding nibble
nibble-hex_digit d h = ground arith

read_hex-good :
    (v c : ℕ) (s : Bytes) (n : ℕ)
    → nibble c ≡ some n
    → read_hex v (c ∷ s) ≡ read_hex ((v * 16 + n) % 2 ^ 64) s
unfolding read_hex
read_hex-good v c s n e =
    ap
      (λ (o : Option ℕ). elim o as (λ _. Option ℕ) [
        | none ↦ none
        | some d ↦ read_hex ((v * 16 + d) % 2 ^ 64) s
      ])
      e

read_hex-bad : (v c : ℕ) (s : Bytes) (u : ℕ) → nibble c ≡ none → read_hex v (c ∷ s) ≢ some u
unfolding read_hex
read_hex-bad v c s u e h = cc (e, h)

last_digit :
    (v u d : ℕ)
    → u * 16 + d < 2 ^ 64
    → read_hex v [] ≡ some u
    → read_hex ((v * 16 + d) % 2 ^ 64) [] ≡ some (u * 16 + d)
unfolding read_hex
last_digit v u d fits e = ground arith

-- One more digit at the end.
read_hex-snoc :
    (v : ℕ) (s : Bytes) (u d : ℕ)
    → d < 16
    → u * 16 + d < 2 ^ 64
    → read_hex v s ≡ some u
    → read_hex v (s ++ Frame.hex_digit d ∷ []) ≡ some (u * 16 + d)
read_hex-snoc v [] u d small fits e =
    read_hex-good v (Frame.hex_digit d) [] d (nibble-hex_digit d small) ∙ last_digit v u d fits e
read_hex-snoc v (c ∷ s) u d small fits e = elim (Option-cases (nibble c)) [
  | inl bad ↦ absurd (read_hex-bad v c s u bad e)
  | inr (n, good) ↦
      read_hex-good v c (s ++ Frame.hex_digit d ∷ []) n good
      ∙ read_hex-snoc ((v * 16 + n) % 2 ^ 64) s u d small fits
          (sym (read_hex-good v c s n good) ∙ e)
]

read_hex-none : (n : ℕ) → n < 16 ^ 0 → read_hex 0 [] ≡ some n
unfolding read_hex
read_hex-none n h = ap some (omega arith)

shorter : (width n : ℕ) → n < 16 ^ suc width → n / 16 < 16 ^ width
shorter width n h = omega arith

read_hex-field :
    (width n : ℕ) → n < 16 ^ width → n < 2 ^ 64 → read_hex 0 (hex_field width n) ≡ some n
unfolding hex_field
read_hex-field zero n h fits = read_hex-none n h
read_hex-field (suc width) n h fits =
    let e =
      read_hex-snoc 0 (hex_field width (n / 16)) (n / 16) (n % 16) (omega arith) (omega arith)
        (read_hex-field width (n / 16) (shorter width n h) (omega arith)) in
    e ∙ ap some (omega arith)

-- An id in its field is read back.
id_from-id_to : (id : TransactionId) → id < 2 ^ 64 → id_from_field (id_to_field id) ≡ some id
unfolding id_from_field id_to_field
id_from-id_to id h = read_hex-field 16 id h h

state_from-byte : (s : TransactionState) → state_from_byte (state_byte s) ≡ some s
unfolding state_from_byte state_byte
state_from-byte TransactionState.pending = refl
state_from-byte _ = refl

length-hex_field : (width n : ℕ) → length (hex_field width n) ≡ width
unfolding hex_field
length-hex_field zero n = refl
length-hex_field (suc width) n = omega (
  arith,
  length-append (hex_field width (n / 16)) (Frame.hex_digit (n % 16) ∷ []),
  length-hex_field width (n / 16),
)

pub length-id_to_field : (id : TransactionId) → length (id_to_field id) ≡ 16
unfolding id_to_field
length-id_to_field id = length-hex_field 16 id

pub take-length-append :
    {A : Type 0} (k : ℕ) (xs ys : List A) → length xs ≡ k → take k (xs ++ ys) ≡ xs
take-length-append zero [] ys h = refl
take-length-append zero (x ∷ xs) ys h = absurd (omega arith)
take-length-append (suc k) [] ys h = absurd (omega arith)
take-length-append (suc k) (x ∷ xs) ys h =
    ap (λ l. x ∷ l) (take-length-append k xs ys (omega arith))

drop-length-append : {A : Type 0} (k : ℕ) (xs ys : List A) → length xs ≡ k → drop k (xs ++ ys) ≡ ys
drop-length-append zero [] ys h = refl
drop-length-append zero (x ∷ xs) ys h = absurd (omega arith)
drop-length-append (suc k) [] ys h = absurd (omega arith)
drop-length-append (suc k) (x ∷ xs) ys h = drop-length-append k xs ys (omega arith)

account_id_value-IsFlat : (o : Option AccountId) → IsFlat (account_id_value o)
account_id_value-IsFlat none = tt
account_id_value-IsFlat (some id) = tt

-- What is written of a record has no line break.
pub serialize-IsOneLine : (r : TransactionRecord) → IsOneLine (serialize r)
unfolding serialize transaction_to_json
serialize-IsOneLine r = object-IsOneLine _ (
    set_member-HasFlat _ _ _ tt (
      set_member-HasFlat _ _ _ (account_id_value-IsFlat r.to) (
        set_member-HasFlat _ _ _ (account_id_value-IsFlat r.from) (
          set_member-HasFlat _ _ _ tt (
            set_member-HasFlat _ _ _ tt (
              set_member-HasFlat (text "ts") (Value.integer (to_unix_ms r.timestamp))
                (set_member (text "id") (Value.integer (to_int64 r.id)) Members.end) tt
                (set_member-HasFlat (text "id") (Value.integer (to_int64 r.id)) Members.end tt
                  tt)))))))

-- A line without its line break.
abbrev pub frame_of : TransactionId → TransactionState → Bytes → Bytes
frame_of id state payload = id_to_field id ++ (state_byte state ∷ payload)

abbrev pub body_of : TransactionRecord → Bytes
body_of r = frame_of r.id r.state (serialize r)

pub line_of-body : (r : TransactionRecord) → line_of r ≡ body_of r ++ 10 ∷ []
line_of-body r = sym (append_assoc (id_to_field r.id) (state_byte r.state ∷ serialize r) (10 ∷ []))

hex_field-IsOneLine : (width n : ℕ) → IsOneLine (hex_field width n)
unfolding hex_field
hex_field-IsOneLine zero n = tt
hex_field-IsOneLine (suc width) n =
    IsOneLine-append (hex_field width (n / 16)) _ (hex_field-IsOneLine width (n / 16))
      ((λ h. ground arith), tt)

state_byte-IsOneLine : (s : TransactionState) → state_byte s ≢ 10
unfolding state_byte
state_byte-IsOneLine s = λ h. omega arith

pub frame_of-IsOneLine :
    (id : TransactionId) (state : TransactionState) (payload : Bytes)
    → IsOneLine payload
    → IsOneLine (frame_of id state payload)
unfolding id_to_field
frame_of-IsOneLine id state payload h =
    IsOneLine-append (hex_field 16 id) (state_byte state ∷ payload) (hex_field-IsOneLine 16 id)
      (state_byte-IsOneLine state, h)

pub body_of-IsOneLine : (r : TransactionRecord) → IsOneLine (body_of r)
body_of-IsOneLine r = frame_of-IsOneLine r.id r.state (serialize r) (serialize-IsOneLine r)

pub parse_line-frame :
    (id : TransactionId) (state : TransactionState) (payload : Bytes) (start : ℕ)
    → id < 2 ^ 64
    → parse_line start (frame_of id state payload)
      ≡ some (record { id = id; state = state; offset = start; payload = payload })
unfolding parse_line
parse_line-frame id state payload start h =
    let field = length-id_to_field id in
    let long : leb 17 (length (frame_of id state payload)) ≡ true =
      ground (arith, field, length-append (id_to_field id) (state_byte state ∷ payload)) in
    rw
      (
        long,
        take-length-append 16 (id_to_field id) (state_byte state ∷ payload) field,
        id_from-id_to id h,
        drop-length-append 16 (id_to_field id) (state_byte state ∷ payload) field,
        state_from-byte state,
      )
      refl

pub parse_line-body :
    (r : TransactionRecord) (start : ℕ)
    → r.id < 2 ^ 64
    → parse_line start (body_of r) ≡ some (entry_of r start)
parse_line-body r start h = parse_line-frame r.id r.state (serialize r) start h
