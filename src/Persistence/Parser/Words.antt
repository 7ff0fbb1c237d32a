-- ===== src/Persistence/Parser/Words.antt =====
-- src/persistence/Json.cpp: the parser's character tests, keywords, integers and strings.
use bank_managment_system.Prelude.{
  ℕ, zero, suc, ◌+◌, ◌-◌, ◌*◌, ◌/◌, ◌%◌, ◌^◌, ◌==◌, ltb, leb, length, take, drop, Bool, true, false,
  ◌&&◌, ◌||◌, not, if◌then◌else◌, Option, none, some, [], ◌∷◌, ◌++◌,
}
use bank_managment_system.Prelude.Int.{ℤ, pos, negsuc}
use bank_managment_system.Prelude.Text.{Bytes, text_eq}
use bank_managment_system.Persistence.Json.{Value}

-- The rest of the text, once a value is read.
pub data Parsed {ℓ} (A : Type ℓ) : Type ℓ where
  parsed : A → Bytes → Parsed A
  refused : Parsed A
  out_of_fuel : Parsed A

abbrev pub and_then {ℓ κ} : {A : Type ℓ} {B : Type κ} → Parsed A → (A → Bytes → Parsed B) → Parsed B
and_then (parsed a rest) f = f a rest
and_then refused f = refused
and_then out_of_fuel f = out_of_fuel

-- A code point as UTF-8.
unfoldable pub append_utf8 : ℕ → Bytes
append_utf8 cp =
    if leb cp 0x7F
    then cp ∷ []
    else if leb cp 0x7FF
    then (0xC0 + cp / 64) ∷ (0x80 + cp % 64) ∷ []
    else if leb cp 0xFFFF
    then (0xE0 + cp / 4096) ∷ (0x80 + cp / 64 % 64) ∷ (0x80 + cp % 64) ∷ []
    else (0xF0 + cp / 262144)
      ∷ (0x80 + cp / 4096 % 64)
      ∷ (0x80 + cp / 64 % 64)
      ∷ (0x80 + cp % 64)
      ∷ []

-- `none` for the -1 of the source.
unfoldable pub hex_value : ℕ → Option ℕ
hex_value c =
    if leb b'0' c && leb c b'9'
    then some (c - b'0')
    else if leb b'a' c && leb c b'f'
    then some (c - b'a' + 10)
    else if leb b'A' c && leb c b'F'
    then some (c - b'A' + 10)
    else none

abbrev pub is_digit : ℕ → Bool
is_digit c = leb b'0' c && leb c b'9'

unfoldable pub peek : ℕ → Bytes → Bool
peek c [] = false
peek c (d ∷ _) = d == c

abbrev pub advance : Bytes → Bytes
advance [] = []
advance (_ ∷ s) = s

abbrev pub is_space : ℕ → Bool
is_space c = c == b' ' || c == 9 || c == 10 || c == 13

unfoldable pub skip_whitespace : Bytes → Bytes
skip_whitespace [] = []
skip_whitespace (c ∷ s) = if is_space c then skip_whitespace s else c ∷ s

unfoldable pub parse_keyword : Bytes → Value → Bytes → Parsed Value
parse_keyword keyword v s =
    if ltb (length s) (length keyword) || not (text_eq (take (length keyword) s) keyword)
    then refused
    else parsed v (drop (length keyword) s)

-- The loop of parse_integer; a value past the int64_t range is refused.
unfoldable pub read_digits : ℕ → Bytes → Parsed ℕ
read_digits value [] = parsed value []
read_digits value (c ∷ s) =
    let digit = c - b'0' in
    let next = read_digits (value * 10 + digit) s in
    if is_digit c
    then if ltb ((2 ^ 63 - 1 - digit) / 10) value then refused else next
    else parsed value (c ∷ s)

abbrev pub negate : ℕ → ℤ
negate zero = pos 0
negate (suc n) = negsuc n

abbrev pub signed : Bool → ℕ → ℤ
signed true n = negate n
signed false n = pos n

abbrev pub first_is_digit : Bytes → Bool
first_is_digit [] = false
first_is_digit (c ∷ _) = is_digit c

unfoldable pub parse_integer : Bytes → Parsed Value
unfolding peek read_digits
parse_integer s =
    let negative = peek b'-' s in
    let digits = if negative then advance s else s in
    if first_is_digit digits
    then and_then (read_digits 0 digits) (λ n. parsed (Value.integer (signed negative n)))
    else refused

-- The loop over the hexadecimal digits after \u, with the digits left and the code point so far.
unfoldable pub hex_digits : ℕ → ℕ → Bytes → Parsed ℕ
unfolding hex_value
hex_digits zero cp s = parsed cp s
hex_digits (suc n) cp [] = refused
hex_digits (suc n) cp (c ∷ s) = elim (hex_value c) [
  | none ↦ refused
  | some h ↦ hex_digits n (cp * 16 + h) s
]

-- A round of parse_string's loop ends the string or gives some characters of it.
pub data Piece : Type 0 where
  closing : Piece
  piece : Bytes → Piece

abbrev pub code_point : ℕ → Bytes → Parsed Piece
code_point cp rest =
    if leb 0xD800 cp && leb cp 0xDFFF then refused else parsed (piece (append_utf8 cp)) rest

unfoldable pub escaped_piece : ℕ → Bytes → Parsed Piece
unfolding hex_digits append_utf8
escaped_piece e rest =
    if e == 34
    then parsed (piece (34 ∷ [])) rest
    else if e == 92
    then parsed (piece (92 ∷ [])) rest
    else if e == b'/'
    then parsed (piece (b'/' ∷ [])) rest
    else if e == b'b'
    then parsed (piece (8 ∷ [])) rest
    else if e == b'f'
    then parsed (piece (12 ∷ [])) rest
    else if e == b'n'
    then parsed (piece (10 ∷ [])) rest
    else if e == b'r'
    then parsed (piece (13 ∷ [])) rest
    else if e == b't'
    then parsed (piece (9 ∷ [])) rest
    else if e == b'u'
    then if ltb (length rest) 4 then refused else and_then (hex_digits 4 0 rest) code_point
    else refused

abbrev pub after_backslash : Bytes → Parsed Piece
after_backslash [] = refused
after_backslash (e ∷ rest) = escaped_piece e rest

unfoldable pub next_piece : Bytes → Parsed Piece
unfolding escaped_piece
next_piece [] = refused
next_piece (c ∷ s) =
    if c == 34
    then parsed closing s
    else if c == 92
    then after_backslash s
    else parsed (piece (c ∷ [])) s

-- The loop of parse_string, with the characters read so far.
unfoldable pub read_string : ℕ → Bytes → Bytes → Parsed Bytes
unfolding next_piece
read_string zero out s = out_of_fuel
read_string (suc fuel) out s =
    and_then (next_piece s)
      λ p rest. elim p [ closing ↦ parsed out rest | piece cs ↦ read_string fuel (out ++ cs) rest ]

unfoldable pub parse_string : Bytes → Parsed Bytes
unfolding read_string
parse_string s = let inside = advance s in read_string (suc (length inside)) [] inside
