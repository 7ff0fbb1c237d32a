-- ===== src/Persistence/Parser/Fuel.antt =====
-- src/persistence/Json.cpp: the parser ends, and what it leaves is shorter than what it was given.
use bank_managment_system.Prelude.{
  ℕ, zero, suc, ◌+◌, ◌-◌, ◌*◌, ◌/◌, ◌^◌, ◌<◌, ◌≤◌, ◌==◌, ltb, length, drop, Bool, true, ◌≡◌,
  if◌then◌else◌, if-both, none, some, [], ◌∷◌, ◌++◌, arith,
}
use bank_managment_system.Prelude.Text.{Bytes, text}
use bank_managment_system.Persistence.Json.{Value}
use bank_managment_system.Persistence.Parser.Words.{
  Parsed, parsed, refused, out_of_fuel, and_then, peek, advance, is_space, skip_whitespace,
  parse_keyword, read_digits, parse_integer, first_is_digit, signed, hex_value, hex_digits, Piece,
  closing, piece, code_point, escaped_piece, after_backslash, next_piece, read_string, parse_string,
  is_digit,
}

-- A result that is not for want of fuel, and leaves less text than the bound.
abbrev pub EndsWithin {ℓ} : {A : Type ℓ} → ℕ → Parsed A → Type 0
EndsWithin bound (parsed _ rest) = length rest < bound
EndsWithin bound refused = Unit
EndsWithin bound out_of_fuel = ⊥

pub and_then-EndsWithin {ℓ κ} :
    {A : Type ℓ} {B : Type κ} (near far : ℕ) (r : Parsed A) (f : A → Bytes → Parsed B)
    → EndsWithin near r
    → ((a : A) (rest : Bytes) → length rest < near → EndsWithin far (f a rest))
    → EndsWithin far (and_then r f)
and_then-EndsWithin near far (parsed a rest) f h g = g a rest h
and_then-EndsWithin near far refused f h g = tt
and_then-EndsWithin near far out_of_fuel f h g = absurd h

pub EndsWithin-mono {ℓ} :
    {A : Type ℓ} (near far : ℕ) (r : Parsed A) → near ≤ far → EndsWithin near r → EndsWithin far r
EndsWithin-mono near far (parsed a rest) le h = omega arith
EndsWithin-mono near far refused le h = tt
EndsWithin-mono near far out_of_fuel le h = h

pub length-skip_whitespace : (s : Bytes) → length (skip_whitespace s) ≤ length s
unfolding skip_whitespace
length-skip_whitespace [] = omega arith
length-skip_whitespace (c ∷ s) =
    if-both (λ t. length t ≤ suc (length s)) (is_space c) (skip_whitespace s) (c ∷ s)
      (λ _. omega (arith, length-skip_whitespace s)) (λ _. omega arith)

pub length-advance : (s : Bytes) → length (advance s) ≤ length s
length-advance [] = omega arith
length-advance (c ∷ s) = omega arith

pub peek-advance : (c : ℕ) (s : Bytes) → peek c s ≡ true → length (advance s) < length s
unfolding peek
peek-advance c [] h = cc
peek-advance c (d ∷ s) h = omega arith

length-drop : (n : ℕ) (s : Bytes) → length (drop n s) ≤ length s
length-drop zero s = omega arith
length-drop (suc n) [] = omega arith
length-drop (suc n) (c ∷ s) = omega (arith, length-drop n s)

length-drop-suc : (n c : ℕ) (s : Bytes) → length (drop (suc n) (c ∷ s)) < suc (length s)
length-drop-suc n c s = omega (arith, length-drop n s)

pub keyword_ends :
    (v : Value) (c : ℕ) (s : Bytes)
    → EndsWithin (suc (length s)) (parse_keyword (text "null") v (c ∷ s))
unfolding parse_keyword text
keyword_ends v c s =
    if-both (EndsWithin (suc (length s))) _ refused (parsed v (drop 3 s)) (λ _. tt)
      (λ _. length-drop-suc 3 c s)

digits_end : (value : ℕ) (s : Bytes) → EndsWithin (suc (length s)) (read_digits value s)
unfolding read_digits
digits_end value [] = omega arith
digits_end value (c ∷ s) =
    let digit = c - b'0' in
    if-both (EndsWithin (suc (suc (length s)))) (is_digit c)
      (if ltb ((2 ^ 63 - 1 - digit) / 10) value
        then refused
        else read_digits (value * 10 + digit) s)
      (parsed value (c ∷ s))
      (λ _.
        if-both (EndsWithin (suc (suc (length s)))) (ltb ((2 ^ 63 - 1 - digit) / 10) value) refused
          (read_digits (value * 10 + digit) s) (λ _. tt)
          (λ _.
            EndsWithin-mono (suc (length s)) _ (read_digits (value * 10 + digit) s) (omega arith)
              (digits_end (value * 10 + digit) s)))
      (λ _. omega arith)

-- A first digit is read.
digits_begin : (s : Bytes) → first_is_digit s ≡ true → EndsWithin (length s) (read_digits 0 s)
unfolding read_digits
digits_begin [] h = cc
digits_begin (c ∷ s) h =
    let digit = c - b'0' in
    rw h (
      if-both (EndsWithin (suc (length s))) (ltb ((2 ^ 63 - 1 - digit) / 10) 0) refused
        (read_digits (0 * 10 + digit) s) (λ _. tt) (λ _. digits_end (0 * 10 + digit) s))

number_ends :
    (negative : Bool) (s : Bytes) (bound : ℕ)
    → length s ≤ bound
    → EndsWithin bound (
        if first_is_digit s
        then and_then (read_digits 0 s) (λ n. parsed (Value.integer (signed negative n)))
        else refused)
number_ends negative s bound le =
    if-both (EndsWithin bound) (first_is_digit s)
      (and_then (read_digits 0 s) (λ n. parsed (Value.integer (signed negative n)))) refused
      (λ h.
        and_then-EndsWithin (length s) bound (read_digits 0 s) _ (digits_begin s h)
          (λ n rest lt. omega arith))
      (λ _. tt)

pub integer_ends : (s : Bytes) → EndsWithin (length s) (parse_integer s)
unfolding parse_integer
integer_ends s = number_ends (peek b'-' s) (if peek b'-' s then advance s else s) (length s) (
    if-both (λ t. length t ≤ length s) (peek b'-' s) (advance s) s (λ _. length-advance s)
      (λ _. omega arith))

hex_end : (n cp : ℕ) (s : Bytes) → EndsWithin (suc (length s)) (hex_digits n cp s)
unfolding hex_digits
hex_end zero cp s = omega arith
hex_end (suc n) cp [] = tt
hex_end (suc n) cp (c ∷ s) =
    elim (hex_value c)
      as (λ h.
        EndsWithin (suc (suc (length s)))
          (elim h as (λ _. Parsed ℕ) [ none ↦ refused | some d ↦ hex_digits n (cp * 16 + d) s ])) [
            | none ↦ tt
            | some d ↦
                EndsWithin-mono (suc (length s)) _ (hex_digits n (cp * 16 + d) s) (omega arith)
                  (hex_end n (cp * 16 + d) s)
          ]

code_point_ends : (cp : ℕ) (rest : Bytes) → EndsWithin (suc (length rest)) (code_point cp rest)
code_point_ends cp rest =
    if-both (EndsWithin (suc (length rest))) _ refused (parsed _ rest) (λ _. tt) (λ _. omega arith)

u_ends :
    (rest : Bytes)
    → EndsWithin
        (suc (length rest))
        (if ltb (length rest) 4 then refused else and_then (hex_digits 4 0 rest) code_point)
u_ends rest =
    if-both (EndsWithin (suc (length rest))) (ltb (length rest) 4) refused _ (λ _. tt)
      (λ _.
        and_then-EndsWithin (suc (length rest)) _ (hex_digits 4 0 rest) code_point
          (hex_end 4 0 rest)
          (λ cp rest' lt.
            EndsWithin-mono (suc (length rest')) _ (code_point cp rest') (omega arith)
              (code_point_ends cp rest')))

-- Either a short escape, or the test after it.
simple_ends :
    (e k : ℕ) (cs rest : Bytes) (other : Parsed Piece)
    → EndsWithin (suc (length rest)) other
    → EndsWithin (suc (length rest)) (if e == k then parsed (piece cs) rest else other)
simple_ends e k cs rest other h =
    if-both (EndsWithin (suc (length rest))) (e == k) (parsed (piece cs) rest) other
      (λ _. omega arith) (λ _. h)

escape_ends : (e : ℕ) (rest : Bytes) → EndsWithin (suc (length rest)) (escaped_piece e rest)
unfolding escaped_piece
escape_ends e rest = simple_ends e 34 _ rest _ (
    simple_ends e 92 _ rest _ (
      simple_ends e b'/' _ rest _ (
        simple_ends e b'b' _ rest _ (
          simple_ends e b'f' _ rest _ (
            simple_ends e b'n' _ rest _ (
              simple_ends e b'r' _ rest _ (
                simple_ends e b't' _ rest _ (
                  if-both (EndsWithin (suc (length rest))) (e == b'u') _ refused (λ _. u_ends rest)
                    (λ _. tt)))))))))

backslash_ends : (s : Bytes) → EndsWithin (suc (length s)) (after_backslash s)
backslash_ends [] = tt
backslash_ends (e ∷ rest) =
    EndsWithin-mono (suc (length rest)) _ (escaped_piece e rest) (omega arith) (escape_ends e rest)

piece_ends : (s : Bytes) → EndsWithin (length s) (next_piece s)
unfolding next_piece
piece_ends [] = tt
piece_ends (c ∷ s) =
    if-both (EndsWithin (suc (length s))) (c == 34) (parsed closing s) _ (λ _. omega arith)
      (λ _.
        if-both (EndsWithin (suc (length s))) (c == 92) (after_backslash s) (parsed _ s)
          (λ _. backslash_ends s) (λ _. omega arith))

string_loop_ends :
    (fuel : ℕ) (out s : Bytes) → length s < fuel → EndsWithin (length s) (read_string fuel out s)
unfolding read_string
string_loop_ends zero out s h = absurd (omega arith)
string_loop_ends (suc fuel) out s h =
    and_then-EndsWithin (length s) (length s) (next_piece s) _ (piece_ends s) λ p rest lt.
      elim p
        as (λ q. EndsWithin (length s) (elim q as (λ _. Parsed Bytes) [
          | closing ↦ parsed out rest
          | piece cs ↦ read_string fuel (out ++ cs) rest
        ])) [
          | closing ↦ lt
          | piece cs ↦
              EndsWithin-mono (length rest) (length s) (read_string fuel (out ++ cs) rest)
                (omega arith) (string_loop_ends fuel (out ++ cs) rest (omega arith))
        ]

pub string_ends : (s : Bytes) → EndsWithin (suc (length (advance s))) (parse_string s)
unfolding parse_string
string_ends s =
    let inside = advance s in
    EndsWithin-mono (length inside) _ (read_string (suc (length inside)) [] inside) (omega arith)
      (string_loop_ends (suc (length inside)) [] inside (omega arith))
