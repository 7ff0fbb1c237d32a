-- ===== src/Persistence/Parser/Numbers.antt =====
-- src/persistence/Json.cpp: the numbers that dump writes are read back, and where a value begins.
use bank_managment_system.Prelude.{
  ℕ, suc, ◌^◌, ◌<◌, ◌==◌, Bool, true, false, ◌||◌, ◌≡◌, refl, ap, ◌∙◌, sym, subst, ◌∷◌, ◌++◌, arith,
}
use bank_managment_system.Prelude.Int.{ℤ, pos, negsuc}
use bank_managment_system.Prelude.Text.{Bytes, to_string}
use bank_managment_system.Persistence.Json.{Value, int_to_string, dump}
use bank_managment_system.Persistence.Parser.Words.{
  Parsed, parsed, and_then, is_digit, read_digits, parse_integer, signed,
}
use bank_managment_system.Persistence.Parser.Scan.{
  read_digits-decimal, BeginsWithDigit, decimal-BeginsWithDigit, HasNoDigit, read_digits-end,
}
use bank_managment_system.Persistence.Parser.{parse_value}

-- The integers that parse accepts: those of int64_t but the least.
abbrev pub IsInt : ℤ → Type 0
IsInt (pos n) = n < 2 ^ 63
IsInt (negsuc n) = suc n < 2 ^ 63

pub to_string-BeginsWithDigit : (n : ℕ) → n < 2 ^ 63 → BeginsWithDigit (to_string n)
unfolding to_string
to_string-BeginsWithDigit n h = decimal-BeginsWithDigit 19 n (omega arith)

read_digits-to_string :
    (n : ℕ) (rest : Bytes)
    → n < 2 ^ 63
    → HasNoDigit rest
    → read_digits 0 (to_string n ++ rest) ≡ parsed n rest
unfolding to_string
read_digits-to_string n rest h stop =
    read_digits-decimal 19 n rest (omega arith) h ∙ read_digits-end n rest stop

integer_after : (negative : Bool) → Parsed ℕ → Parsed Value
integer_after negative r = and_then r (λ n rest. parsed (Value.integer (signed negative n)) rest)

parse_integer-digit :
    (c : ℕ) (t : Bytes)
    → is_digit c ≡ true
    → parse_integer (c ∷ t) ≡ integer_after false (read_digits 0 (c ∷ t))
unfolding parse_integer integer_after
parse_integer-digit c t h =
    let positive : (c == b'-') ≡ false = ground arith in rw (positive, h) refl

parse_integer-minus :
    (c : ℕ) (t : Bytes)
    → is_digit c ≡ true
    → parse_integer (b'-' ∷ c ∷ t) ≡ integer_after true (read_digits 0 (c ∷ t))
unfolding parse_integer integer_after
parse_integer-minus c t h = rw h refl

parse_value-number :
    (fuel c : ℕ) (t : Bytes)
    → (is_digit c || c == b'-') ≡ true
    → parse_value (suc fuel) (c ∷ t) ≡ parse_integer (c ∷ t)
unfolding parse_value
parse_value-number fuel c t h =
    let brace : (c == b'{') ≡ false = ground arith in
    let bracket : (c == b'[') ≡ false = ground arith in
    let quote : (c == 34) ≡ false = ground arith in
    let letter : (c == b'n') ≡ false = ground arith in rw (brace, bracket, quote, letter, h) refl

pub parse_value-integer :
    (fuel : ℕ) (z : ℤ) (rest : Bytes)
    → IsInt z
    → HasNoDigit rest
    → parse_value (suc fuel) (dump (Value.integer z) ++ rest) ≡ parsed (Value.integer z) rest
unfolding dump int_to_string integer_after
parse_value-integer fuel (pos n) rest h stop =
    let (c, t, e, digit) = to_string-BeginsWithDigit n h in
    let read = read_digits-to_string n rest h stop in
    let number : (is_digit c || c == b'-') ≡ true = rw digit refl in
    subst (λ s. parse_value (suc fuel) (s ++ rest) ≡ parsed (Value.integer (pos n)) rest) (sym e)
      (parse_value-number fuel c (t ++ rest) number
        ∙ parse_integer-digit c (t ++ rest) digit
        ∙ ap (integer_after false) (subst (λ s. read_digits 0 (s ++ rest) ≡ parsed n rest) e read))
parse_value-integer fuel (negsuc n) rest h stop =
    let (c, t, e, digit) = to_string-BeginsWithDigit (suc n) h in
    let read = read_digits-to_string (suc n) rest h stop in
    subst
      (λ s. parse_value (suc fuel) (b'-' ∷ (s ++ rest)) ≡ parsed (Value.integer (negsuc n)) rest)
      (sym e)
      (parse_value-number fuel b'-' (c ∷ (t ++ rest)) refl
        ∙ parse_integer-minus c (t ++ rest) digit
        ∙ ap (integer_after true)
            (subst (λ s. read_digits 0 (s ++ rest) ≡ parsed (suc n) rest) e read))
