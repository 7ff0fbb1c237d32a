-- ===== src/Persistence/Parser/Scan.antt =====
-- src/persistence/Json.cpp: the numbers and the strings that dump writes, read back.
use bank_managment_system.Prelude.{
  ℕ, zero, suc, ◌+◌, ◌-◌, ◌*◌, ◌/◌, ◌%◌, ◌^◌, ◌<◌, ◌==◌, ltb, length, true, false, ◌≡◌, refl, ap,
  ◌∙◌, if◌then◌else◌, some, [], ◌∷◌, ◌++◌, append_assoc, arith, Bool-cases, inl, inr, ◌⊎◌, if-both,
  ==_iff, sym, append-nil, subst,
}
use bank_managment_system.Prelude.Text.{Bytes, decimal}
use bank_managment_system.Persistence.Json.{
  hex_digit, unicode_escape, escape, escape_all, append_escaped,
}
use bank_managment_system.Persistence.Parser.Words.{
  Parsed, parsed, out_of_fuel, and_then, is_digit, read_digits, first_is_digit, append_utf8,
  hex_value, hex_digits, Piece, closing, piece, code_point, next_piece, read_string, parse_string,
}

-- The result, unless the fuel runs out.
abbrev pub Gives {ℓ} : {A : Type ℓ} → Parsed A → A → Bytes → Type ℓ
Gives r a rest = (r ≡ out_of_fuel) ⊎ (r ≡ parsed a rest)

pub and_then-Gives {ℓ κ} :
    {A : Type ℓ} {B : Type κ} (r : Parsed A) (f : A → Bytes → Parsed B) (a : A) (b : B)
    (rest rest' : Bytes)
    → Gives r a rest
    → Gives (f a rest) b rest'
    → Gives (and_then r f) b rest'
and_then-Gives r f a b rest rest' (inl spent) h = inl (ap (λ r. and_then r f) spent)
and_then-Gives r f a b rest rest' (inr e) (inl spent) = inl (ap (λ r. and_then r f) e ∙ spent)
and_then-Gives r f a b rest rest' (inr e) (inr e') = inr (ap (λ r. and_then r f) e ∙ e')

digit_step :
    (v d n : ℕ) (s : Bytes)
    → d < 10
    → n < 2 ^ 63
    → v * 10 + d ≡ n
    → read_digits v ((b'0' + d) ∷ s) ≡ read_digits n s
unfolding read_digits
digit_step v d n s small fits e =
    let digit : is_digit (b'0' + d) ≡ true = ground arith in
    let back : b'0' + d - b'0' ≡ d = omega arith in
    let below : ltb ((2 ^ 63 - 1 - d) / 10) v ≡ false = ground arith in
    rw (digit, back, below, e) refl

-- The digits of a number are read to the number.
pub read_digits-decimal :
    (fuel n : ℕ) (rest : Bytes)
    → n < 10 ^ suc fuel
    → n < 2 ^ 63
    → read_digits 0 (decimal (suc fuel) n ++ rest) ≡ read_digits n rest
unfolding decimal
read_digits-decimal zero n rest h fits =
    let one : ltb n 10 ≡ true = ground arith in
    rw one (digit_step 0 n n rest (omega arith) fits (omega arith))
read_digits-decimal (suc fuel) n rest h fits = elim (Bool-cases (ltb n 10)) [
  | inl one ↦ rw one (digit_step 0 n n rest (ground arith) fits (omega arith))
  | inr more ↦
      rw (more, append_assoc (decimal (suc fuel) (n / 10)) ((b'0' + n % 10) ∷ []) rest)
        (read_digits-decimal fuel (n / 10) ((b'0' + n % 10) ∷ rest) (omega arith) (omega arith)
          ∙ digit_step (n / 10) (n % 10) n rest (omega arith) fits (omega arith))
]

-- A digit comes first.
abbrev pub BeginsWithDigit : Bytes → Type 0
BeginsWithDigit s = (c : ℕ) × (t : Bytes) × (s ≡ c ∷ t) × (is_digit c ≡ true)

pub decimal-BeginsWithDigit :
    (fuel n : ℕ) → n < 10 ^ suc fuel → BeginsWithDigit (decimal (suc fuel) n)
unfolding decimal
decimal-BeginsWithDigit zero n h =
    let one : ltb n 10 ≡ true = ground arith in (b'0' + n, [], rw one refl, ground arith)
decimal-BeginsWithDigit (suc fuel) n h = elim (Bool-cases (ltb n 10)) [
  | inl one ↦ (b'0' + n, [], rw one refl, ground arith)
  | inr more ↦
      let (c, t, e, digit) = decimal-BeginsWithDigit fuel (n / 10) (omega arith) in
      (c, t ++ (b'0' + n % 10) ∷ [], rw (more, e) refl, digit)
]

-- No digit comes first.
abbrev pub HasNoDigit : Bytes → Type 0
HasNoDigit s = first_is_digit s ≡ false

pub read_digits-end : (n : ℕ) (rest : Bytes) → HasNoDigit rest → read_digits n rest ≡ parsed n rest
unfolding read_digits
read_digits-end n [] h = refl
read_digits-end n (c ∷ s) h = rw h refl

hex_value-hex_digit : (d : ℕ) → d < 16 → hex_value (hex_digit d) ≡ some d
unfolding hex_value
hex_value-hex_digit d h = ground arith

hex_step :
    (n cp d cp' : ℕ) (s : Bytes)
    → d < 16
    → cp * 16 + d ≡ cp'
    → hex_digits (suc n) cp (hex_digit d ∷ s) ≡ hex_digits n cp' s
unfolding hex_digits
hex_step n cp d cp' s h e = rw (hex_digits, hex_value-hex_digit d h, e) refl

hex_last :
    (cp d cp' : ℕ) (s : Bytes)
    → d < 16
    → cp * 16 + d ≡ cp'
    → hex_digits 1 cp (hex_digit d ∷ s) ≡ parsed cp' s
unfolding hex_digits
hex_last cp d cp' s h e = hex_step 0 cp d cp' s h e

code_point-ascii :
    (c : ℕ) (rest : Bytes) → c < 32 → code_point c rest ≡ parsed (piece (c ∷ [])) rest
unfolding append_utf8
code_point-ascii c rest h = ground arith

four_or_more : (n : ℕ) → ltb (suc (suc (suc (suc n)))) 4 ≡ false
four_or_more n = ground arith

u_piece :
    (s rest : Bytes) (c : ℕ)
    → ltb (length s) 4 ≡ false
    → hex_digits 4 0 s ≡ parsed c rest
    → next_piece (92 ∷ b'u' ∷ s) ≡ code_point c rest
unfolding next_piece
u_piece s rest c long read = rw (long, read) refl

-- The escape of a control character.
next_piece-unicode_escape :
    (c : ℕ) (rest : Bytes)
    → c < 32
    → next_piece (unicode_escape c ++ rest) ≡ parsed (piece (c ∷ [])) rest
next_piece-unicode_escape c rest h =
    u_piece _ rest c (four_or_more (length rest)) (
      hex_step 3 0 (c / 4096 % 16) 0 _ (omega arith) (omega arith)
      ∙ hex_step 2 0 (c / 256 % 16) 0 _ (omega arith) (omega arith)
      ∙ hex_step 1 0 (c / 16 % 16) (c / 16) _ (omega arith) (omega arith)
      ∙ hex_last (c / 16) (c % 16) c rest (omega arith) (omega arith))
    ∙ code_point-ascii c rest h

plain_piece :
    (c : ℕ) (rest : Bytes)
    → (c == 34) ≡ false
    → (c == 92) ≡ false
    → next_piece (c ∷ rest) ≡ parsed (piece (c ∷ [])) rest
unfolding next_piece
plain_piece c rest q b = rw (q, b) refl

-- Either a short escape, or the text after the test.
short_escape :
    (c k e : ℕ) (other rest : Bytes)
    → next_piece (92 ∷ e ∷ rest) ≡ parsed (piece (k ∷ [])) rest
    → ((c == k) ≡ false → next_piece (other ++ rest) ≡ parsed (piece (c ∷ [])) rest)
    → next_piece ((if c == k then 92 ∷ e ∷ [] else other) ++ rest) ≡ parsed (piece (c ∷ [])) rest
short_escape c k e other rest short h =
    if-both (λ t. next_piece (t ++ rest) ≡ parsed (piece (c ∷ [])) rest) (c == k) (92 ∷ e ∷ [])
      other (λ same. rw ((==_iff c k).0 same) short) h

pub next_piece-escape :
    (c : ℕ) (rest : Bytes) → next_piece (escape c ++ rest) ≡ parsed (piece (c ∷ [])) rest
unfolding escape next_piece
next_piece-escape c rest = short_escape c 34 34 _ rest refl λ quote.
    short_escape c 92 92 _ rest refl λ slash. short_escape c 8 b'b' _ rest refl λ _.
      short_escape c 12 b'f' _ rest refl λ _. short_escape c 10 b'n' _ rest refl λ _.
        short_escape c 13 b'r' _ rest refl λ _. short_escape c 9 b't' _ rest refl λ _.
          if-both (λ t. next_piece (t ++ rest) ≡ parsed (piece (c ∷ [])) rest) (ltb c 32)
            (unicode_escape c) (c ∷ []) (λ control. next_piece-unicode_escape c rest (ground arith))
            (λ _. plain_piece c rest quote slash)

next_piece-quote : (rest : Bytes) → next_piece (34 ∷ rest) ≡ parsed closing rest
unfolding next_piece
next_piece-quote rest = refl

-- What a round does with the piece that it has read.
abbrev string_round : ℕ → Bytes → Piece → Bytes → Parsed Bytes
unfolding read_string
string_round fuel out p rest = elim p [
  | closing ↦ parsed out rest
  | piece cs ↦ read_string fuel (out ++ cs) rest
]

-- The escaped characters of a string are read to the string.
read_string-escape_all :
    (fuel : ℕ) (out s rest : Bytes)
    → Gives (read_string fuel out (escape_all s ++ 34 ∷ rest)) (out ++ s) rest
unfolding read_string escape_all
read_string-escape_all zero out s rest = inl refl
read_string-escape_all (suc fuel) out [] rest =
    and_then-Gives (next_piece (34 ∷ rest)) (string_round fuel out) closing (out ++ []) rest rest
      (inr (next_piece-quote rest)) (inr (ap (λ o. parsed o rest) (sym (append-nil out))))
read_string-escape_all (suc fuel) out (c ∷ s) rest =
    let tail = escape_all s ++ 34 ∷ rest in
    rw (append_assoc (escape c) (escape_all s) (34 ∷ rest), ← append_assoc out (c ∷ []) s)
      (and_then-Gives (next_piece (escape c ++ tail)) (string_round fuel out) (piece (c ∷ []))
        ((out ++ c ∷ []) ++ s) tail rest (inr (next_piece-escape c tail))
        (read_string-escape_all fuel (out ++ c ∷ []) s rest))

append_escaped-append :
    (s rest : Bytes) → append_escaped s ++ rest ≡ 34 ∷ (escape_all s ++ 34 ∷ rest)
unfolding append_escaped
append_escaped-append s rest = ap (λ t. 34 ∷ t) (append_assoc (escape_all s) (34 ∷ []) rest)

parse_string-quote :
    (s rest : Bytes) → Gives (parse_string (34 ∷ (escape_all s ++ 34 ∷ rest))) s rest
unfolding parse_string
parse_string-quote s rest =
    read_string-escape_all (suc (length (escape_all s ++ 34 ∷ rest))) [] s rest

-- A string is read back from what append_escaped writes of it.
pub parse_string-append_escaped :
    (s rest : Bytes) → Gives (parse_string (append_escaped s ++ rest)) s rest
parse_string-append_escaped s rest =
    subst (λ t. Gives (parse_string t) s rest) (sym (append_escaped-append s rest))
      (parse_string-quote s rest)

pub append_escaped-quote : (s : Bytes) → (t : Bytes) × (append_escaped s ≡ 34 ∷ t)
unfolding append_escaped
append_escaped-quote s = (escape_all s ++ 34 ∷ [], refl)
