-- ===== src/Persistence/Parser/Sound.antt =====
-- src/persistence/Json.cpp: the values that the parser accepts.
use bank_managment_system.Prelude.{
  ℕ, zero, suc, ◌+◌, ◌-◌, ◌*◌, ◌/◌, ◌^◌, ◌<◌, ◌==◌, ltb, ◌||◌, length, Bool, true, false, ◌≡◌,
  subst, if◌then◌else◌, if-both, some, [], ◌∷◌, arith, drop,
}
use bank_managment_system.Prelude.Text.{Bytes, text, text_eq}
use bank_managment_system.Persistence.Json.{Value, Items, Members, dump, push_item, set_member}
use bank_managment_system.Persistence.Parser.Words.{
  Parsed, parsed, refused, out_of_fuel, and_then, peek, advance, is_digit, skip_whitespace,
  read_digits, signed, first_is_digit, parse_integer, parse_keyword, parse_string,
}
use bank_managment_system.Persistence.Parser.Numbers.{IsInt}
use bank_managment_system.Persistence.Parser.Readable.{
  Lacks, IsReadable, HasReadableItems, HasReadableMembers,
}
use bank_managment_system.Persistence.Parser.RoundTrip.{parse-dump}
use bank_managment_system.Persistence.Parser.{
  parse_value, parse_array, parse_items, parse_object, parse_members, fuel_for, run_parser, at_end,
  parse, accepted,
}

-- What is read has the property.
abbrev Reads {ℓ κ} : {A : Type ℓ} → (A → Type κ) → Parsed A → Type κ
Reads P (parsed a _) = P a
Reads P refused = Unit
Reads P out_of_fuel = Unit

and_then-Reads {ℓ κ μ ν} :
    {A : Type ℓ} {B : Type κ} (P : A → Type μ) (Q : B → Type ν) (r : Parsed A)
    (f : A → Bytes → Parsed B)
    → Reads P r
    → ((a : A) (rest : Bytes) → P a → Reads Q (f a rest))
    → Reads Q (and_then r f)
and_then-Reads P Q (parsed a rest) f h g = g a rest h
and_then-Reads P Q refused f h g = tt
and_then-Reads P Q out_of_fuel f h g = tt

-- Any result.
anything {ℓ} : {A : Type ℓ} (r : Parsed A) → Reads (λ _. Unit {0}) r
anything (parsed a rest) = tt
anything refused = tt
anything out_of_fuel = tt

pub push_item-HasReadable :
    (v : Value) (xs : Items)
    → IsReadable v
    → HasReadableItems xs
    → HasReadableItems (push_item v xs)
unfolding push_item
push_item-HasReadable v Items.nil hv h = (hv, tt)
push_item-HasReadable v (Items.item w xs) hv h = (h.0, push_item-HasReadable v xs hv h.1)

set_member-Lacks :
    (j k : Bytes) (v : Value) (ms : Members)
    → text_eq j k ≡ false
    → Lacks j ms
    → Lacks j (set_member k v ms)
unfolding set_member
set_member-Lacks j k v Members.end other h = (other, tt)
set_member-Lacks j k v (Members.member i w ms) other h =
    if-both (Lacks j) (text_eq i k) (Members.member i v ms) (Members.member i w (set_member k v ms))
      (λ _. h) (λ _. (h.0, set_member-Lacks j k v ms other h.1))

-- Value::set keeps the keys of an object distinct, and what it holds readable.
pub set_member-HasReadable :
    (k : Bytes) (v : Value) (ms : Members)
    → IsReadable v
    → HasReadableMembers ms
    → HasReadableMembers (set_member k v ms)
unfolding set_member
set_member-HasReadable k v Members.end hv h = (hv, tt, tt)
set_member-HasReadable k v (Members.member i w ms) hv h =
    if-both HasReadableMembers (text_eq i k) (Members.member i v ms)
      (Members.member i w (set_member k v ms)) (λ _. (hv, h.1, h.2))
      (λ other. (h.0, set_member-Lacks i k v ms other h.1, set_member-HasReadable k v ms hv h.2))

digits-Reads :
    (value : ℕ) (s : Bytes) → value < 2 ^ 63 → Reads (λ n. n < 2 ^ 63) (read_digits value s)
unfolding read_digits
digits-Reads value [] h = h
digits-Reads value (c ∷ s) h =
    let digit = c - b'0' in
    let next = read_digits (value * 10 + digit) s in
    if-both (Reads (λ n. n < 2 ^ 63)) (is_digit c)
      (if ltb ((2 ^ 63 - 1 - digit) / 10) value then refused else next) (parsed value (c ∷ s))
      (λ d.
        if-both (Reads (λ n. n < 2 ^ 63)) (ltb ((2 ^ 63 - 1 - digit) / 10) value) refused next
          (λ _. tt) (λ fits. digits-Reads (value * 10 + digit) s (ground arith)))
      (λ _. h)

signed-IsInt : (negative : Bool) (n : ℕ) → n < 2 ^ 63 → IsInt (signed negative n)
signed-IsInt false n h = h
signed-IsInt true zero h = h
signed-IsInt true (suc n) h = h

number-Reads :
    (negative : Bool) (s : Bytes)
    → Reads IsReadable (
        if first_is_digit s
        then and_then (read_digits 0 s) (λ n. parsed (Value.integer (signed negative n)))
        else refused)
number-Reads negative s =
    if-both (Reads IsReadable) (first_is_digit s)
      (and_then (read_digits 0 s) (λ n. parsed (Value.integer (signed negative n)))) refused
      (λ _.
        and_then-Reads (λ n. n < 2 ^ 63) IsReadable (read_digits 0 s) _
          (digits-Reads 0 s (omega arith)) (λ n rest h. signed-IsInt negative n h))
      (λ _. tt)

integer-Reads : (s : Bytes) → Reads IsReadable (parse_integer s)
unfolding parse_integer
integer-Reads s = number-Reads (peek b'-' s) (if peek b'-' s then advance s else s)

keyword-Reads :
    (keyword : Bytes) (v : Value) (s : Bytes)
    → IsReadable v
    → Reads IsReadable (parse_keyword keyword v s)
unfolding parse_keyword
keyword-Reads keyword v s h =
    if-both (Reads IsReadable) _ refused (parsed v (drop (length keyword) s)) (λ _. tt) (λ _. h)

string-Reads :
    (s : Bytes) → Reads IsReadable (and_then (parse_string s) (λ out. parsed (Value.string out)))
string-Reads s =
    and_then-Reads (λ _. Unit {0}) IsReadable (parse_string s) _ (anything (parse_string s))
      (λ out rest _. tt)

after-Reads :
    (close : ℕ) (v : Value) (after : Bytes) (more : Parsed Value)
    → IsReadable v
    → Reads IsReadable more
    → Reads IsReadable (
        if peek b',' after
        then more
        else if peek close after
        then parsed v (advance after)
        else refused)
after-Reads close v after more hv h =
    if-both (Reads IsReadable) (peek b',' after) more _ (λ _. h)
      (λ _.
        if-both (Reads IsReadable) (peek close after) (parsed v (advance after)) refused (λ _. hv)
          (λ _. tt))

mutual
  unfolding parse_value

  value-Reads : (fuel : ℕ) (s : Bytes) → Reads IsReadable (parse_value fuel s)
  value-Reads zero s = tt
  value-Reads (suc fuel) [] = tt
  value-Reads (suc fuel) (c ∷ s) =
      if-both (Reads IsReadable) (c == b'{') (parse_object fuel (c ∷ s)) _
        (λ _. object-Reads fuel (c ∷ s))
        (λ _.
          if-both (Reads IsReadable) (c == b'[') (parse_array fuel (c ∷ s)) _
            (λ _. array-Reads fuel (c ∷ s))
            (λ _.
              if-both (Reads IsReadable) (c == 34) _ _ (λ _. string-Reads (c ∷ s))
                (λ _.
                  if-both (Reads IsReadable) (c == b'n')
                    (parse_keyword (text "null") Value.null (c ∷ s)) _
                    (λ _. keyword-Reads (text "null") Value.null (c ∷ s) tt)
                    (λ _.
                      if-both (Reads IsReadable) (is_digit c || c == b'-') (parse_integer (c ∷ s))
                        refused (λ _. integer-Reads (c ∷ s)) (λ _. tt)))))

  array-Reads : (fuel : ℕ) (s : Bytes) → Reads IsReadable (parse_array fuel s)
  array-Reads zero s = tt
  array-Reads (suc fuel) s =
      let inside = skip_whitespace (advance s) in
      if-both (Reads IsReadable) (peek b']' inside)
        (parsed (Value.array Items.nil) (advance inside)) (parse_items fuel Items.nil inside)
        (λ _. tt) (λ _. items-Reads fuel Items.nil inside tt)

  items-Reads :
      (fuel : ℕ) (out : Items) (s : Bytes)
      → HasReadableItems out
      → Reads IsReadable (parse_items fuel out s)
  items-Reads zero out s h = tt
  items-Reads (suc fuel) out s h =
      and_then-Reads IsReadable IsReadable (parse_value fuel (skip_whitespace s)) _
        (value-Reads fuel (skip_whitespace s))
        (λ v rest hv.
          let after = skip_whitespace rest in
          let out' = push_item v out in
          let kept = push_item-HasReadable v out hv h in
          after-Reads b']' (Value.array out') after (parse_items fuel out' (advance after)) kept
            (items-Reads fuel out' (advance after) kept))

  object-Reads : (fuel : ℕ) (s : Bytes) → Reads IsReadable (parse_object fuel s)
  object-Reads zero s = tt
  object-Reads (suc fuel) s =
      let inside = skip_whitespace (advance s) in
      if-both (Reads IsReadable) (peek b'}' inside)
        (parsed (Value.object Members.end) (advance inside)) (parse_members fuel Members.end inside)
        (λ _. tt) (λ _. members-Reads fuel Members.end inside tt)

  members-Reads :
      (fuel : ℕ) (out : Members) (s : Bytes)
      → HasReadableMembers out
      → Reads IsReadable (parse_members fuel out s)
  members-Reads zero out s h = tt
  members-Reads (suc fuel) out s h =
      let start = skip_whitespace s in
      if-both (Reads IsReadable) (peek 34 start) _ refused
        (λ _.
          and_then-Reads (λ _. Unit {0}) IsReadable (parse_string start) _
            (anything (parse_string start))
            (λ key rest _.
              let colon = skip_whitespace rest in
              let begun = skip_whitespace (advance colon) in
              if-both (Reads IsReadable) (peek b':' colon) _ refused
                (λ _.
                  and_then-Reads IsReadable IsReadable (parse_value fuel begun) _
                    (value-Reads fuel begun)
                    (λ v rest' hv.
                      let after = skip_whitespace rest' in
                      let out' = set_member key v out in
                      let kept = set_member-HasReadable key v out hv h in
                      after-Reads b'}' (Value.object out') after
                        (parse_members fuel out' (advance after)) kept
                        (members-Reads fuel out' (advance after) kept)))
                (λ _. tt)))
        (λ _. tt)

at_end-Reads : (v : Value) (rest : Bytes) → IsReadable v → Reads IsReadable (at_end v rest)
at_end-Reads v [] h = h
at_end-Reads v (c ∷ rest) h = tt

run-Reads : (s : Bytes) → Reads IsReadable (run_parser s)
unfolding run_parser
run-Reads s =
    let start = skip_whitespace s in
    and_then-Reads IsReadable IsReadable (parse_value (fuel_for start) start) _
      (value-Reads (fuel_for start) start) (λ v rest h. at_end-Reads v (skip_whitespace rest) h)

accepted-Reads :
    (r : Parsed Value) (v : Value) → Reads IsReadable r → accepted r ≡ some v → IsReadable v
accepted-Reads (parsed w rest) v h e = let same : w ≡ v = cc in subst IsReadable same h
accepted-Reads refused v h e = cc
accepted-Reads out_of_fuel v h e = cc

parse-IsReadable : (s : Bytes) (v : Value) → parse s ≡ some v → IsReadable v
unfolding parse
parse-IsReadable s v e = accepted-Reads (run_parser s) v (run-Reads s) e

-- Dumping what was parsed, from any text and with any spacing, and parsing it again gives the value.
pub parse-dump-parse :
    (s : Bytes) (v : Value) → parse s ≡ some v → IsReadable v × (parse (dump v) ≡ some v)
parse-dump-parse s v e = let h = parse-IsReadable s v e in (h, parse-dump v h)
