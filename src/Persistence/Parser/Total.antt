-- ===== src/Persistence/Parser/Total.antt =====
-- src/persistence/Json.cpp: values, arrays and objects are read within the fuel that parse gives.
use bank_managment_system.Prelude.{
  ℕ, zero, suc, ◌+◌, ◌*◌, ◌<◌, ◌==◌, length, true, ◌||◌, ◌≡◌, ◌≢◌, if◌then◌else◌, if-both, [], ◌∷◌,
  arith,
}
use bank_managment_system.Prelude.Text.{Bytes, text}
use bank_managment_system.Persistence.Json.{Value, Items, Members, push_item, set_member}
use bank_managment_system.Persistence.Parser.Words.{
  Parsed, parsed, refused, out_of_fuel, and_then, peek, advance, skip_whitespace, parse_keyword,
  parse_integer, parse_string, is_digit,
}
use bank_managment_system.Persistence.Parser.{
  parse_value, parse_array, parse_items, parse_object, parse_members, fuel_for, run_parser, at_end,
}
use bank_managment_system.Persistence.Parser.Fuel.{
  EndsWithin, and_then-EndsWithin, EndsWithin-mono, length-skip_whitespace, length-advance,
  peek-advance, keyword_ends, integer_ends, string_ends,
}

-- Whether another element follows, the brackets close, or the text is refused.
after_element :
    (close bound : ℕ) (v : Value) (after : Bytes) (more : Parsed Value)
    → length after < bound
    → (peek b',' after ≡ true → EndsWithin bound more)
    → EndsWithin bound (
        if peek b',' after
        then more
        else if peek close after
        then parsed v (advance after)
        else refused)
after_element close bound v after more lt h =
    if-both (EndsWithin bound) (peek b',' after) more _ h (λ _.
      if-both (EndsWithin bound) (peek close after) (parsed v (advance after)) refused
        (λ _. omega (arith, length-advance after)) (λ _. tt))

string_value_ends :
    (c : ℕ) (s : Bytes)
    → EndsWithin
        (suc (length s))
        (and_then (parse_string (c ∷ s)) (λ out. parsed (Value.string out)))
string_value_ends c s =
    and_then-EndsWithin (suc (length s)) _ (parse_string (c ∷ s)) _ (string_ends (c ∷ s))
      (λ out rest lt. lt)

mutual
  unfolding parse_value

  value_ends :
      (fuel : ℕ) (s : Bytes) → 3 * length s < fuel → EndsWithin (length s) (parse_value fuel s)
  value_ends zero s h = absurd (omega arith)
  value_ends (suc fuel) [] h = tt
  value_ends (suc fuel) (c ∷ s) h =
      let bound = suc (length s) in
      if-both (EndsWithin bound) (c == b'{') (parse_object fuel (c ∷ s)) _
        (λ _. object_ends fuel c s (omega arith))
        (λ _.
          if-both (EndsWithin bound) (c == b'[') (parse_array fuel (c ∷ s)) _
            (λ _. array_ends fuel c s (omega arith))
            (λ _.
              if-both (EndsWithin bound) (c == 34) _ _ (λ _. string_value_ends c s)
                (λ _.
                  if-both (EndsWithin bound) (c == b'n')
                    (parse_keyword (text "null") Value.null (c ∷ s)) _
                    (λ _. keyword_ends Value.null c s)
                    (λ _.
                      if-both (EndsWithin bound) (is_digit c || c == b'-') (parse_integer (c ∷ s))
                        refused (λ _. integer_ends (c ∷ s)) (λ _. tt)))))

  array_ends :
      (fuel c : ℕ) (s : Bytes)
      → 3 * length s + 2 < fuel
      → EndsWithin (suc (length s)) (parse_array fuel (c ∷ s))
  array_ends zero c s h = absurd (omega arith)
  array_ends (suc fuel) c s h =
      let inside = skip_whitespace s in
      let shorter = length-skip_whitespace s in
      if-both (EndsWithin (suc (length s))) (peek b']' inside)
        (parsed (Value.array Items.nil) (advance inside)) (parse_items fuel Items.nil inside)
        (λ _. omega (arith, length-advance inside))
        (λ _.
          EndsWithin-mono (length inside) _ (parse_items fuel Items.nil inside) (omega arith)
            (items_end fuel Items.nil inside (omega arith)))

  items_end :
      (fuel : ℕ) (out : Items) (s : Bytes)
      → 3 * length s + 1 < fuel
      → EndsWithin (length s) (parse_items fuel out s)
  items_end zero out s h = absurd (omega arith)
  items_end (suc fuel) out s h =
      let start = skip_whitespace s in
      let shorter = length-skip_whitespace s in
      and_then-EndsWithin (length start) (length s) (parse_value fuel start) _
        (value_ends fuel start (omega arith))
        (λ v rest lt.
          let after = skip_whitespace rest in
          let shorter' = length-skip_whitespace rest in
          let out' = push_item v out in
          after_element b']' (length s) (Value.array out') after
            (parse_items fuel out' (advance after)) (omega arith)
            (λ comma.
              let left = peek-advance b',' after comma in
              EndsWithin-mono (length (advance after)) _ (parse_items fuel out' (advance after))
                (omega arith) (items_end fuel out' (advance after) (omega arith))))

  object_ends :
      (fuel c : ℕ) (s : Bytes)
      → 3 * length s + 2 < fuel
      → EndsWithin (suc (length s)) (parse_object fuel (c ∷ s))
  object_ends zero c s h = absurd (omega arith)
  object_ends (suc fuel) c s h =
      let inside = skip_whitespace s in
      let shorter = length-skip_whitespace s in
      if-both (EndsWithin (suc (length s))) (peek b'}' inside)
        (parsed (Value.object Members.end) (advance inside)) (parse_members fuel Members.end inside)
        (λ _. omega (arith, length-advance inside))
        (λ _.
          EndsWithin-mono (length inside) _ (parse_members fuel Members.end inside) (omega arith)
            (members_end fuel Members.end inside (omega arith)))

  members_end :
      (fuel : ℕ) (out : Members) (s : Bytes)
      → 3 * length s + 1 < fuel
      → EndsWithin (length s) (parse_members fuel out s)
  members_end zero out s h = absurd (omega arith)
  members_end (suc fuel) out s h =
      let start = skip_whitespace s in
      let shorter = length-skip_whitespace s in
      if-both (EndsWithin (length s)) (peek 34 start) _ refused
        (λ quote.
          and_then-EndsWithin (suc (length (advance start))) (length s) (parse_string start) _
            (string_ends start)
            (λ key rest lt.
              let colon = skip_whitespace rest in
              let shorter₁ = length-skip_whitespace rest in
              if-both (EndsWithin (length s)) (peek b':' colon) _ refused
                (λ found.
                  let begun = skip_whitespace (advance colon) in
                  let shorter₂ = length-skip_whitespace (advance colon) in
                  let left₀ = peek-advance 34 start quote in
                  let left₁ = peek-advance b':' colon found in
                  and_then-EndsWithin (length begun) (length s) (parse_value fuel begun) _
                    (value_ends fuel begun (omega arith))
                    (λ v rest' lt'.
                      let after = skip_whitespace rest' in
                      let shorter₃ = length-skip_whitespace rest' in
                      let out' = set_member key v out in
                      after_element b'}' (length s) (Value.object out') after
                        (parse_members fuel out' (advance after)) (omega arith)
                        (λ comma.
                          let left = peek-advance b',' after comma in
                          EndsWithin-mono (length (advance after)) _
                            (parse_members fuel out' (advance after)) (omega arith)
                            (members_end fuel out' (advance after) (omega arith)))))
                (λ _. tt)))
        (λ _. tt)

at_end-ne-out_of_fuel : (v : Value) (rest : Bytes) → at_end v rest ≢ out_of_fuel
at_end-ne-out_of_fuel v [] = λ h. cc
at_end-ne-out_of_fuel v (c ∷ rest) = λ h. cc

ends_at_end :
    (bound : ℕ) (r : Parsed Value)
    → EndsWithin bound r
    → and_then r (λ v rest. at_end v (skip_whitespace rest)) ≢ out_of_fuel
ends_at_end bound (parsed v rest) h = at_end-ne-out_of_fuel v (skip_whitespace rest)
ends_at_end bound refused h = λ e. cc
ends_at_end bound out_of_fuel h = absurd h

-- The parser ends on every text: the fuel that it is given is never used up.
pub run_parser_ends : (s : Bytes) → run_parser s ≢ out_of_fuel
unfolding run_parser
run_parser_ends s =
    let start = skip_whitespace s in
    ends_at_end (length start) (parse_value (fuel_for start) start)
      (value_ends (fuel_for start) start (omega arith))
