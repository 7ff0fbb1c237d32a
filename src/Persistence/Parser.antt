-- ===== src/Persistence/Parser.antt =====
-- src/persistence/Json.cpp: the recursive-descent parser. A call that may run out of fuel says so,
-- apart from a text that is refused.
pub mod Elements
pub mod Fuel
pub mod Numbers
pub mod Readable
pub mod RoundTrip
pub mod Scan
pub mod Sound
pub mod Total
pub mod Words
use bank_managment_system.Prelude.{
  ℕ, zero, suc, ◌+◌, ◌*◌, length, ◌==◌, ltb, Bool, true, false, ◌||◌, if◌then◌else◌, Option, none,
  some, [], ◌∷◌,
}
use bank_managment_system.Prelude.Text.{Bytes, text}
use bank_managment_system.Persistence.Json.{Value, Items, Members, set_member, push_item}
use bank_managment_system.Persistence.Parser.Words.{
  Parsed, parsed, refused, out_of_fuel, and_then, is_digit, peek, advance, skip_whitespace,
  parse_keyword, parse_integer, parse_string,
}

-- Each call of the parser costs one unit of fuel. The first text that a function takes is what is left of text_.
unfoldable mutual
  unfolding peek skip_whitespace parse_keyword parse_integer parse_string push_item set_member

  pub parse_value : ℕ → Bytes → Parsed Value
  parse_value zero s = out_of_fuel
  parse_value (suc fuel) [] = refused
  parse_value (suc fuel) (c ∷ s) =
      let braced = parse_object fuel (c ∷ s) in
      let bracketed = parse_array fuel (c ∷ s) in
      if c == b'{'
      then braced
      else if c == b'['
      then bracketed
      else if c == 34
      then and_then (parse_string (c ∷ s)) (λ out. parsed (Value.string out))
      else if c == b'n'
      then parse_keyword (text "null") Value.null (c ∷ s)
      else if is_digit c || c == b'-'
      then parse_integer (c ∷ s)
      else refused

  pub parse_array : ℕ → Bytes → Parsed Value
  parse_array zero s = out_of_fuel
  parse_array (suc fuel) s =
      let inside = skip_whitespace (advance s) in
      let filled = parse_items fuel Items.nil inside in
      if peek b']' inside then parsed (Value.array Items.nil) (advance inside) else filled

  -- The loop of parse_array, with the items read so far.
  pub parse_items : ℕ → Items → Bytes → Parsed Value
  parse_items zero out s = out_of_fuel
  parse_items (suc fuel) out s = and_then (parse_value fuel (skip_whitespace s)) λ v rest.
      let after = skip_whitespace rest in
      let more = parse_items fuel (push_item v out) (advance after) in
      if peek b',' after
      then more
      else if peek b']' after
      then parsed (Value.array (push_item v out)) (advance after)
      else refused

  pub parse_object : ℕ → Bytes → Parsed Value
  parse_object zero s = out_of_fuel
  parse_object (suc fuel) s =
      let inside = skip_whitespace (advance s) in
      let filled = parse_members fuel Members.end inside in
      if peek b'}' inside then parsed (Value.object Members.end) (advance inside) else filled

  -- The loop of parse_object, with the members read so far.
  pub parse_members : ℕ → Members → Bytes → Parsed Value
  parse_members zero out s = out_of_fuel
  parse_members (suc fuel) out s =
      let start = skip_whitespace s in
      let entry = and_then (parse_string start) λ key rest.
        let colon = skip_whitespace rest in
        let child = and_then (parse_value fuel (skip_whitespace (advance colon))) λ v rest'.
          let after = skip_whitespace rest' in
          let more = parse_members fuel (set_member key v out) (advance after) in
          if peek b',' after
          then more
          else if peek b'}' after
          then parsed (Value.object (set_member key v out)) (advance after)
          else refused in
        if peek b':' colon then child else refused in
      if peek 34 start then entry else refused

-- Three calls at most for each character.
abbrev pub fuel_for : Bytes → ℕ
fuel_for s = suc (3 * length s)

-- Trailing text other than whitespace is refused.
abbrev pub at_end : Value → Bytes → Parsed Value
at_end v [] = parsed v []
at_end v (_ ∷ _) = refused

unfoldable pub run_parser : Bytes → Parsed Value
unfolding parse_value
run_parser s =
    let start = skip_whitespace s in
    and_then (parse_value (fuel_for start) start) (λ v rest. at_end v (skip_whitespace rest))

abbrev pub accepted : Parsed Value → Option Value
accepted (parsed v _) = some v
accepted refused = none
accepted out_of_fuel = none

unfoldable pub parse : Bytes → Option Value
unfolding run_parser
parse s = accepted (run_parser s)
