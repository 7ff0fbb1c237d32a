-- ===== src/Persistence/Json/OneLine.antt =====
-- src/persistence/Json.cpp: line breaks in what dump writes of an object of numbers and strings.
use bank_managment_system.Prelude.{
  if-both, ℕ, zero, suc, ◌+◌, ◌/◌, ◌%◌, ◌==◌, ltb, ◌≢◌, Bool, true, false, [], ◌∷◌, ◌++◌, All,
  All-append, arith,
}
use bank_managment_system.Prelude.Int.{pos, negsuc}
use bank_managment_system.Prelude.Text.{Bytes, text, to_string, decimal}
use bank_managment_system.Persistence.Json.{
  Value, Members, hex_digit, unicode_escape, escape, escape_all, append_escaped, int_to_string,
  separator, dump, dump_members, set_member,
}

abbrev pub IsOneLine : Bytes → Type 0
IsOneLine s = All (λ (c : ℕ). c ≢ 10) s

pub IsOneLine-append : (s t : Bytes) → IsOneLine s → IsOneLine t → IsOneLine (s ++ t)
IsOneLine-append s t hs ht = All-append (λ (c : ℕ). c ≢ 10) s t hs ht

decimal-IsOneLine : (fuel n : ℕ) → IsOneLine (decimal fuel n)
unfolding decimal
decimal-IsOneLine zero n = tt
decimal-IsOneLine (suc fuel) n =
    if-both IsOneLine (ltb n 10) ((b'0' + n) ∷ []) (decimal fuel (n / 10) ++ (b'0' + n % 10) ∷ [])
      (λ _. (omega arith, tt))
      (λ _.
        IsOneLine-append (decimal fuel (n / 10)) _ (decimal-IsOneLine fuel (n / 10))
          (omega arith, tt))

hex_digit-IsOneLine : (d : ℕ) → hex_digit d ≢ 10
hex_digit-IsOneLine d = λ h. ground arith

escape-IsOneLine : (c : ℕ) → IsOneLine (escape c)
unfolding escape
escape-IsOneLine c =
    if-both IsOneLine (c == 34) _ _ (λ _. (omega arith, (omega arith, tt)))
      λ _.
        if-both IsOneLine (c == 92) _ _ (λ _. (omega arith, (omega arith, tt)))
          λ _.
            if-both IsOneLine (c == 8) _ _ (λ _. (omega arith, (omega arith, tt)))
              λ _.
                if-both IsOneLine (c == 12) _ _ (λ _. (omega arith, (omega arith, tt)))
                  λ _.
                    if-both IsOneLine (c == 10) _ _ (λ _. (omega arith, (omega arith, tt)))
                      λ other.
                        if-both IsOneLine (c == 13) _ _ (λ _. (omega arith, (omega arith, tt)))
                          λ _.
                            if-both IsOneLine (c == 9) _ _ (λ _. (omega arith, (omega arith, tt)))
                              λ _.
                                if-both IsOneLine (ltb c 32) (unicode_escape c) (c ∷ [])
                                  (λ _. (
                                    omega arith,
                                    (
                                      omega arith,
                                      (
                                        hex_digit-IsOneLine (c / 4096 % 16),
                                        (
                                          hex_digit-IsOneLine (c / 256 % 16),
                                          (
                                            hex_digit-IsOneLine (c / 16 % 16),
                                            (hex_digit-IsOneLine (c % 16), tt),
                                          ),
                                        ),
                                      ),
                                    ),
                                  ))
                                  (λ _. ((λ h. ground arith), tt))

escape_all-IsOneLine : (s : Bytes) → IsOneLine (escape_all s)
unfolding escape_all
escape_all-IsOneLine [] = tt
escape_all-IsOneLine (c ∷ s) =
    IsOneLine-append (escape c) (escape_all s) (escape-IsOneLine c) (escape_all-IsOneLine s)

append_escaped-IsOneLine : (s : Bytes) → IsOneLine (append_escaped s)
unfolding append_escaped
append_escaped-IsOneLine s = (
  omega arith,
  IsOneLine-append (escape_all s) (34 ∷ []) (escape_all-IsOneLine s) (omega arith, tt),
)

-- A value that holds no other values.
abbrev pub IsFlat : Value → Type 0
IsFlat (Value.array _) = ⊥
IsFlat (Value.object _) = ⊥
IsFlat _ = Unit

abbrev pub HasFlat : Members → Type 0
HasFlat Members.end = Unit
HasFlat (Members.member k v rest) = IsFlat v × HasFlat rest

dump-flat : (v : Value) → IsFlat v → IsOneLine (dump v)
unfolding dump text int_to_string to_string
dump-flat Value.null h = (omega arith, (omega arith, (omega arith, (omega arith, tt))))
dump-flat (Value.integer (pos n)) h = decimal-IsOneLine 20 n
dump-flat (Value.integer (negsuc n)) h = (omega arith, decimal-IsOneLine 20 (suc n))
dump-flat (Value.string s) h = append_escaped-IsOneLine s
dump-flat (Value.array xs) h = absurd h
dump-flat (Value.object ms) h = absurd h

separator-IsOneLine : (first : Bool) → IsOneLine (separator first)
separator-IsOneLine true = tt
separator-IsOneLine false = (omega arith, tt)

members-IsOneLine : (first : Bool) (ms : Members) → HasFlat ms → IsOneLine (dump_members first ms)
unfolding dump
members-IsOneLine first Members.end h = tt
members-IsOneLine first (Members.member k v rest) h =
    IsOneLine-append (separator first) _ (separator-IsOneLine first) (
      IsOneLine-append (append_escaped k) _ (append_escaped-IsOneLine k) (
        omega arith,
        IsOneLine-append (dump v) _ (dump-flat v h.0) (members-IsOneLine false rest h.1),
      ))

pub object-IsOneLine : (ms : Members) → HasFlat ms → IsOneLine (dump (Value.object ms))
unfolding dump
object-IsOneLine ms h = (
  omega arith,
  IsOneLine-append (dump_members true ms) _ (members-IsOneLine true ms h) (omega arith, tt),
)

pub set_member-HasFlat :
    (k : Bytes) (v : Value) (ms : Members) → IsFlat v → HasFlat ms → HasFlat (set_member k v ms)
unfolding set_member
set_member-HasFlat k v Members.end hv h = (hv, tt)
set_member-HasFlat k v (Members.member k' v' rest) hv h =
    if-both HasFlat _ (Members.member k' v rest) (Members.member k' v' (set_member k v rest))
      (λ _. (hv, h.1)) (λ _. (h.0, set_member-HasFlat k v rest hv h.1))
