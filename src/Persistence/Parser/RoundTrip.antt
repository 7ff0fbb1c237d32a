-- ===== src/Persistence/Parser/RoundTrip.antt =====
-- src/persistence/Json.cpp: what dump writes is read back.
use bank_managment_system.Prelude.{
  ℕ, zero, suc, true, false, ◌≡◌, refl, ap, ◌∙◌, sym, subst, some, [], ◌∷◌, ◌++◌, append_assoc,
  append-nil, inl, inr,
}
use bank_managment_system.Prelude.Text.{Bytes}
use bank_managment_system.Persistence.Json.{
  Value, Items, Members, append_escaped, dump, dump_items, dump_members, push_item, set_member,
}
use bank_managment_system.Persistence.Parser.Words.{parsed, and_then, peek, skip_whitespace}
use bank_managment_system.Persistence.Parser.Scan.{Gives, and_then-Gives, HasNoDigit}
use bank_managment_system.Persistence.Parser.Numbers.{parse_value-integer}
use bank_managment_system.Persistence.Parser.Readable.{
  Lacks, IsReadable, HasReadableItems, HasReadableMembers, dump-BeginsValue, skip-BeginsValue,
  peek-BeginsValue, append_items, append_members, Apart,
}
use bank_managment_system.Persistence.Parser.Total.{run_parser_ends}
use bank_managment_system.Persistence.Parser.{
  parse_value, parse_array, parse_items, parse_object, parse_members, fuel_for, run_parser, at_end,
  parse, accepted,
}
use bank_managment_system.Persistence.Parser.Elements.{
  parse_value-null, parse_value-string, items-HasNoDigit, members-HasNoDigit, entry_text,
  items_round, members_round, members_step, key_step, object_step, items_rest, members_rest,
}

mutual
  unfolding parse_value dump skip_whitespace peek append_items append_members

  value_back :
      (fuel : ℕ) (v : Value) (rest : Bytes)
      → IsReadable v
      → HasNoDigit rest
      → Gives (parse_value fuel (dump v ++ rest)) v rest
  value_back zero v rest h stop = inl refl
  value_back (suc fuel) Value.null rest h stop = inr (parse_value-null fuel rest)
  value_back (suc fuel) (Value.integer z) rest h stop = inr (parse_value-integer fuel z rest h stop)
  value_back (suc fuel) (Value.string s) rest h stop = parse_value-string fuel s rest
  value_back (suc fuel) (Value.array xs) rest h stop =
      rw (append_assoc (dump_items true xs) (b']' ∷ []) rest) (array_back fuel xs rest h)
  value_back (suc fuel) (Value.object ms) rest h stop =
      rw (append_assoc (dump_members true ms) (b'}' ∷ []) rest) (object_back fuel ms rest h)

  array_back :
      (fuel : ℕ) (xs : Items) (rest : Bytes)
      → HasReadableItems xs
      → Gives (parse_array fuel (b'[' ∷ (dump_items true xs ++ b']' ∷ rest))) (Value.array xs) rest
  array_back zero xs rest h = inl refl
  array_back (suc fuel) Items.nil rest h = inr refl
  array_back (suc fuel) (Items.item v more) rest h =
      let begins = dump-BeginsValue v h.0 in
      let tail = dump_items false more ++ b']' ∷ rest in
      rw (append_assoc (dump v) (dump_items false more) (b']' ∷ rest)) (
        rw (skip-BeginsValue (dump v) tail begins) (
          rw (peek-BeginsValue (dump v) tail begins)
            (items_back fuel Items.nil v more rest h.0 h.1)))

  items_back :
      (fuel : ℕ) (out : Items) (v : Value) (more : Items) (rest : Bytes)
      → IsReadable v
      → HasReadableItems more
      → Gives
          (parse_items fuel out (dump v ++ (dump_items false more ++ b']' ∷ rest)))
          (Value.array (append_items out (Items.item v more)))
          rest
  items_back zero out v more rest hv h = inl refl
  items_back (suc fuel) out v more rest hv h =
      let begins = dump-BeginsValue v hv in
      let tail = dump_items false more ++ b']' ∷ rest in
      rw (skip-BeginsValue (dump v) tail begins) (
        and_then-Gives (parse_value fuel (dump v ++ tail)) (items_round fuel out) v _ tail rest
          (value_back fuel v tail hv (items-HasNoDigit more rest))
          (items_rest fuel out v more rest h
            (λ w more' hw h'. items_back fuel (push_item v out) w more' rest hw h')))

  object_back :
      (fuel : ℕ) (ms : Members) (rest : Bytes)
      → HasReadableMembers ms
      → Gives
          (parse_object fuel (b'{' ∷ (dump_members true ms ++ b'}' ∷ rest)))
          (Value.object ms)
          rest
  object_back zero ms rest h = inl refl
  object_back (suc fuel) Members.end rest h = inr refl
  object_back (suc fuel) (Members.member k v more) rest h =
      subst
        (λ t.
          Gives (parse_object (suc fuel) (b'{' ∷ t)) (Value.object (Members.member k v more)) rest)
        (sym (entry_text k v more rest))
        (object_step fuel k (Value.object (Members.member k v more))
          (b':' ∷ (dump v ++ (dump_members false more ++ b'}' ∷ rest))) rest
          (members_back fuel Members.end k v more rest h.0 h.1 h.2 tt))

  members_back :
      (fuel : ℕ) (out : Members) (k : Bytes) (v : Value) (more : Members) (rest : Bytes)
      → IsReadable v
      → Lacks k more
      → HasReadableMembers more
      → Apart out (Members.member k v more)
      → Gives
          (parse_members fuel out
            (append_escaped k ++ (b':' ∷ (dump v ++ (dump_members false more ++ b'}' ∷ rest)))))
          (Value.object (append_members out (Members.member k v more)))
          rest
  members_back zero out k v more rest hv new h apart = inl refl
  members_back (suc fuel) out k v more rest hv new h apart =
      let begins = dump-BeginsValue v hv in
      let tail = dump_members false more ++ b'}' ∷ rest in
      let whole = Value.object (append_members out (Members.member k v more)) in
      members_step fuel out k whole (b':' ∷ (dump v ++ tail)) rest (
        key_step fuel out k v whole tail rest begins (
          and_then-Gives (parse_value fuel (dump v ++ tail)) (members_round fuel out k) v whole tail
            rest (value_back fuel v tail hv (members-HasNoDigit more rest))
            (members_rest fuel out k v more rest new h apart (λ j w more' hw new' h' apart'.
              members_back fuel (set_member k v out) j w more' rest hw new' h' apart'))))

run_back :
    (v : Value) (rest : Bytes)
    → IsReadable v
    → HasNoDigit rest
    → skip_whitespace rest ≡ []
    → Gives (run_parser (dump v ++ rest)) v []
unfolding run_parser
run_back v rest h stop blank =
    let s = dump v ++ rest in
    subst
      (λ t.
        Gives (and_then (parse_value (fuel_for t) t) (λ w r. at_end w (skip_whitespace r))) v [])
      (sym (skip-BeginsValue (dump v) rest (dump-BeginsValue v h)))
      (and_then-Gives (parse_value (fuel_for s) s) (λ w r. at_end w (skip_whitespace r)) v v rest []
        (value_back (fuel_for s) v rest h stop) (inr (ap (at_end v) blank)))

within_fuel : (v : Value) (s : Bytes) → Gives (run_parser s) v [] → run_parser s ≡ parsed v []
within_fuel v s (inl spent) = absurd (run_parser_ends s spent)
within_fuel v s (inr e) = e

-- A value is read back from its dump, with white space behind it.
pub parse-dump_spaced :
    (v : Value) (rest : Bytes)
    → IsReadable v
    → HasNoDigit rest
    → skip_whitespace rest ≡ []
    → parse (dump v ++ rest) ≡ some v
unfolding parse
parse-dump_spaced v rest h stop blank =
    ap accepted (within_fuel v (dump v ++ rest) (run_back v rest h stop blank))

-- A value is read back from its dump, if its integers lie above the least int64_t and no object in
-- it has a key twice.
pub parse-dump : (v : Value) → IsReadable v → parse (dump v) ≡ some v
unfolding skip_whitespace
parse-dump v h = ap parse (sym (append-nil (dump v))) ∙ parse-dump_spaced v [] h refl refl
