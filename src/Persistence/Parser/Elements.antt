-- ===== src/Persistence/Parser/Elements.antt =====
-- src/persistence/Json.cpp: the parser around the values of an array and of an object.
use bank_managment_system.Prelude.{
  ℕ, suc, ltb, length, false, ◌≡◌, refl, ap, ◌∙◌, sym, subst, if◌then◌else◌, ◌∷◌, ◌++◌,
  append_assoc, inr, arith,
}
use bank_managment_system.Prelude.Text.{Bytes, text, text_eq}
use bank_managment_system.Persistence.Json.{
  Value, Items, Members, append_escaped, dump, dump_items, dump_members, push_item, set_member,
}
use bank_managment_system.Persistence.Parser.Words.{
  Parsed, parsed, refused, and_then, peek, advance, skip_whitespace, parse_string,
}
use bank_managment_system.Persistence.Parser.Scan.{
  Gives, and_then-Gives, parse_string-append_escaped, append_escaped-quote, HasNoDigit,
}
use bank_managment_system.Persistence.Parser.Readable.{
  Lacks, IsReadable, HasReadableItems, HasReadableMembers, BeginsValue, skip-BeginsValue,
  append_items, append_items-nil, append_items-push, append_members, append_members-end,
  append_members-set, Apart, Apart-set,
}
use bank_managment_system.Persistence.Parser.{parse_value, parse_items, parse_object, parse_members}

pub parse_value-null :
    (fuel : ℕ) (rest : Bytes)
    → parse_value (suc fuel) (text "null" ++ rest) ≡ parsed Value.null rest
unfolding parse_value text text_eq
parse_value-null fuel rest =
    let long : ltb (suc (suc (suc (suc (length rest))))) 4 ≡ false = ground arith in rw long refl

pub parse_value-string :
    (fuel : ℕ) (s rest : Bytes)
    → Gives (parse_value (suc fuel) (append_escaped s ++ rest)) (Value.string s) rest
unfolding parse_value
parse_value-string fuel s rest =
    let (t, e) = append_escaped-quote s in
    let read = parse_string-append_escaped s rest in
    subst (λ q. Gives (parse_value (suc fuel) (q ++ rest)) (Value.string s) rest) (sym e)
      (and_then-Gives (parse_string (34 ∷ (t ++ rest))) (λ out. parsed (Value.string out)) s
        (Value.string s) rest rest (subst (λ q. Gives (parse_string (q ++ rest)) s rest) e read)
        (inr refl))

-- What comes after an element is no digit.
pub items-HasNoDigit :
    (more : Items) (rest : Bytes) → HasNoDigit (dump_items false more ++ b']' ∷ rest)
unfolding dump
items-HasNoDigit Items.nil rest = refl
items-HasNoDigit (Items.item v more) rest = refl

pub members-HasNoDigit :
    (more : Members) (rest : Bytes) → HasNoDigit (dump_members false more ++ b'}' ∷ rest)
unfolding dump
members-HasNoDigit Members.end rest = refl
members-HasNoDigit (Members.member k v more) rest = refl

pub entry_text :
    (k : Bytes) (v : Value) (more : Members) (rest : Bytes)
    → (append_escaped k ++ (b':' ∷ (dump v ++ dump_members false more))) ++ b'}' ∷ rest
      ≡ append_escaped k ++ (b':' ∷ (dump v ++ (dump_members false more ++ b'}' ∷ rest)))
entry_text k v more rest =
    append_assoc (append_escaped k) (b':' ∷ (dump v ++ dump_members false more)) (b'}' ∷ rest)
    ∙ ap (λ t. append_escaped k ++ b':' ∷ t)
        (append_assoc (dump v) (dump_members false more) (b'}' ∷ rest))

-- The rounds of the two loops, once an element is read.
abbrev pub items_round : ℕ → Items → Value → Bytes → Parsed Value
items_round fuel out v rest =
    let after = skip_whitespace rest in
    let more = parse_items fuel (push_item v out) (advance after) in
    if peek b',' after
    then more
    else if peek b']' after
    then parsed (Value.array (push_item v out)) (advance after)
    else refused

abbrev pub members_round : ℕ → Members → Bytes → Value → Bytes → Parsed Value
members_round fuel out key v rest =
    let after = skip_whitespace rest in
    let more = parse_members fuel (set_member key v out) (advance after) in
    if peek b',' after
    then more
    else if peek b'}' after
    then parsed (Value.object (set_member key v out)) (advance after)
    else refused

abbrev key_round : ℕ → Members → Bytes → Bytes → Parsed Value
key_round fuel out key rest =
    let colon = skip_whitespace rest in
    let child =
      and_then (parse_value fuel (skip_whitespace (advance colon))) (members_round fuel out key) in
    if peek b':' colon then child else refused

-- The next round reads a key, and then its value.
pub members_step :
    (fuel : ℕ) (out : Members) (k : Bytes) (b : Value) (t rest : Bytes)
    → Gives (key_round fuel out k t) b rest
    → Gives (parse_members (suc fuel) out (append_escaped k ++ t)) b rest
unfolding parse_value
members_step fuel out k b t rest h =
    let (q, e) = append_escaped-quote k in
    let read = parse_string-append_escaped k t in
    subst (λ p. Gives (parse_members (suc fuel) out (p ++ t)) b rest) (sym e)
      (and_then-Gives (parse_string (34 ∷ (q ++ t))) (key_round fuel out) k b t rest
        (subst (λ p. Gives (parse_string (p ++ t)) k t) e read) h)

pub key_step :
    (fuel : ℕ) (out : Members) (k : Bytes) (v b : Value) (tail rest : Bytes)
    → BeginsValue (dump v)
    → Gives (and_then (parse_value fuel (dump v ++ tail)) (members_round fuel out k)) b rest
    → Gives (key_round fuel out k (b':' ∷ (dump v ++ tail))) b rest
unfolding peek skip_whitespace
key_step fuel out k v b tail rest begins h =
    subst (λ s. Gives (and_then (parse_value fuel s) (members_round fuel out k)) b rest)
      (sym (skip-BeginsValue (dump v) tail begins)) h

pub object_step :
    (fuel : ℕ) (k : Bytes) (b : Value) (t rest : Bytes)
    → Gives (parse_members fuel Members.end (append_escaped k ++ t)) b rest
    → Gives (parse_object (suc fuel) (b'{' ∷ (append_escaped k ++ t))) b rest
unfolding parse_value
object_step fuel k b t rest h =
    let (q, e) = append_escaped-quote k in
    subst (λ p. Gives (parse_object (suc fuel) (b'{' ∷ (p ++ t))) b rest) (sym e)
      (subst (λ p. Gives (parse_members fuel Members.end (p ++ t)) b rest) e h)

pub items_rest :
    (fuel : ℕ) (out : Items) (v : Value) (more : Items) (rest : Bytes)
    → HasReadableItems more
    → ((w : Value) (more' : Items)
        → IsReadable w
        → HasReadableItems more'
        → Gives
            (parse_items fuel (push_item v out) (dump w ++ (dump_items false more' ++ b']' ∷ rest)))
            (Value.array (append_items (push_item v out) (Items.item w more')))
            rest)
    → Gives
        (items_round fuel out v (dump_items false more ++ b']' ∷ rest))
        (Value.array (append_items out (Items.item v more)))
        rest
unfolding dump skip_whitespace peek
items_rest fuel out v Items.nil rest h next =
    rw (← append_items-push v out Items.nil, append_items-nil (push_item v out)) (inr refl)
items_rest fuel out v (Items.item w more) rest h next =
    rw
      (
        append_assoc (dump w) (dump_items false more) (b']' ∷ rest),
        ← append_items-push v out (Items.item w more),
      )
      (next w more h.0 h.1)

pub members_rest :
    (fuel : ℕ) (out : Members) (k : Bytes) (v : Value) (more : Members) (rest : Bytes)
    → Lacks k more
    → HasReadableMembers more
    → Apart out (Members.member k v more)
    → ((j : Bytes) (w : Value) (more' : Members)
        → IsReadable w
        → Lacks j more'
        → HasReadableMembers more'
        → Apart (set_member k v out) (Members.member j w more')
        → Gives
            (parse_members fuel
              (set_member k v out)
              (append_escaped j ++ (b':' ∷ (dump w ++ (dump_members false more' ++ b'}' ∷ rest)))))
            (Value.object (append_members (set_member k v out) (Members.member j w more')))
            rest)
    → Gives
        (members_round fuel out k v (dump_members false more ++ b'}' ∷ rest))
        (Value.object (append_members out (Members.member k v more)))
        rest
unfolding dump skip_whitespace peek
members_rest fuel out k v Members.end rest new h apart next =
    rw (← append_members-set k v out Members.end apart, append_members-end (set_member k v out))
      (inr refl)
members_rest fuel out k v (Members.member j w more) rest new h apart next =
    rw (entry_text j w more rest, ← append_members-set k v out (Members.member j w more) apart)
      (next j w more h.0 h.1 h.2 (Apart-set k v out (Members.member j w more) new apart))
