-- ===== src/Persistence/Parser/Readable.antt =====
-- src/persistence/Json.cpp: the values that the parser reads back, and how its loops collect them.
use bank_managment_system.Prelude.{ℕ, ◌==◌, false, ◌≡◌, refl, ap, sym, subst, ◌∷◌, ◌++◌, arith}
use bank_managment_system.Prelude.Int.{pos, negsuc}
use bank_managment_system.Prelude.Text.{Bytes, text, text_eq, to_string}
use bank_managment_system.Persistence.Json.{
  Value, Items, Members, int_to_string, dump, push_item, set_member,
}
use bank_managment_system.Persistence.Parser.Words.{peek, is_space, skip_whitespace}
use bank_managment_system.Persistence.Parser.Scan.{append_escaped-quote, BeginsWithDigit}
use bank_managment_system.Persistence.Parser.Numbers.{IsInt, to_string-BeginsWithDigit}

-- No member has the key.
abbrev pub Lacks : Bytes → Members → Type 0
Lacks key Members.end = Unit
Lacks key (Members.member k v rest) = (text_eq key k ≡ false) × Lacks key rest

-- The integers fit, and no object has a key twice.
abbrev mutual
  pub IsReadable : Value → Type 0
  IsReadable Value.null = Unit
  IsReadable (Value.integer z) = IsInt z
  IsReadable (Value.string s) = Unit
  IsReadable (Value.array xs) = HasReadableItems xs
  IsReadable (Value.object ms) = HasReadableMembers ms

  pub HasReadableItems : Items → Type 0
  HasReadableItems Items.nil = Unit
  HasReadableItems (Items.item v rest) = IsReadable v × HasReadableItems rest

  pub HasReadableMembers : Members → Type 0
  HasReadableMembers Members.end = Unit
  HasReadableMembers (Members.member k v rest) =
      IsReadable v × Lacks k rest × HasReadableMembers rest

-- A first character that neither is skipped nor closes an array.
abbrev pub BeginsValue : Bytes → Type 0
BeginsValue s = (c : ℕ) × (t : Bytes) × (s ≡ c ∷ t) × (is_space c ≡ false) × ((c == b']') ≡ false)

BeginsWithDigit-BeginsValue : (s : Bytes) → BeginsWithDigit s → BeginsValue s
BeginsWithDigit-BeginsValue s (c, t, e, digit) = (c, t, e, ground arith, ground arith)

pub dump-BeginsValue : (v : Value) → IsReadable v → BeginsValue (dump v)
unfolding dump text int_to_string
dump-BeginsValue Value.null h = (b'n', _, refl, refl, refl)
dump-BeginsValue (Value.integer (pos n)) h =
    BeginsWithDigit-BeginsValue (to_string n) (to_string-BeginsWithDigit n h)
dump-BeginsValue (Value.integer (negsuc n)) h = (b'-', _, refl, refl, refl)
dump-BeginsValue (Value.string s) h = let (t, e) = append_escaped-quote s in (34, t, e, refl, refl)
dump-BeginsValue (Value.array xs) h = (b'[', _, refl, refl, refl)
dump-BeginsValue (Value.object ms) h = (b'{', _, refl, refl, refl)

pub skip-BeginsValue : (s rest : Bytes) → BeginsValue s → skip_whitespace (s ++ rest) ≡ s ++ rest
unfolding skip_whitespace
skip-BeginsValue s rest (c, t, e, solid, _) =
    subst (λ s. skip_whitespace (s ++ rest) ≡ s ++ rest) (sym e) (rw solid refl)

pub peek-BeginsValue : (s rest : Bytes) → BeginsValue s → peek b']' (s ++ rest) ≡ false
unfolding peek
peek-BeginsValue s rest (c, t, e, _, other) =
    subst (λ s. peek b']' (s ++ rest) ≡ false) (sym e) other

-- The items of one list after those of another.
unfoldable pub append_items : Items → Items → Items
append_items Items.nil ys = ys
append_items (Items.item v xs) ys = Items.item v (append_items xs ys)

pub append_items-nil : (xs : Items) → append_items xs Items.nil ≡ xs
unfolding append_items
append_items-nil Items.nil = refl
append_items-nil (Items.item v xs) = ap (Items.item v) (append_items-nil xs)

pub append_items-push :
    (v : Value) (xs ys : Items)
    → append_items (push_item v xs) ys ≡ append_items xs (Items.item v ys)
unfolding append_items push_item
append_items-push v Items.nil ys = refl
append_items-push v (Items.item w xs) ys = ap (Items.item w) (append_items-push v xs ys)

-- The members of one object after those of another.
unfoldable pub append_members : Members → Members → Members
append_members Members.end ys = ys
append_members (Members.member k v xs) ys = Members.member k v (append_members xs ys)

pub append_members-end : (xs : Members) → append_members xs Members.end ≡ xs
unfolding append_members
append_members-end Members.end = refl
append_members-end (Members.member k v xs) = ap (Members.member k v) (append_members-end xs)

-- No key of the one is a key of the other.
abbrev pub Apart : Members → Members → Type 0
Apart Members.end ys = Unit
Apart (Members.member k v xs) ys = Lacks k ys × Apart xs ys

-- A new key goes to the end.
pub append_members-set :
    (k : Bytes) (v : Value) (xs ys : Members)
    → Apart xs (Members.member k v ys)
    → append_members (set_member k v xs) ys ≡ append_members xs (Members.member k v ys)
unfolding append_members set_member
append_members-set k v Members.end ys h = refl
append_members-set k v (Members.member k' w xs) ys h =
    rw (h.0.0) (ap (Members.member k' w) (append_members-set k v xs ys h.1))

pub Apart-set :
    (k : Bytes) (v : Value) (xs ys : Members)
    → Lacks k ys
    → Apart xs (Members.member k v ys)
    → Apart (set_member k v xs) ys
unfolding set_member
Apart-set k v Members.end ys new h = (new, tt)
Apart-set k v (Members.member k' w xs) ys new h = rw (h.0.0) (h.0.1, Apart-set k v xs ys new h.1)
