-- ===== src/Persistence/Json.antt =====
-- src/persistence/Json.h and Json.cpp: the value type and its compact dump.
pub mod OneLine
use bank_managment_system.Prelude.{
  ℕ, suc, ◌+◌, ◌-◌, ◌/◌, ◌%◌, ◌==◌, ltb, Bool, true, false, if◌then◌else◌, Option, none, some, [],
  ◌∷◌, ◌++◌,
}
use bank_managment_system.Prelude.Int.{ℤ, pos, negsuc}
use bank_managment_system.Prelude.Text.{Bytes, text, text_eq, to_string}
use bank_managment_system.Prelude.Exec.{Throws, ok, throw, logic_error}

-- The class keeps a tag beside one field for each kind; only the tagged field is ever filled.
mutual
  pub data Value : Type 0 where
    null : Value
    integer : ℤ → Value
    string : Bytes → Value
    array : Items → Value
    object : Members → Value

  pub data Items : Type 0 where
    nil : Items
    item : Value → Items → Items

  pub data Members : Type 0 where
    end : Members
    member : Bytes → Value → Members → Members

unfoldable pub as_integer : Value → Option ℤ
as_integer (Value.integer z) = some z
as_integer _ = none

unfoldable pub as_string : Value → Option Bytes
as_string (Value.string s) = some s
as_string _ = none

-- The loop of Value::find over the members.
unfoldable pub find_member : Bytes → Members → Option Value
find_member key Members.end = none
find_member key (Members.member k v rest) = if text_eq k key then some v else find_member key rest

unfoldable pub find : Bytes → Value → Option Value
unfolding find_member
find key (Value.object ms) = find_member key ms
find key _ = none

-- The loop of Value::set, and the emplace_back after it.
unfoldable pub set_member : Bytes → Value → Members → Members
set_member key child Members.end = Members.member key child Members.end
set_member key child (Members.member k v rest) =
    if text_eq k key
    then Members.member k child rest
    else Members.member k v (set_member key child rest)

unfoldable pub set : Bytes → Value → Value → Throws Value
unfolding set_member
set key child (Value.object ms) = ok (Value.object (set_member key child ms))
set key child _ = throw (logic_error (text "Value::set on a non-object"))

unfoldable pub push_item : Value → Items → Items
push_item child Items.nil = Items.item child Items.nil
push_item child (Items.item v rest) = Items.item v (push_item child rest)

unfoldable pub push : Value → Value → Throws Value
unfolding push_item
push child (Value.array xs) = ok (Value.array (push_item child xs))
push child _ = throw (logic_error (text "Value::push on a non-array"))

-- "0123456789abcdef"[d]
abbrev pub hex_digit : ℕ → ℕ
hex_digit d = if ltb d 10 then b'0' + d else b'a' + d - 10

-- snprintf "\\u%04x"
abbrev pub unicode_escape : ℕ → Bytes
unicode_escape c =
    92
    ∷ b'u'
    ∷ hex_digit (c / 4096 % 16)
    ∷ hex_digit (c / 256 % 16)
    ∷ hex_digit (c / 16 % 16)
    ∷ hex_digit (c % 16)
    ∷ []

-- The text that append_escaped gives one character.
unfoldable pub escape : ℕ → Bytes
escape c =
    if c == 34
    then 92 ∷ 34 ∷ []
    else if c == 92
    then 92 ∷ 92 ∷ []
    else if c == 8
    then 92 ∷ b'b' ∷ []
    else if c == 12
    then 92 ∷ b'f' ∷ []
    else if c == 10
    then 92 ∷ b'n' ∷ []
    else if c == 13
    then 92 ∷ b'r' ∷ []
    else if c == 9
    then 92 ∷ b't' ∷ []
    else if ltb c 32
    then unicode_escape c
    else c ∷ []

unfoldable pub escape_all : Bytes → Bytes
unfolding escape
escape_all [] = []
escape_all (c ∷ s) = escape c ++ escape_all s

unfoldable pub append_escaped : Bytes → Bytes
unfolding escape_all
append_escaped s = 34 ∷ (escape_all s ++ 34 ∷ [])

-- std::to_string of an int64_t.
unfoldable pub int_to_string : ℤ → Bytes
int_to_string (pos n) = to_string n
int_to_string (negsuc n) = b'-' ∷ to_string (suc n)

-- What precedes an element: nothing before the first.
abbrev pub separator : Bool → Bytes
separator true = []
separator false = b',' ∷ []

unfoldable mutual
  unfolding append_escaped int_to_string

  pub dump : Value → Bytes
  dump Value.null = text "null"
  dump (Value.integer z) = int_to_string z
  dump (Value.string s) = append_escaped s
  dump (Value.array xs) = b'[' ∷ (dump_items true xs ++ b']' ∷ [])
  dump (Value.object ms) = b'{' ∷ (dump_members true ms ++ b'}' ∷ [])

  pub dump_items : Bool → Items → Bytes
  dump_items first Items.nil = []
  dump_items first (Items.item v rest) = separator first ++ (dump v ++ dump_items false rest)

  pub dump_members : Bool → Members → Bytes
  dump_members first Members.end = []
  dump_members first (Members.member k v rest) =
      separator first ++ (append_escaped k ++ (b':' ∷ (dump v ++ dump_members false rest)))
