-- ===== src/Domain/Money.antt =====
-- src/domain/Money.h: an amount of cents. `cents_` is an int64_t that the constructor keeps from being
-- negative, so it is a natural number here; the ceiling of int64_t is written out.
use bank_managment_system.Prelude.{ℕ, ◌+◌, ◌-◌, ◌^◌, Bool, ltb, leb, if◌then◌else◌}
use bank_managment_system.Prelude.Int.{ℤ, pos, negsuc}
use bank_managment_system.Prelude.Text.{text}
use bank_managment_system.Prelude.Exec.{
  Throws, ok, throw, invalid_argument, overflow_error, underflow_error,
}

-- std::numeric_limits<int64_t>::max()
abbrev pub int64_max : ℕ
int64_max = 2 ^ 63 - 1

pub record Money : Type 0 where
  pub cents : ℕ

-- The constructor.
unfoldable pub make : ℤ → Throws Money
make (pos c) = ok (record { cents = c })
make (negsuc _) = throw (invalid_argument (text "Money: negative amounts are not representable"))

abbrev pub is_positive : Money → Bool
is_positive m = ltb 0 m.cents

unfoldable pub plus : Money → Money → Throws Money
plus m other =
    if ltb (int64_max - m.cents) other.cents
    then throw (overflow_error (text "Money: addition overflow"))
    else ok (record { cents = m.cents + other.cents })

unfoldable pub minus : Money → Money → Throws Money
minus m other =
    if ltb m.cents other.cents
    then throw (underflow_error (text "Money: subtraction would go below zero"))
    else ok (record { cents = m.cents - other.cents })

abbrev pub can_subtract : Money → Money → Bool
can_subtract m other = leb other.cents m.cents
