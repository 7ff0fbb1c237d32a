-- ===== src/Prelude/Text.antt =====
-- std::string as a list of bytes: literals, equality, and std::to_string of an unsigned number.
use Prim.Native.Char.{code}
use Prim.Native.Nat.{ℕ, zero, suc, ◌+◌, ◌/◌, ◌%◌, ◌^◌, ◌<◌}
use Prim.Native.String.{String}
use mathlib.Core.Path.{◌≡◌, refl, ap}
use mathlib.Core.Bool.{Bool, true, false, ◌&&◌}
use mathlib.Core.List.{List, [], ◌∷◌, ◌++◌}
use native.Mathlib.Omega.{arith}
use bank_managment_system.Prelude.Tests.{ltb, ◌==◌, if◌then◌else◌}

abbrev pub Bytes : Type 0
Bytes = List ℕ

-- The bytes of an ASCII literal. It is shut, so that a proof sees a literal as one term.
unfoldable pub text : String → Bytes
text String.[] = []
text (String.◌∷◌ c s) = code c ∷ text s

-- `==` of std::string and std::string_view.
unfoldable pub text_eq : Bytes → Bytes → Bool
text_eq [] [] = true
text_eq (a ∷ s) (b ∷ t) = a == b && text_eq s t
text_eq _ _ = false

pub text_eq_sound : (s t : Bytes) → text_eq s t ≡ true → s ≡ t
unfolding text_eq
text_eq_sound [] [] h = refl
text_eq_sound [] (b ∷ t) h = cc
text_eq_sound (a ∷ s) [] h = cc
text_eq_sound (a ∷ s) (b ∷ t) h = ground (arith, text_eq_sound s t)

pub text_eq_refl : (s : Bytes) → text_eq s s ≡ true
unfolding text_eq
text_eq_refl [] = refl
text_eq_refl (a ∷ s) = ground (arith, text_eq_refl s)

-- The decimal digits, the last one split off first; the fuel bounds their number.
unfoldable pub decimal : ℕ → ℕ → Bytes
decimal zero n = []
decimal (suc fuel) n =
    let front = decimal fuel (n / 10) in
    if ltb n 10 then (b'0' + n) ∷ [] else front ++ (b'0' + n % 10) ∷ []

-- std::to_string of a uint64_t, which has 20 digits at most.
unfoldable pub to_string : ℕ → Bytes
unfolding decimal
to_string n = decimal 20 n

fewer_digits : (fuel n : ℕ) → n < 10 ^ suc fuel → n / 10 < 10 ^ fuel
fewer_digits fuel n h = omega arith

-- With fuel for its digits, more fuel changes nothing.
pub decimal_enough :
    (fuel more n : ℕ) → n < 10 ^ suc fuel → decimal (suc (fuel + more)) n ≡ decimal (suc fuel) n
unfolding decimal
decimal_enough zero more n h = ground arith
decimal_enough (suc fuel) more n h =
    let step : suc fuel + more ≡ suc (fuel + more) = omega arith in
    rw step (
      ap (λ front. if ltb n 10 then (b'0' + n) ∷ [] else front ++ (b'0' + n % 10) ∷ [])
        (decimal_enough fuel more (n / 10) (fewer_digits (suc fuel) n h)))
