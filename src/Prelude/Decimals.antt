-- ===== src/Prelude/Decimals.antt =====
-- Decimal numbers as Go's `strconv.Atoi` reads and `%d` writes them: a signed 64-bit number is an
-- integer, and adding one wraps around.
pub mod Roundtrip
use Prim.Native.Nat.{ℕ, zero, suc, ◌+◌, ◌-◌, ◌*◌, ◌/◌, ◌%◌}
use mathlib.Core.Bool.{Bool, true, false, ◌&&◌}
use mathlib.Core.Option.{Option, none, some}
use mathlib.Core.List.{List, [], ◌∷◌, ◌++◌}
use pmg.Prelude.Tests.{◌==◌, ltb, leb, if◌then◌else◌}
use pmg.Prelude.Strings.{Text, is_empty}

-- `pos n` is n, `negsuc n` is -(n + 1).
pub data ℤ : Type 0 where
  pos negsuc : ℕ → ℤ

abbrev pub max_int : ℕ
max_int = 0x7FFFFFFFFFFFFFFF

-- Adding one to a signed 64-bit number.
unfoldable pub increment : ℤ → ℤ
increment (pos n) = if n == max_int then negsuc max_int else pos (n + 1)
increment (negsuc zero) = pos 0
increment (negsuc (suc n)) = negsuc n

abbrev pub is_zero : ℤ → Bool
is_zero (pos n) = n == 0
is_zero (negsuc n) = false

abbrev pub is_digit : ℕ → Bool
is_digit c = leb 48 c && leb c 57

-- The value of the digits, given that of those before them.
unfoldable pub read_digits : ℕ → Text → Option ℕ
read_digits n [] = some n
read_digits n (c ∷ s) =
    let rest = read_digits (10 * n + (c - 48)) s in if is_digit c then rest else none

abbrev pub up_to : ℕ → (ℕ → ℤ) → Option ℕ → Option ℤ
up_to bound number none = none
up_to bound number (some n) = if leb n bound then some (number n) else none

abbrev pub negated : ℕ → ℤ
negated n = if n == 0 then pos 0 else negsuc (n - 1)

abbrev pub read_unsigned : ℕ → (ℕ → ℤ) → Text → Option ℤ
read_unsigned bound number s = if is_empty s then none else up_to bound number (read_digits 0 s)

-- `strconv.Atoi`: a sign, at least one digit, and no overflow.
unfoldable pub atoi : Text → Option ℤ
unfolding read_digits
atoi [] = none
atoi (c ∷ s) =
    if c == 45
    then read_unsigned (max_int + 1) negated s
    else if c == 43
    then read_unsigned max_int pos s
    else read_unsigned max_int pos (c ∷ s)

-- What `strconv.Atoi` returns along with its error: 0, or the nearest number on overflow.
abbrev pub nearest : ℕ → (ℕ → ℤ) → Option ℕ → ℤ
nearest bound number none = pos 0
nearest bound number (some n) = if leb n bound then number n else number bound

abbrev pub nearest_unsigned : ℕ → (ℕ → ℤ) → Text → ℤ
nearest_unsigned bound number s =
    if is_empty s then pos 0 else nearest bound number (read_digits 0 s)

unfoldable pub atoi_value : Text → ℤ
unfolding read_digits
atoi_value [] = pos 0
atoi_value (c ∷ s) =
    if c == 45
    then nearest_unsigned (max_int + 1) negated s
    else if c == 43
    then nearest_unsigned max_int pos s
    else nearest_unsigned max_int pos (c ∷ s)

-- The digits of a number below 10 ^ fuel, in front of a text.
unfoldable pub write_digits : ℕ → ℕ → Text → Text
write_digits zero n s = s
write_digits (suc fuel) n s =
    let rest = write_digits fuel (n / 10) ((48 + n % 10) ∷ s) in
    if ltb n 10 then (48 + n) ∷ s else rest

-- `%d`: 20 digits are enough for 64 bits.
unfoldable pub write_nat : ℕ → Text
unfolding write_digits
write_nat n = write_digits 20 n []

unfoldable pub write_int : ℤ → Text
unfolding write_nat
write_int (pos n) = write_nat n
write_int (negsuc n) = 45 ∷ write_nat (n + 1)
