-- ===== src/Examples/Numbers.antt =====
-- Numbers to run the definitions on: whole numbers, and `none` for all that is not finite.
use netft_cpp.Base.{
  ℕ, suc, ◌+◌, ◌-◌, ◌*◌, ◌/◌, ◌^◌, Bool, true, false, Option, none, some, ltb, ◌==◌, arith,
  if◌then◌else◌,
}
use netft_cpp.Base.Int.{ℤ, pos, negsuc, leb_ℤ}
use netft_cpp.Floats.{Floats, LongFloats, IntFloats, TruncatesBelow, NotNegative}

abbrev pub Number : Type 0
Number = Option ℤ

abbrev pub whole : ℕ → Number
whole n = some (pos n)

abbrev finite : Number → Bool
finite none = false
finite (some x) = true

abbrev le_number : Number → Number → Bool
le_number (some x) (some y) = leb_ℤ x y
le_number _ _ = false

abbrev lt_number : Number → Number → Bool
lt_number (some x) (some y) = if leb_ℤ y x then false else true
lt_number _ _ = false

abbrev eq_number : Number → Number → Bool
eq_number (some x) (some y) = if leb_ℤ x y then leb_ℤ y x else false
eq_number _ _ = false

-- rounded to 0
abbrev over : ℤ → ℕ → ℤ
over (pos m) n = pos (m / n)
over (negsuc m) n = if ltb (suc m) n then pos 0 else negsuc (suc m / n - 1)

abbrev div_number : Number → Number → Number
div_number (some x) (some (pos (suc n))) = some (over x (suc n))
div_number _ _ = none

abbrev mul_number : Number → Number → Number
mul_number (some (pos m)) (some (pos n)) = whole (m * n)
mul_number _ _ = none

abbrev add_number : Number → Number → Number
add_number (some (pos m)) (some (pos n)) = whole (m + n)
add_number _ _ = none

abbrev pub numbers : Floats
numbers = record {
  Double = Number;
  is_finite = finite;
  eq = eq_number;
  lt = lt_number;
  le = le_number;
  of_int = λ x. some x;
  of_nat = whole;
  div = div_number;
  mul = mul_number;
  add = add_number;
  max_double = whole (2 ^ 40);
  epsilon = whole 0;
  of_ticks = λ n. whole (n / 1000000000);
  ticks_lt = λ n x. lt_number (whole (n / 1000000000)) x;
}

abbrev whole_part : Number → ℕ
whole_part (some (pos n)) = n
whole_part _ = 0

abbrev pub long_numbers : LongFloats Number
long_numbers = record {
  Long = Number;
  long_of = λ x. x;
  long_of_nat = whole;
  long_is_finite = finite;
  long_lt = lt_number;
  long_le = le_number;
  long_mul = mul_number;
  long_div = div_number;
  ceil = λ x. x;
  truncate = whole_part;
  is_space = λ c. c == b' ';
}

abbrev integer_part : Number → ℤ
integer_part (some x) = x
integer_part none = pos 0

abbrev pub int_numbers : IntFloats Number
int_numbers = record { ceil = λ x. x; to_int = integer_part }

pub truncates_below : TruncatesBelow long_numbers
truncates_below (some (pos m)) n f p l = ground arith
truncates_below (some (negsuc m)) n f p l = ground arith
truncates_below none n f p l = cc

pub not_negative : NotNegative numbers int_numbers
not_negative n f = ground arith
