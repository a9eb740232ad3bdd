-- ===== src/Floats.antt =====
-- The floating-point numbers of the platform and the conversions of `<chrono>` between them and
-- clock ticks: none of this is code of the library, so it is a parameter. Durations and time points
-- of `std::chrono::steady_clock` are numbers of ticks; a clock reading is not before the epoch.
use netft_cpp.Base.{ℕ, ◌<◌, ◌-◌, ◌^◌, ◌≡◌, Bool, true, false}
use netft_cpp.Base.Int.{ℤ, pos, leb_ℤ}

pub record Floats : Type 1 where
  -- `double`, and `std::chrono::duration<double>`, which holds one
  pub Double : Type 0
  -- `std::isfinite`
  pub is_finite : Double → Bool
  -- `==`, `<` and `<=`
  pub eq : Double → Double → Bool
  pub lt : Double → Double → Bool
  pub le : Double → Double → Bool
  -- conversions from the integers, and the operators
  pub of_int : ℤ → Double
  pub of_nat : ℕ → Double
  pub div : Double → Double → Double
  pub mul : Double → Double → Double
  pub add : Double → Double → Double
  -- `std::numeric_limits<double>::max()` and `epsilon()`
  pub max_double : Double
  pub epsilon : Double
  -- a number of ticks as a `duration<double>`, and `<` between the two kinds of duration
  pub of_ticks : ℕ → Double
  pub ticks_lt : ℕ → Double → Bool

-- `long double`, in which durations are converted to clock ticks, and `std::isspace`. `D` is the type
-- `double`.
pub record LongFloats (D : Type 0) : Type 1 where
  pub Long : Type 0
  pub long_of : D → Long
  pub long_of_nat : ℕ → Long
  pub long_is_finite : Long → Bool
  pub long_lt : Long → Long → Bool
  pub long_le : Long → Long → Bool
  pub long_mul : Long → Long → Long
  pub long_div : Long → Long → Long
  pub ceil : Long → Long
  -- the conversion to an integer, of a number that is finite and not negative
  pub truncate : Long → ℕ
  pub is_space : ℕ → Bool

-- `std::ceil` of a double, and the conversion to an `int`, of a number that fits.
pub record IntFloats (D : Type 0) : Type 0 where
  pub ceil : D → D
  pub to_int : D → ℤ

-- The conversion of a finite number that is not negative and below `n` gives an integer below `n`.
abbrev pub TruncatesBelow : {D : Type 0} → LongFloats D → Type 0
TruncatesBelow L =
    (x : L.Long) (n : ℕ)
    → L.long_is_finite x ≡ true
    → L.long_lt x (L.long_of_nat 0) ≡ false
    → L.long_le (L.long_of_nat n) x ≡ false
    → L.truncate x < n

-- A number of ticks is not negative: in milliseconds, rounded up, it gives an `int` that is not, if it
-- fits.
abbrev pub NotNegative : (F : Floats) → IntFloats F.Double → Type 0
NotNegative F I =
    (n : ℕ)
    → F.le (F.of_nat (2 ^ 31 - 1)) (I.ceil (F.mul (F.of_ticks n) (F.of_nat 1000))) ≡ false
    → leb_ℤ (pos 0) (I.to_int (I.ceil (F.mul (F.of_ticks n) (F.of_nat 1000)))) ≡ true
