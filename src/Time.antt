-- ===== src/Time.antt =====
-- src/detail/time.hpp: durations as clock ticks, with the range tested before the conversion.
pub mod Range
use netft_cpp.Base.{ℕ, ◌+◌, ◌-◌, ◌^◌, Bool, not, ◌||◌, Result, ok, err, ◌>>=◌, ◌>>◌, guard, ltb}
use netft_cpp.Floats.{LongFloats}

-- the two messages of the `std::invalid_argument`
pub data TimeError : Type 0 where
  duration_range deadline_range : TimeError

-- `SteadyClock::duration::max().count()` of a signed 64-bit clock, and `SteadyClock::period::den`
-- of one that counts nanoseconds; `SteadyClock::period::num` is 1.
abbrev pub max_ticks : ℕ
max_ticks = 2 ^ 63 - 1

abbrev pub ticks_per_second : ℕ
ticks_per_second = 1000000000

module _ {D : Type 0} (L : LongFloats D) where
  open L use {
    Long, long_of, long_of_nat, long_is_finite, long_lt, long_le, long_mul, long_div, truncate,
  }

  -- the local `ticks`
  abbrev pub long_ticks : D → Long
  long_ticks duration =
      long_div (long_mul (long_of duration) (long_of_nat ticks_per_second)) (long_of_nat 1)

  unfoldable pub checked_duration : D → Result TimeError ℕ
  checked_duration duration = do
    let ticks = long_ticks duration
    guard
        (not (
          not (long_is_finite ticks)
          || long_lt ticks (long_of_nat 0)
          || long_le (long_of_nat max_ticks) ticks))
        duration_range
    ok (truncate ticks)

  unfoldable pub checked_deadline : ℕ → D → Result TimeError ℕ
  checked_deadline origin duration = do
    ticks ← checked_duration duration
    guard (not (ltb (max_ticks - ticks) origin)) deadline_range
    ok (origin + ticks)
