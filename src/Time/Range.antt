-- ===== src/Time/Range.antt =====
-- Neither conversion leaves the range of the clock.
use netft_cpp.Base.{ℕ, ◌+◌, ◌≤◌, ◌<◌, ◌≡◌, true, false, ok, >>=-eq-ok, arith}
use netft_cpp.Floats.{LongFloats, TruncatesBelow}
use netft_cpp.Time.{max_ticks, long_ticks, checked_duration, checked_deadline}

module _ {D : Type 0} (L : LongFloats D) (below : TruncatesBelow L) where
  checked_duration-lt :
      (duration : D) (ticks : ℕ) → checked_duration L duration ≡ ok ticks → ticks < max_ticks
  unfolding checked_duration
  checked_duration-lt duration ticks e =
      let x = long_ticks L duration in
      let finite : L.long_is_finite x ≡ true = ground arith in
      let natural : L.long_lt x (L.long_of_nat 0) ≡ false = ground arith in
      let small : L.long_le (L.long_of_nat max_ticks) x ≡ false = ground arith in
      ground (arith, below x max_ticks finite natural small)

  -- If conversions to an integer round down, a deadline that is returned lies in the range of the
  -- clock, not before its origin, and less than the whole range after it: the addition has not
  -- overflowed.
  pub checked_deadline_range :
      (origin : ℕ) (duration : D) (deadline : ℕ)
      → checked_deadline L origin duration ≡ ok deadline
      → (origin ≤ deadline) × (deadline ≤ max_ticks) × (deadline < origin + max_ticks)
  unfolding checked_deadline
  checked_deadline_range origin duration deadline e =
      let (ticks, converted, rest) = >>=-eq-ok (checked_duration L duration) _ e in
      ground (arith, checked_duration-lt duration ticks converted)
