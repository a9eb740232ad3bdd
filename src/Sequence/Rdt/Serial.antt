-- ===== src/Sequence/Rdt/Serial.antt =====
-- The tracker against serial-number arithmetic on 32 bits.
use netft_cpp.Base.{ℕ, ◌+◌, ◌-◌, ◌<◌, ◌^◌, ◌≡◌, true, arith, if◌then◌else◌, ltb, ◌==◌, u32, sub_u32}
use netft_cpp.Sequence.Rdt.{
  duplicate, contiguous, gap_kind, out_of_order, SequenceObservation, RdtSequenceTracker, seen,
  observe,
}

-- What a number `d` steps ahead of the last one is, on the circle of 2 ^ 32.
abbrev pub classify : ℕ → SequenceObservation
classify d =
    if d == 0
    then seen duplicate 0
    else if d == 1
    then seen contiguous 0
    else if ltb d 0x80000000
    then seen gap_kind (d - 1)
    else seen out_of_order 0

-- A number ahead by less than half the circle becomes the new baseline.
abbrev pub rebase : RdtSequenceTracker → ℕ → RdtSequenceTracker
rebase t d = if ltb d 0x80000000 then record t { previous = u32 (t.previous + d) } else t

sub_u32-ahead : (p d : ℕ) → p < 2 ^ 32 → d < 2 ^ 32 → sub_u32 (u32 (p + d)) p ≡ d
sub_u32-ahead p d hp hd = omega arith

-- After a record, the number `d` steps ahead on the circle of 2 ^ 32 is classified by `d` alone:
-- 0 a duplicate, 1 contiguous, below 2 ^ 31 a gap of d - 1, and else out of order. The baseline
-- moves there in the second and third case, and the tracker is unchanged in the others.
pub observe-classify :
    (t : RdtSequenceTracker) (d : ℕ)
    → t.has_last ≡ true
    → t.previous < 2 ^ 32
    → d < 2 ^ 32
    → observe t (u32 (t.previous + d)) ≡ (classify d, rebase t d)
unfolding observe
observe-classify t d e hp hd = ground (arith, sub_u32-ahead t.previous d)
