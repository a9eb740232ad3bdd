-- ===== src/Sequence/Rdt.antt =====
-- `RdtSequenceTracker` of src/detail/sequence.hpp and src/detail/sequence.cpp.
pub mod Serial
pub mod Accounts
use netft_cpp.Base.{ℕ, ◌-◌, Bool, true, false, if◌then◌else◌, ltb, ◌==◌, sub_u32}

pub data SequenceKind : Type 0 where
  first contiguous gap_kind duplicate out_of_order : SequenceKind

pub record SequenceObservation : Type 0 where
  pub kind : SequenceKind
  pub gap : ℕ

pub record RdtSequenceTracker : Type 0 where
  pub has_last : Bool
  pub previous : ℕ

abbrev pub seen : SequenceKind → ℕ → SequenceObservation
seen kind gap = record { kind = kind; gap = gap }

-- from the computation of `delta` on
observe_next : RdtSequenceTracker → ℕ → ℕ → SequenceObservation × RdtSequenceTracker
observe_next t current delta =
    if delta == 0
    then (seen duplicate 0, t)
    else if ltb delta 0x80000000
    then (
      if delta == 1 then seen contiguous 0 else seen gap_kind (delta - 1),
      record t { previous = current },
    )
    else (seen out_of_order 0, t)

unfoldable pub observe : RdtSequenceTracker → ℕ → SequenceObservation × RdtSequenceTracker
unfolding observe_next
observe t current =
    if t.has_last
    then observe_next t current (sub_u32 current t.previous)
    else (seen first 0, record { has_last = true; previous = current })

unfoldable pub reset : RdtSequenceTracker → RdtSequenceTracker
reset t = record t { has_last = false }
