-- ===== src/Examples/Sequences.antt =====
-- Streams of sequence numbers.
use netft_cpp.Base.{ℕ, ◌+◌, ◌≤◌, ◌<◌, ◌≡◌, refl, [], ◌∷◌, true, false, u32, arith}
use netft_cpp.Sequence.Ft
use netft_cpp.Sequence.Ft.{
  restart_low_max, restart_min_baseline, FtSequenceTracker, backward, restart, stall, forward,
}
use netft_cpp.Sequence.Ft.Progress.{IsValid}
use netft_cpp.Sequence.Ft.Restarts.{restart_needs_backward, restart_recognised}
use netft_cpp.Sequence.Rdt
use netft_cpp.Sequence.Rdt.{RdtSequenceTracker, gap_kind, seen}
use netft_cpp.Sequence.Rdt.Accounts.{observe_all, observe_all-accounts}
use netft_cpp.Sequence.Rdt.Serial.{observe-classify}

abbrev near_wrap : RdtSequenceTracker
near_wrap = record { has_last = true; previous = 0xfffffffe }

observe-classify_example :
    Rdt.observe near_wrap 3 ≡ (seen gap_kind 4, record { has_last = true; previous = 3 })
observe-classify_example = observe-classify near_wrap 5 refl (omega arith) (omega arith)

-- one lost, one new after the wrap, one duplicate, one late
observe_all-accounts_example :
    (observe_all near_wrap (0 ∷ 1 ∷ 1 ∷ 0 ∷ [])).last.previous
    ≡ u32 (
        0xfffffffe
        + (observe_all near_wrap (0 ∷ 1 ∷ 1 ∷ 0 ∷ [])).accepted
        + (observe_all near_wrap (0 ∷ 1 ∷ 1 ∷ 0 ∷ [])).lost)
observe_all-accounts_example =
    observe_all-accounts near_wrap (0 ∷ 1 ∷ 1 ∷ 0 ∷ []) refl (omega arith) (omega arith)

abbrev running : FtSequenceTracker
running = record {
  has_last = true;
  previous = 0x20000;
  has_restart_candidate = false;
  restart_candidate = 0;
}

running-IsValid : IsValid running
running-IsValid = record {
  previous_u32 = omega arith;
  candidate_u32 = omega arith;
  candidate_after_first = refl;
  candidate_behind = refl;
}

abbrev three : ℕ
three = 3

restart_needs_backward_example :
    ((Ft.observe running 5).0 ≡ backward)
    × (5 < 6)
    × (6 ≤ restart_low_max)
    × (restart_min_baseline ≤ 0x20000)
unfolding Ft.observe
restart_needs_backward_example =
    restart_needs_backward running 5 6 running-IsValid (omega arith) (omega arith) refl

restart_recognised_example :
    let s = Ft.observe running 5 in
    let r = Ft.observe s.1 6 in
    (s.0 ≡ backward) × (r.0 ≡ restart) × (r.1.previous ≡ 6) × (r.1.has_restart_candidate ≡ false)
restart_recognised_example =
    restart_recognised running 5 6 refl refl (omega arith) (omega arith) (omega arith) (omega arith)
      (omega arith)
