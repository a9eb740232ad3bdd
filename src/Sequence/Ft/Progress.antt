-- ===== src/Sequence/Ft/Progress.antt =====
-- What one observation of the FT sequence number says, and where it leaves the baseline.
use netft_cpp.Base.{not, ◌||◌, leb, ℕ, ◌+◌, ◌≤◌, ◌<◌, ◌^◌, ◌≡◌, ◌⊎◌, true, arith, u32, sub_u32}
use netft_cpp.Sequence.Ft.{
  forward, stall, backward, restart, FtSequenceTracker, begin_session, observe,
}

-- A tracker whose fields fit their type, with a candidate only after a first number and behind the
-- baseline.
pub record IsValid (t : FtSequenceTracker) : Type 0 where
  pub previous_u32 : t.previous < 2 ^ 32
  pub candidate_u32 : t.restart_candidate < 2 ^ 32
  pub candidate_after_first : (not t.has_restart_candidate || t.has_last) ≡ true
  pub candidate_behind :
      (not t.has_restart_candidate || leb 0x80000000 (sub_u32 t.restart_candidate t.previous))
      ≡ true

-- An observation of a 32-bit number keeps the tracker valid: its fields fit 32 bits, and a pending
-- candidate stands after a first number and at least 2 ^ 31 ahead of the baseline on the circle.
pub observe-IsValid :
    (t : FtSequenceTracker) (c : ℕ) → c < 2 ^ 32 → IsValid t → IsValid (observe t c).1
unfolding observe
observe-IsValid t c h v = ground arith

pub begin_session-IsValid : (t : FtSequenceTracker) → IsValid t → IsValid (begin_session t)
unfolding begin_session
begin_session-IsValid t v = ground arith

sub_u32-ahead : (p d : ℕ) → p < 2 ^ 32 → d < 2 ^ 32 → sub_u32 (u32 (p + d)) p ≡ d
sub_u32-ahead p d hp hd = omega arith

-- After a first number, the number `d` steps ahead on the circle of 2 ^ 32 is a stall if d is 0,
-- forward if d is below 2 ^ 31, and else backward or a restart. The baseline moves there when it is
-- forward or a restart, and in no other case.
pub observe_ahead :
    (t : FtSequenceTracker) (d : ℕ)
    → t.has_last ≡ true
    → t.previous < 2 ^ 32
    → d < 2 ^ 32
    → let c = u32 (t.previous + d) in
      let o = observe t c in
      ((d ≡ 0) × (o.0 ≡ stall) × (o.1.previous ≡ t.previous))
      ⊎ ((0 < d) × (d < 2 ^ 31) × (o.0 ≡ forward) × (o.1.previous ≡ c))
      ⊎ ((2 ^ 31 ≤ d) × (o.0 ≡ backward) × (o.1.previous ≡ t.previous))
      ⊎ ((2 ^ 31 ≤ d) × (o.0 ≡ restart) × (o.1.previous ≡ c))
unfolding observe
observe_ahead t d e hp hd = ground (arith, sub_u32-ahead t.previous d)
