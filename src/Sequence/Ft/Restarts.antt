-- ===== src/Sequence/Ft/Restarts.antt =====
-- When the tracker takes a device for restarted.
use netft_cpp.Base.{ℕ, ◌+◌, ◌≤◌, ◌<◌, ◌^◌, ◌≡◌, ◌≢◌, true, false, arith}
use netft_cpp.Sequence.Ft.{
  backward, restart, FtSequenceTracker, begin_session, observe, restart_low_max,
  restart_min_baseline,
}
use netft_cpp.Sequence.Ft.Progress.{IsValid}

-- The observations that the verdict "restart" rests on.
pub record Confirmed (t : FtSequenceTracker) (c : ℕ) : Type 0 where
  pub high_baseline : restart_min_baseline ≤ t.previous
  pub candidate : t.has_restart_candidate ≡ true
  pub rising : t.restart_candidate < c
  pub low : c ≤ restart_low_max

observe-Confirmed :
    (t : FtSequenceTracker) (c : ℕ)
    → c < 2 ^ 32
    → IsValid t
    → (observe t c).0 ≡ restart
    → Confirmed t c
unfolding observe
observe-Confirmed t c h v e = ground arith

-- A restart is never concluded from one number: if the second of two numbers in a row is taken for
-- a restart, then the first was reported as backward, both are at most 0xffff and rising, and the
-- baseline before them was at least 0x10000.
pub restart_needs_backward :
    (t : FtSequenceTracker) (a b : ℕ)
    → IsValid t
    → a < 2 ^ 32
    → b < 2 ^ 32
    → (observe (observe t a).1 b).0 ≡ restart
    → ((observe t a).0 ≡ backward)
      × (a < b)
      × (b ≤ restart_low_max)
      × (restart_min_baseline ≤ t.previous)
unfolding observe
restart_needs_backward t a b v ha hb e = ground arith

-- After `begin_session` the next number is never taken for a restart, so a candidate of one session
-- is not completed in another.
pub begin_session_no_restart :
    (t : FtSequenceTracker) (c : ℕ) → (observe (begin_session t) c).0 ≢ restart
unfolding begin_session observe
begin_session_no_restart t c = ground arith

-- A device that restarts is recognised: with no candidate pending and a baseline of at least
-- 0x10000, two rising numbers of at most 0xffff, not more than 2 ^ 31 behind the baseline, are
-- reported as backward and restart, and the second is the new baseline.
pub restart_recognised :
    (t : FtSequenceTracker) (a b : ℕ)
    → t.has_last ≡ true
    → t.has_restart_candidate ≡ false
    → t.previous < 2 ^ 32
    → restart_min_baseline ≤ t.previous
    → t.previous ≤ a + 2 ^ 31
    → a < b
    → b ≤ restart_low_max
    → let s = observe t a in
      let r = observe s.1 b in
      (s.0 ≡ backward) × (r.0 ≡ restart) × (r.1.previous ≡ b) × (r.1.has_restart_candidate ≡ false)
unfolding observe
restart_recognised t a b e n hp hm hr lt low = ground arith
