-- ===== src/Sequence/Ft.antt =====
-- `FtSequenceTracker` of src/detail/sequence.hpp and src/detail/sequence.cpp.
pub mod Progress
pub mod Restarts
use netft_cpp.Base.{ℕ, ◌+◌, Bool, true, false, ◌&&◌, if◌then◌else◌, ltb, leb, ◌==◌, sub_u32}

abbrev pub restart_low_max : ℕ
restart_low_max = 0x0000ffff

abbrev pub restart_min_baseline : ℕ
restart_min_baseline = restart_low_max + 1

pub data FtSequenceKind : Type 0 where
  first forward stall backward restart : FtSequenceKind

pub record FtSequenceTracker : Type 0 where
  pub has_last : Bool
  pub previous : ℕ
  pub has_restart_candidate : Bool
  pub restart_candidate : ℕ

unfoldable pub begin_session : FtSequenceTracker → FtSequenceTracker
begin_session t = record t { has_restart_candidate = false }

-- the condition of the outer `if` on a backward step
could_restart : FtSequenceTracker → ℕ → Bool
could_restart t current =
    leb restart_min_baseline t.previous
    && t.has_restart_candidate
    && leb t.restart_candidate restart_low_max
    && leb current restart_low_max

-- the number lies behind the baseline
observe_behind : FtSequenceTracker → ℕ → FtSequenceKind × FtSequenceTracker
unfolding could_restart
observe_behind t current =
    let candidate_delta = sub_u32 current t.restart_candidate in
    if could_restart t current && (ltb 0 candidate_delta && ltb candidate_delta 0x80000000)
    then (restart, record t { previous = current; has_restart_candidate = false })
    else (backward, record t { has_restart_candidate = true; restart_candidate = current })

-- The observation holds a kind only, and is that kind here.
unfoldable pub observe : FtSequenceTracker → ℕ → FtSequenceKind × FtSequenceTracker
unfolding observe_behind
observe t current =
    if t.has_last
    then (if current == t.previous
        then (stall, record t { has_restart_candidate = false })
        else if ltb (sub_u32 current t.previous) 0x80000000
        then (forward, record t { previous = current; has_restart_candidate = false })
        else observe_behind t current)
    else (first, record t { has_last = true; previous = current })
