-- ===== src/Client/Rates.antt =====
-- `prune_rate_window` of src/detail/client_impl.cpp. A deque is the list of its items, oldest first.
use netft_cpp.Base.{
  ℕ, ◌+◌, ◌≤◌, ◌≡◌, refl, List, [], ◌∷◌, All, ltb, if◌then◌else◌, arith, Bool-cases, inl, inr,
}

-- The ticks of `std::chrono::seconds{1}` on a clock of nanoseconds.
abbrev pub second : ℕ
second = 1000000000

-- `now - times.front() > 1s`, without the subtraction
unfoldable pub prune_rate_window : List ℕ → ℕ → List ℕ
prune_rate_window [] now = []
prune_rate_window (t ∷ times) now =
    if ltb (t + second) now then prune_rate_window times now else t ∷ times

-- Times in the order of the clock, none after `bound`.
abbrev pub Rising : ℕ → List ℕ → Type 0
Rising bound [] = Unit {0}
Rising bound (t ∷ times) = (t ≤ bound) × All (λ u. t ≤ u) times × Rising bound times

-- The times of the last second, by a test of each one.
abbrev pub recent : ℕ → List ℕ → List ℕ
recent now [] = []
recent now (t ∷ times) = if ltb (t + second) now then recent now times else t ∷ recent now times

recent-All :
    (now t : ℕ) (times : List ℕ)
    → now ≤ t + second
    → All (λ u. t ≤ u) times
    → recent now times ≡ times
recent-All now t [] le h = refl
recent-All now t (u ∷ times) le h = ground (arith, h.0, recent-All now t times le h.1)

-- Of times in the order of the clock the window keeps exactly those of the last second: dropping
-- from the front alone is enough.
pub prune_rate_window-recent :
    (times : List ℕ) (now : ℕ) → Rising now times → prune_rate_window times now ≡ recent now times
unfolding prune_rate_window
prune_rate_window-recent [] now h = refl
prune_rate_window-recent (t ∷ times) now h =
    ground (arith, prune_rate_window-recent times now h.2, recent-All now t times)

pub prune_Rising :
    (times : List ℕ) (now : ℕ) → Rising now times → Rising now (prune_rate_window times now)
unfolding prune_rate_window
prune_Rising [] now h = tt
prune_Rising (t ∷ times) now h = elim (Bool-cases (ltb (t + second) now)) [
  | inl old ↦ rw old (prune_Rising times now h.2)
  | inr new ↦ rw new h
]
