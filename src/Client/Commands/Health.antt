-- ===== src/Client/Commands/Health.antt =====
-- What the snapshot of `health` shows.
use netft_cpp.Base.{
  ℕ, ◌+◌, ◌≡◌, ◌⊎◌, inl, inr, refl, List, [], ◌∷◌, length, ltb, Bool-cases, if◌then◌else◌,
}
use netft_cpp.Client.Commands.{health, fault_code}
use netft_cpp.Client.Rates.{second, prune_rate_window, Rising, recent, prune_rate_window-recent}
use netft_cpp.Client.State.{Impl}
use netft_cpp.FaultLatch.{is_fault}
use netft_cpp.Floats.{Floats, LongFloats}
use netft_cpp.Types.{ClientState}
use netft_cpp.Types.Faults.{FaultCode}

prune_twice :
    (times : List ℕ) (now : ℕ)
    → prune_rate_window (prune_rate_window times now) now ≡ prune_rate_window times now
unfolding prune_rate_window
prune_twice [] now = refl
prune_twice (t ∷ times) now = elim (Bool-cases (ltb (t + second) now)) [
  | inl old ↦ rw old (prune_twice times now)
  | inr new ↦ rw (new, new) refl
]

shown :
    (code : FaultCode) (state : ClientState)
    → ((if is_fault code then ClientState.faulted else state) ≡ ClientState.faulted)
      ⊎ (code ≡ FaultCode.none)
shown FaultCode.none state = inr refl
shown FaultCode.sensor_configuration state = inl refl
shown FaultCode.timeout state = inl refl
shown FaultCode.socket state = inl refl
shown FaultCode.serious_status state = inl refl
shown FaultCode.ft_stall state = inl refl
shown FaultCode.ft_backward state = inl refl
shown FaultCode.malformed_storm state = inl refl
shown FaultCode.callback state = inl refl

module _ (F : Floats) (L : LongFloats F.Double) where
  open F use {Double, of_nat}

  -- If the times of the records and of the deliveries are in the order of the clock, the rates that
  -- `health` shows are the numbers of records and of deliveries in the last second. It shows no fault
  -- code but with the state of a fault, and a second reading at the same time shows the same and
  -- changes nothing.
  pub health_rates :
      (now : ℕ) (impl : Impl Double)
      → Rising now impl.receive_times
      → Rising now impl.delivery_times
      → let (next, snapshot) = health F L now impl in
        (snapshot.receive_rate_hz ≡ of_nat (length (recent now impl.receive_times)))
        × (snapshot.delivery_rate_hz ≡ of_nat (length (recent now impl.delivery_times)))
        × ((snapshot.state ≡ ClientState.faulted) ⊎ (snapshot.fault_code ≡ FaultCode.none))
        × (health F L now next ≡ (next, snapshot))
  unfolding health fault_code
  health_rates now impl r d = (
    rw (prune_rate_window-recent impl.receive_times now r) refl,
    rw (prune_rate_window-recent impl.delivery_times now d) refl,
    shown impl.fault_latch.code impl.health.state,
    rw (prune_twice impl.receive_times now, prune_twice impl.delivery_times now) refl,
  )
