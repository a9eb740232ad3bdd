-- ===== src/FaultLatch/FirstWins.antt =====
-- The first fault is kept until the latch is reset.
use netft_cpp.Base.{◌≡◌, ◌≢◌, refl, true, false, List, [], ◌∷◌, arith}
use netft_cpp.Base.Text.{Bytes}
use netft_cpp.Types.{ClientState, HealthSnapshot}
use netft_cpp.Types.Faults.{FaultCode}
use netft_cpp.FaultLatch.{FaultLatch, empty, publish, faulted}

module _ {D : Type 0} where
  -- Several publications, one after another.
  pub publish_all :
      FaultLatch → List (FaultCode × Bytes) → HealthSnapshot D → FaultLatch × HealthSnapshot D
  publish_all latch [] health = (latch, health)
  publish_all latch ((code, message) ∷ later) health =
      let (won, latch', health') = publish latch code message health in
      publish_all latch' later health'

  publish_all-faulted :
      (latch : FaultLatch) (later : List (FaultCode × Bytes)) (health : HealthSnapshot D)
      → faulted latch ≡ true
      → publish_all latch later health ≡ (latch, health)
  unfolding publish_all
  publish_all-faulted latch [] health h = refl
  publish_all-faulted latch ((code, message) ∷ later) health h =
      let kept : publish latch code message health ≡ (false, latch, health) =
        unfold publish faulted in ground arith in
      rw kept (publish_all-faulted latch later health h)

  -- Of the faults published on an empty latch, in any number and order, the first decides the latch,
  -- the reported state, code and error; the later ones change nothing.
  pub publish_first_wins :
      (code : FaultCode) (message : Bytes) (later : List (FaultCode × Bytes))
      (health : HealthSnapshot D)
      → code ≢ FaultCode.none
      → publish_all empty ((code, message) ∷ later) health ≡ (
        record { code = code },
        record health { state = ClientState.faulted; fault_code = code; last_error = message },
      )
  unfolding publish_all publish
  publish_first_wins code message later health h =
      publish_all-faulted (record { code = code }) later _ (unfold faulted in ground arith)
