-- ===== src/FaultLatch.antt =====
-- src/detail/fault_latch.hpp and src/detail/fault_latch.cpp. The atomic code is a value; a method
-- is one step, as `publish` holds the data mutex. Locking and swapping strings do not throw here.
pub mod FirstWins
use netft_cpp.Base.{Bool, true, false}
use netft_cpp.Base.Text.{Bytes}
use netft_cpp.Types.{ClientState, HealthSnapshot}
use netft_cpp.Types.Faults.{FaultCode}

pub record FaultLatch : Type 0 where
  pub code : FaultCode

-- `code != FaultCode::None`
abbrev pub is_fault : FaultCode → Bool
is_fault FaultCode.none = false
is_fault _ = true

abbrev pub empty : FaultLatch
empty = record { code = FaultCode.none }

module _ {D : Type 0} where
  -- by the code that `compare_exchange_strong` finds in the latch
  publish_over :
      FaultCode
      → FaultLatch
      → FaultCode
      → Bytes
      → HealthSnapshot D
      → Bool × FaultLatch × HealthSnapshot D
  publish_over FaultCode.none latch code message health = (
    true,
    record { code = code },
    record health { state = ClientState.faulted; fault_code = code; last_error = message },
  )
  publish_over _ latch code message health = (false, latch, health)

  unfoldable pub publish :
      FaultLatch → FaultCode → Bytes → HealthSnapshot D → Bool × FaultLatch × HealthSnapshot D
  unfolding publish_over
  publish latch code message health = publish_over latch.code latch code message health

unfoldable pub reset : FaultLatch → FaultLatch
reset latch = empty

unfoldable pub faulted : FaultLatch → Bool
faulted latch = is_fault latch.code
