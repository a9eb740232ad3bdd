-- ===== src/Client/State.antt =====
-- The members of `Client::Impl` (src/detail/client_impl.hpp). Mutexes and condition variables have no
-- field: what runs under a lock is one step here. What the callback does is an argument of the steps
-- that call it. `D` is the type `double`; time points and durations are numbers of clock ticks.
use netft_cpp.Base.{ℕ, Bool, List, Option}
use netft_cpp.Types.{Config, HealthSnapshot, Sample}
use netft_cpp.FaultLatch.{FaultLatch}
use netft_cpp.Sequence.Rdt.{RdtSequenceTracker}
use netft_cpp.Sequence.Ft.{FtSequenceTracker}

pub record Impl (D : Type 0) : Type 0 where
  pub config : Config D
  -- the thread that `worker_` holds, while it is joinable
  pub worker : Option ℕ
  pub active_worker_id : Option ℕ
  pub joining : Bool
  -- which callable `callback_` holds, by a number
  pub callback : Option ℕ
  pub rdt_sequence : RdtSequenceTracker
  pub ft_sequence : FtSequenceTracker
  pub stopping : Bool
  pub worker_exited : Bool
  pub session_started : Bool
  pub fault_latch : FaultLatch
  pub health : HealthSnapshot D
  pub latest : Option (Sample D)
  pub last_delivery_at : ℕ
  pub last_record_at : ℕ
  pub generation : ℕ
  pub delivered_generation : ℕ
  pub receive_times : List ℕ
  pub delivery_times : List ℕ
  pub consecutive_malformed : ℕ
