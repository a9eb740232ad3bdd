-- ===== src/Client/Lifecycle.antt =====
-- `start`, `stop` and `called_from_worker_thread` of src/detail/client_impl.cpp and
-- src/detail/client_impl.hpp. A section under the lifecycle lock is one function, which also says what
-- its thread does next. `self` is `std::this_thread::get_id()`. What is sent has no effect here.
pub mod Rollback
pub mod Threads
pub mod Invariant
pub mod Wakeups
pub mod Safety
use netft_cpp.Base.{
  ℕ, ◌+◌, Bool, true, false, not, ◌&&◌, [], Option, none, some, if◌then◌else◌, ◌==◌, u64,
}
use netft_cpp.Base.Int.{pos}
use netft_cpp.Client.State.{Impl}
use netft_cpp.FaultLatch
use netft_cpp.FaultLatch.{publish, faulted, is_fault}
use netft_cpp.Floats.{Floats}
use netft_cpp.Types.{ClientState}
use netft_cpp.Types.Faults.{FaultCode}

-- What a section of `stop` ends with: the function returns, waits until nobody joins, or joins the
-- worker that it has taken.
pub data StopStep (D : Type 0) : Type 0 where
  stop_returns : Impl D → StopStep D
  stop_waits : Impl D → StopStep D
  stop_joins : ℕ → Impl D → StopStep D

-- The same for `start`: it throws that the client is running, waits until nobody joins, waits for a
-- faulted worker to exit, joins a worker that has exited, returns with a worker, or fails to create
-- one and throws on.
pub data StartStep (D : Type 0) : Type 0 where
  already_running : Impl D → StartStep D
  waits_for_join : Impl D → StartStep D
  waits_for_exit : Impl D → StartStep D
  start_joins : ℕ → Impl D → StartStep D
  started : ℕ → Impl D → StartStep D
  not_started : Impl D → StartStep D

is_self : ℕ → Option ℕ → Bool
is_self self none = false
is_self self (some w) = w == self

module _ {D : Type 0} where
  unfoldable pub called_from_worker_thread : ℕ → Impl D → Bool
  unfolding is_self
  called_from_worker_thread self impl = not impl.worker_exited && is_self self impl.active_worker_id

  -- the client is to stop, and its session is closed
  unfoldable pub request_stop : Impl D → Impl D
  request_stop impl = record impl { stopping = true; session_started = false }

  -- `if (!faulted()) health_.state = ClientState::Stopped`
  show_stopped : Impl D → Impl D
  show_stopped impl =
      if not (faulted impl.fault_latch)
      then record impl { health = record (impl.health) { state = ClientState.stopped } }
      else impl

  -- by `worker_.joinable()`
  take_worker : Option ℕ → Impl D → StopStep D
  unfolding show_stopped
  take_worker none impl = stop_returns (show_stopped impl)
  take_worker (some w) impl = stop_joins w (record impl { joining = true; worker = none })

  -- the first section of `stop`
  unfoldable pub stop_section : ℕ → Impl D → StopStep D
  unfolding request_stop take_worker
  stop_section self before =
      let impl = request_stop before in
      if called_from_worker_thread self impl
      then stop_returns impl
      else if impl.joining
      then stop_waits impl
      else take_worker impl.worker impl

  -- the section behind the join
  unfoldable pub stop_joined : Impl D → Impl D
  unfolding show_stopped
  stop_joined impl = record (show_stopped impl) { active_worker_id = none; joining = false }

  -- the last section of `start`, behind its join
  unfoldable pub start_joined : Impl D → Impl D
  start_joined impl = record impl { active_worker_id = none; joining = false }

  -- by the fault that was latched before
  restore_fault : FaultCode → Impl D → Impl D → Impl D
  restore_fault FaultCode.none previous impl = record impl { fault_latch = FaultLatch.empty }
  restore_fault code previous impl =
      let (won, latch, health) =
        publish FaultLatch.empty code previous.health.last_error impl.health in
      record impl { fault_latch = latch; health = health }

  -- the handler, with the members as they were before
  unfoldable pub restore : Impl D → Impl D → Impl D
  unfolding restore_fault
  restore previous impl = restore_fault previous.fault_latch.code previous (record impl {
    stopping = previous.stopping;
    worker_exited = previous.worker_exited;
    callback = previous.callback;
    last_delivery_at = previous.last_delivery_at;
    health = previous.health;
    latest = previous.latest;
    last_record_at = previous.last_record_at;
    generation = previous.generation;
    delivered_generation = previous.delivered_generation;
    receive_times = previous.receive_times;
    delivery_times = previous.delivery_times;
    consecutive_malformed = previous.consecutive_malformed;
  })

module _ (F : Floats) where
  open F use {Double, of_int}

  -- the members that a new run starts from
  unfoldable pub reset_run : Option ℕ → Impl Double → Impl Double
  reset_run callback impl = record impl {
    last_delivery_at = 0;
    fault_latch = FaultLatch.reset impl.fault_latch;
    health = record (impl.health) {
      state = ClientState.connecting;
      fault_code = FaultCode.none;
      last_error = [];
      receive_rate_hz = of_int (pos 0);
      delivery_rate_hz = of_int (pos 0);
    };
    latest = none;
    last_record_at = 0;
    generation = u64 (impl.generation + 1);
    delivered_generation = 0;
    receive_times = [];
    delivery_times = [];
    consecutive_malformed = 0;
    stopping = false;
    worker_exited = false;
    callback = callback;
  }

  -- by what `create_worker_thread` does: a thread, or an exception
  create_worker : Option ℕ → Option ℕ → Impl Double → StartStep Double
  create_worker callback none impl = not_started (restore impl (reset_run callback impl))
  create_worker callback (some w) impl =
      started w (record (reset_run callback impl) { worker = some w; active_worker_id = some w })

  -- by `worker_.joinable()`
  start_with : Option ℕ → Option ℕ → Option ℕ → Impl Double → StartStep Double
  unfolding create_worker
  start_with none callback created impl = create_worker callback created impl
  start_with (some w) callback created impl =
      if not impl.worker_exited
      then (if not (faulted impl.fault_latch) then already_running impl else waits_for_exit impl)
      else start_joins w (record impl { joining = true; worker = none })

  -- `start` from `worker_.joinable()` on, when nobody joins
  unfoldable pub start_section : Option ℕ → Option ℕ → Impl Double → StartStep Double
  unfolding start_with
  start_section callback created impl = start_with impl.worker callback created impl

  -- a whole round of the loop, from the top
  unfoldable pub start_round : ℕ → Option ℕ → Option ℕ → Impl Double → StartStep Double
  start_round self callback created impl =
      if called_from_worker_thread self impl
      then already_running impl
      else if impl.joining
      then waits_for_join impl
      else start_section callback created impl
