-- ===== src/Client/Run.antt =====
-- `run`, the opening of `receive_session`, `close_session`, `finish_session` and `set_fault` of
-- src/detail/client_impl.cpp. What a session meets is given by a record, as for the rounds of the
-- loop; what the transport sends has no effect on the client's state.
pub mod Endings
pub mod Backoff
use netft_cpp.Base.{
  ℕ, ◌+◌, Bool, true, false, not, ◌&&◌, ◌||◌, List, [], ◌∷◌, Option, none, some, Result, ok, err,
  if◌then◌else◌, u64,
}
use netft_cpp.Base.Int.{pos}
use netft_cpp.Base.Text.{Bytes, equal}
use netft_cpp.Client.Configuration.{
  DiscoveryOptions, configuration_for_session, apply_configuration,
}
use netft_cpp.Client.Delivery.{Callback}
use netft_cpp.Client.Outcome.{SessionResult, fault_for, message_for}
use netft_cpp.Client.Session.{
  SessionOutcome, Round, LoopStep, continues, ends, throws, outcome, receive_loop,
}
use netft_cpp.Client.State.{Impl}
use netft_cpp.FaultLatch.{publish, faulted}
use netft_cpp.Floats.{Floats, LongFloats}
use netft_cpp.Sequence.Ft
use netft_cpp.Sequence.Rdt
use netft_cpp.Time.{TimeError, checked_deadline}
use netft_cpp.Types.{ClientState, RecoveryPolicy, SensorConfiguration}
use netft_cpp.Types.Faults.{FaultCode}

-- What a session meets, in order: the readings of `stopping_`, discovery, which may throw a
-- `DiscoveryError` with its text or something else, the transport's `connect` and `send`, the clock,
-- and the rounds of the loop.
pub record Session (D : Type 0) : Type 0 where
  pub stopping_first : Bool
  pub discover_sensor : DiscoveryOptions D → Result (Option Bytes) (SensorConfiguration D)
  pub stopping_in_discovery : Bool
  pub stopping_second : Bool
  pub connected : Result Bytes (Unit {0})
  pub stopping_third : Bool
  pub sent : Result Bytes (Unit {0})
  pub stopping_in_catch : Bool
  pub started_at : ℕ
  pub rounds : List (Round D)

-- A turn of the loop of `run`: the condition, the session, the test behind it and the clock at the
-- wait. The last two are read by the handlers of `run`.
pub record Turn (D : Type 0) : Type 0 where
  pub stopping : Bool
  pub session : Session D
  pub stopping_behind : Bool
  pub waits_at : ℕ
  pub stopping_in_handler : Bool
  pub thrown : Bytes

-- After a turn the loop goes on with a delay, is still in its session, or is left.
pub data RunStep (D : Type 0) : Type 0 where
  waits : Impl D → D → RunStep D
  in_session : Impl D → RunStep D
  leaves : Impl D → RunStep D

pub is_stopped : SessionResult → Bool
is_stopped SessionResult.stopped = true
is_stopped _ = false

pub is_fail_stop : RecoveryPolicy → Bool
is_fail_stop RecoveryPolicy.fail_stop = true
is_fail_stop RecoveryPolicy.reconnect = false

module _ {D : Type 0} where
  unfoldable pub set_fault : FaultCode → Bytes → Impl D → Impl D
  set_fault code message impl =
      let (won, latch, health) = publish impl.fault_latch code message impl.health in
      record impl { fault_latch = latch; health = health }

  unfoldable pub close_session : Impl D → Impl D
  close_session impl = record impl { session_started = false }

  unfoldable pub finish_session : Impl D → Impl D
  unfolding close_session
  finish_session impl =
      let exited = record (close_session impl) { worker_exited = true } in
      if not (faulted exited.fault_latch)
      then record exited { health = record (exited.health) { state = ClientState.stopped } }
      else exited

module _ (F : Floats) (L : LongFloats F.Double) (callback : Option (Callback F.Double)) where
  open F use {Double, lt, mul, of_int}

  stopped_session : Impl Double → LoopStep Double
  stopped_session impl = ends impl (outcome SessionResult.stopped [] false)

  from_deadline : Result TimeError ℕ → List (Round Double) → Impl Double → LoopStep Double
  from_deadline (err e) rounds impl = throws impl
  from_deadline (ok deadline) rounds impl = receive_loop F L callback rounds impl deadline false

  -- the trackers are reset, and the loop starts
  start_loop : Session Double → Impl Double → LoopStep Double
  unfolding from_deadline
  start_loop s impl =
      from_deadline (checked_deadline L s.started_at impl.config.receive_timeout) s.rounds
        (record impl {
          session_started = true;
          rdt_sequence = Rdt.reset impl.rdt_sequence;
          ft_sequence = Ft.begin_session impl.ft_sequence;
        })

  socket_failure : Session Double → Bytes → Impl Double → LoopStep Double
  socket_failure s message impl = ends impl (
      outcome (if s.stopping_in_catch then SessionResult.stopped else SessionResult.socket) message
        false)

  on_sent : Result Bytes (Unit {0}) → Session Double → Impl Double → LoopStep Double
  unfolding start_loop socket_failure
  on_sent (err message) s impl = socket_failure s message impl
  on_sent (ok done) s impl = start_loop s impl

  on_connected : Result Bytes (Unit {0}) → Session Double → Impl Double → LoopStep Double
  unfolding on_sent socket_failure stopped_session
  on_connected (err message) s impl = socket_failure s message impl
  on_connected (ok done) s impl =
      if s.stopping_third then stopped_session impl else on_sent s.sent s impl

  on_discovered :
      Result (Option Bytes) (SensorConfiguration Double)
      → Session Double
      → Impl Double
      → LoopStep Double
  unfolding on_connected stopped_session
  on_discovered (err none) s impl = throws impl
  on_discovered (err (some message)) s impl = ends impl (
      outcome
        (if s.stopping_in_discovery
          then SessionResult.stopped
          else SessionResult.sensor_configuration)
        message false)
  on_discovered (ok configuration) s impl =
      let configured = apply_configuration F impl configuration in
      if s.stopping_second
      then stopped_session configured
      else on_connected s.connected s configured

  unfoldable pub receive_session : Session Double → Impl Double → LoopStep Double
  unfolding on_discovered stopped_session
  receive_session s impl =
      let connecting = record impl {
        health = record (impl.health) { state = ClientState.connecting };
      } in
      if s.stopping_first
      then stopped_session connecting
      else on_discovered (configuration_for_session s.discover_sensor connecting.config) s
          connecting

  -- the handlers of `run`
  on_exception : Turn Double → Impl Double → RunStep Double
  on_exception turn impl =
      leaves
        (if turn.stopping_in_handler then impl else set_fault FaultCode.socket turn.thrown impl)

  -- `std::min(backoff * 2.0, config_.reconnect_max_delay)`
  pub next_delay : Double → Double → Double
  next_delay delay limit =
      let doubled = mul delay (of_int (pos 2)) in if lt limit doubled then limit else doubled

  wait_for : Result TimeError ℕ → Turn Double → Double → Impl Double → RunStep Double
  unfolding on_exception next_delay
  wait_for (err e) turn delay impl = on_exception turn impl
  wait_for (ok deadline) turn delay impl =
      waits impl (next_delay delay impl.config.reconnect_max_delay)

  -- The body of the loop behind `close_session`.
  unfoldable pub conclude : Turn Double → SessionOutcome → Impl Double → Double → RunStep Double
  unfolding wait_for is_stopped is_fail_stop
  conclude turn o impl backoff =
      let message = if equal o.message [] then message_for o.result else o.message in
      let delay =
        if o.received_valid_record then impl.config.reconnect_initial_delay else backoff in
      if not (is_stopped o.result) && is_fail_stop impl.config.recovery_policy
      then leaves (set_fault (fault_for o.result) message impl)
      else if is_stopped o.result || turn.stopping_behind
      then leaves impl
      else wait_for (checked_deadline L turn.waits_at delay) turn delay (record impl {
        health = record (impl.health) {
          last_error = message;
          state = ClientState.backoff;
          reconnect_count = u64 (impl.health.reconnect_count + 1);
        };
      })

  -- by how the session ended
  on_session : Turn Double → LoopStep Double → Double → RunStep Double
  unfolding on_exception
  on_session turn (continues impl deadline received) backoff = in_session impl
  on_session turn (throws impl) backoff = on_exception turn impl
  on_session turn (ends impl o) backoff = conclude turn o (close_session impl) backoff

  unfoldable pub run_turn : Turn Double → Impl Double → Double → RunStep Double
  unfolding on_session
  run_turn turn impl backoff =
      if turn.stopping || faulted impl.fault_latch
      then leaves impl
      else on_session turn (receive_session turn.session impl) backoff

  run_on : (Impl Double → Double → RunStep Double) → RunStep Double → RunStep Double
  run_on again (waits impl delay) = again impl delay
  run_on again (in_session impl) = in_session impl
  run_on again (leaves impl) = leaves (finish_session impl)

  run_loop : List (Turn Double) → Impl Double → Double → RunStep Double
  unfolding run_on
  run_loop [] impl backoff = waits impl backoff
  run_loop (turn ∷ turns) impl backoff = run_on (run_loop turns) (run_turn turn impl backoff)

  unfoldable pub run : List (Turn Double) → Impl Double → RunStep Double
  unfolding run_loop
  run turns impl = run_loop turns impl impl.config.reconnect_initial_delay
