-- ===== src/Client/Commands.antt =====
-- What other threads ask of a client: the constructor, `bias`, `wait_for_first_sample`, `faulted`,
-- `fault_code`, `health` and `latest_sample` of src/detail/client_impl.cpp. `start` and `stop` are in
-- Client/Lifecycle. The hook for tests in `wait_for_first_sample` is left out.
pub mod Bias
pub mod Waiting
pub mod Health
use netft_cpp.Base.{
  ℕ, ◌-◌, Bool, true, false, not, ◌&&◌, ◌||◌, List, [], ◌∷◌, ◌++◌, Option, none, some, Result, ok,
  err, ◌>>=◌, ◌>>◌, if◌then◌else◌, ◌==◌, length,
}
use netft_cpp.Base.Int.{ℤ, pos}
use netft_cpp.Base.Text.{Bytes, codes}
use netft_cpp.Client.Rates.{prune_rate_window}
use netft_cpp.Client.State.{Impl}
use netft_cpp.FaultLatch
use netft_cpp.FaultLatch.{is_fault}
use netft_cpp.Floats.{Floats, LongFloats}
use netft_cpp.Protocol.{start_realtime, set_software_bias, encode_request}
use netft_cpp.Sequence.Rdt
use netft_cpp.Time.{TimeError, checked_deadline}
use netft_cpp.Transport.{Errno, Thrown, UdpTransport, Done, send, Call}
use netft_cpp.Types.{ClientState, Config, HealthSnapshot, Sample}
use netft_cpp.Types.Faults.{FaultCode}
use netft_cpp.Types.Validate.{FieldName, InvalidArgument, validate_config}

is_streaming : ClientState → Bool
is_streaming ClientState.streaming = true
is_streaming _ = false

unfoldable pub faulted : {D : Type 0} → Impl D → Bool
faulted impl = FaultLatch.faulted impl.fault_latch

unfoldable pub fault_code : {D : Type 0} → Impl D → FaultCode
fault_code impl = impl.fault_latch.code

unfoldable pub latest_sample : {D : Type 0} → Impl D → Option (Sample D)
latest_sample impl = impl.latest

-- What `bias` leaves: the client, its transport with the calls made, and how it ended: it throws a
-- `NotConnectedError`, passes on an exception of the transport, or returns.
pub data BiasEnd : Type 0 where
  client_not_streaming : BiasEnd
  send_threw : Thrown → BiasEnd
  biased : BiasEnd

pub record Biased (D : Type 0) : Type 0 where
  pub impl : Impl D
  pub transport : UdpTransport
  pub calls : List Call
  pub end : BiasEnd

-- A return from the wait on the condition variable: what others have changed since, and whether the
-- deadline has passed.
pub record Wake (D : Type 0) : Type 0 where
  pub others : Impl D → Impl D
  pub timed_out : Bool

-- the call throws, returns, or still waits
pub data Waited : Type 0 where
  bad_timeout : TimeError → Waited
  answers : Bool → Waited
  still_waits : Waited

module _ {D : Type 0} where
  -- behind the second request
  finish_bias :
      List Call → Done (Result Thrown (Unit {0})) → Result Thrown (Unit {0}) → Impl D → Biased D
  finish_bias before done (err thrown) impl = record {
    impl = impl;
    transport = done.transport;
    calls = before ++ done.calls;
    end = send_threw thrown;
  }
  finish_bias before done (ok sent) impl = record {
    impl = record impl { rdt_sequence = Rdt.reset impl.rdt_sequence };
    transport = done.transport;
    calls = before ++ done.calls;
    end = biased;
  }

  -- behind the first
  restart_stream :
      Result Errno ℕ
      → Done (Result Thrown (Unit {0}))
      → Result Thrown (Unit {0})
      → Impl D
      → Biased D
  unfolding finish_bias
  restart_stream second done (err thrown) impl = record {
    impl = impl;
    transport = done.transport;
    calls = done.calls;
    end = send_threw thrown;
  }
  restart_stream second done (ok sent) impl =
      let next = send (encode_request start_realtime 0) second done.transport in
      finish_bias done.calls next next.reply impl

  -- By what the system answers to the two requests. Every other use of the transport, but `connect`
  -- and `receive`, waits for the command lock, so the transport stays as it is between them.
  unfoldable pub bias : Result Errno ℕ → Result Errno ℕ → Impl D → UdpTransport → Biased D
  unfolding restart_stream is_streaming
  bias first second impl t =
      if impl.stopping
        || (not impl.session_started || (faulted impl || not (is_streaming impl.health.state)))
      then record { impl = impl; transport = t; calls = []; end = client_not_streaming }
      else let done = send (encode_request set_software_bias 0) first t in
        restart_stream second done done.reply impl

  -- The condition that `wait_for_first_sample` waits for.
  unfoldable pub first_sample_settled : ℕ → Impl D → Bool
  unfolding faulted
  first_sample_settled captured impl =
      not (impl.generation == captured)
      || (impl.delivered_generation == captured || (impl.stopping || faulted impl))

  -- `wait_until` with its predicate; `none` if the thread still waits.
  unfoldable pub wait_until : ℕ → List (Wake D) → Impl D → Option (Impl D)
  wait_until captured [] impl = if first_sample_settled captured impl then some impl else none
  wait_until captured (wake ∷ wakes) impl =
      let next = wake.others impl in
      let rest = wait_until captured wakes next in
      if first_sample_settled captured impl
      then some impl
      else if wake.timed_out
      then some next
      else rest

  -- the last two tests
  decide : ℕ → Option (Impl D) → Waited
  decide captured none = still_waits
  decide captured (some impl) =
      answers (impl.generation == captured && (impl.delivered_generation == captured))

module _ (F : Floats) (L : LongFloats F.Double) where
  open F use {Double, of_int, of_nat, of_ticks}

  -- by the deadline
  wait_for_generation : Result TimeError ℕ → List (Wake Double) → Impl Double → Waited
  unfolding decide
  wait_for_generation (err error) wakes impl = bad_timeout error
  wait_for_generation (ok deadline) wakes impl =
      if impl.generation == 0
      then answers false
      else decide impl.generation (wait_until impl.generation wakes impl)

  unfoldable pub wait_for_first_sample : ℕ → Double → List (Wake Double) → Impl Double → Waited
  unfolding wait_for_generation
  wait_for_first_sample now timeout wakes impl =
      wait_for_generation (checked_deadline L now timeout) wakes impl

  -- The windows are pruned, and the snapshot is returned. `now` is not before the last record.
  unfoldable pub health : ℕ → Impl Double → Impl Double × HealthSnapshot Double
  unfolding fault_code
  health now impl =
      let receive_times = prune_rate_window impl.receive_times now in
      let delivery_times = prune_rate_window impl.delivery_times now in
      let code = fault_code impl in
      (
        record impl { receive_times = receive_times; delivery_times = delivery_times },
        record (impl.health) {
          fault_code = code;
          state = if is_fault code then ClientState.faulted else impl.health.state;
          receive_rate_hz = of_nat (length receive_times);
          delivery_rate_hz = of_nat (length delivery_times);
          last_record_age =
              if not (impl.last_record_at == 0)
              then some (of_ticks (now - impl.last_record_at))
              else impl.health.last_record_age;
        },
      )

  -- the members' default values
  abbrev no_health : HealthSnapshot Double
  no_health = record {
    state = ClientState.stopped;
    fault_code = FaultCode.none;
    sensor_host = [];
    rdt_port = pos 0;
    sensor_configuration = none;
    last_rdt_sequence = none;
    last_ft_sequence = none;
    last_status = 0;
    receive_rate_hz = of_int (pos 0);
    delivery_rate_hz = of_int (pos 0);
    received_count = 0;
    delivered_count = 0;
    rate_limited_count = 0;
    device_error_count = 0;
    warning_count = 0;
    lost_count = 0;
    duplicate_count = 0;
    out_of_order_count = 0;
    malformed_count = 0;
    reconnect_count = 0;
    timeout_count = 0;
    callback_error_count = 0;
    ft_stall_count = 0;
    ft_backward_count = 0;
    ft_restart_count = 0;
    calibration_change_count = 0;
    last_record_age = none;
    last_error = [];
    last_ft_progress = codes "unknown";
  }

  abbrev new_impl : Config Double → Impl Double
  new_impl config = record {
    config = config;
    worker = none;
    active_worker_id = none;
    joining = false;
    callback = none;
    rdt_sequence = record { has_last = false; previous = 0 };
    ft_sequence = record {
      has_last = false;
      previous = 0;
      has_restart_candidate = false;
      restart_candidate = 0;
    };
    stopping = false;
    worker_exited = true;
    session_started = false;
    fault_latch = FaultLatch.empty;
    health = record no_health { sensor_host = config.sensor_host; rdt_port = config.rdt_port };
    latest = none;
    last_delivery_at = 0;
    last_record_at = 0;
    generation = 0;
    delivered_generation = 0;
    receive_times = [];
    delivery_times = [];
    consecutive_malformed = 0;
  }

  -- The constructor; the clock is read once for each timeout.
  unfoldable pub construct : (FieldName → ℕ) → Config Double → Result InvalidArgument (Impl Double)
  construct now config = do validate_config F L now config; ok (new_impl config)
