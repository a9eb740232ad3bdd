-- ===== src/Client/Delivery.antt =====
-- The rest of `handle_record` (src/detail/client_impl.cpp): the sample is made, handed to the
-- callback with no lock held, and recorded as delivered.
pub mod Handling
pub mod Sound
pub mod Policies
use netft_cpp.Base.{
  ℕ, ◌+◌, Bool, true, false, not, ◌&&◌, List, [], ◌∷◌, ◌++◌, Option, none, some, if◌then◌else◌,
  length, u64,
}
use netft_cpp.Base.Int.{ℤ}
use netft_cpp.Base.Text.{Bytes, codes}
use netft_cpp.Floats.{Floats}
use netft_cpp.Protocol.{RawRecord}
use netft_cpp.Types.{Calibration, SensorConfiguration, RecoveryPolicy, HealthSnapshot, Sample}
use netft_cpp.Client.Outcome.{SessionResult}
use netft_cpp.Client.Rates.{prune_rate_window}
use netft_cpp.Client.Record.{Accepted, unconfigured, accepted, accept_record}
use netft_cpp.Client.State.{Impl}

-- How the callback ends: it returns, throws a `std::exception` with its text, or throws something
-- else.
pub data CallbackEnd : Type 0 where
  returned : CallbackEnd
  threw : Bytes → CallbackEnd
  threw_unknown : CallbackEnd

-- The callback runs with no lock held: while it runs it may call the client, and so may other
-- threads, so it also changes the client's state.
abbrev pub Callback : Type 0 → Type 0
Callback D = Sample D → Impl D → CallbackEnd × Impl D

-- The end of `handle_record`: the exception on a client with no configuration, or its result.
pub data Handled (D : Type 0) : Type 0 where
  threw_logic_error : Impl D → Handled D
  handled : Impl D → Option SessionResult → Handled D

-- `outcome || policy == Reconnect ? outcome : Callback`
unfoldable pub callback_failure_outcome :
    Option SessionResult → RecoveryPolicy → Option SessionResult
callback_failure_outcome (some result) policy = some result
callback_failure_outcome none RecoveryPolicy.reconnect = none
callback_failure_outcome none RecoveryPolicy.fail_stop = some SessionResult.callback

module _ {D : Type 0} where
  unfoldable pub record_callback_error : Bytes → Impl D → Impl D
  record_callback_error message impl = record impl {
    health = record (impl.health) {
      callback_error_count = u64 (impl.health.callback_error_count + 1);
      last_error = message;
    };
  }

module _ (F : Floats) where
  open F use {Double, is_finite, of_int, of_nat, div}

  pub scale : Double → ℤ → Double
  scale counts raw = div (of_int raw) counts

  -- `std::all_of(…, finite)`
  all_finite : List Double → Bool
  all_finite [] = true
  all_finite (x ∷ xs) = is_finite x && all_finite xs

  unfoldable pub make_sample : SensorConfiguration Double → RawRecord → ℕ → Sample Double
  unfolding scale
  make_sample configuration r received_at = record {
    rdt_sequence = r.rdt_sequence;
    ft_sequence = r.ft_sequence;
    status = r.status;
    raw_wrench = r.fx ∷ r.fy ∷ r.fz ∷ r.tx ∷ r.ty ∷ r.tz ∷ [];
    force =
        scale configuration.calibration.counts_per_force_unit r.fx
        ∷ scale configuration.calibration.counts_per_force_unit r.fy
        ∷ scale configuration.calibration.counts_per_force_unit r.fz
        ∷ [];
    torque =
        scale configuration.calibration.counts_per_torque_unit r.tx
        ∷ scale configuration.calibration.counts_per_torque_unit r.ty
        ∷ scale configuration.calibration.counts_per_torque_unit r.tz
        ∷ [];
    force_unit = configuration.calibration.force_unit;
    torque_unit = configuration.calibration.torque_unit;
    configuration_revision = configuration.revision;
    received_at = received_at;
  }

  unfoldable pub is_sound : Sample Double → Bool
  unfolding all_finite
  is_sound sample = all_finite sample.force && all_finite sample.torque

  -- the block after the callback, under the record and data locks
  unfoldable pub note_delivery : Sample Double → ℕ → Impl Double → Impl Double
  note_delivery sample received_at impl =
      let times = prune_rate_window (impl.delivery_times ++ (received_at ∷ [])) received_at in
      record impl {
        last_delivery_at = received_at;
        latest = some sample;
        health = record (impl.health) {
          delivered_count = u64 (impl.health.delivered_count + 1);
          delivery_rate_hz = of_nat (length times);
        };
        delivery_times = times;
        delivered_generation = impl.generation;
      }

  -- by how the callback ended
  after_callback :
      Sample Double → ℕ → Option SessionResult → CallbackEnd → Impl Double → Handled Double
  after_callback sample received_at outcome returned impl =
      handled (note_delivery sample received_at impl) outcome
  after_callback sample received_at outcome (threw message) impl =
      handled (record_callback_error message impl)
        (callback_failure_outcome outcome impl.config.recovery_policy)
  after_callback sample received_at outcome threw_unknown impl =
      handled (record_callback_error (codes "sample callback failed") impl)
        (callback_failure_outcome outcome impl.config.recovery_policy)

  -- `if (callback) callback(sample)`
  call : Option (Callback Double) → Sample Double → Impl Double → CallbackEnd × Impl Double
  call none sample impl = (returned, impl)
  call (some callback) sample impl = callback sample impl

  pub deliver_sample :
      Option (Callback Double) → Sample Double → Impl Double → Option SessionResult → Handled Double
  deliver_sample callback sample impl outcome =
      let (end, impl') = call callback sample impl in
      after_callback sample sample.received_at outcome end impl'

  -- from the release of the record lock on
  finish_record : Option (Callback Double) → RawRecord → ℕ → Accepted Double → Handled Double
  finish_record callback r received_at (unconfigured impl) = threw_logic_error impl
  finish_record callback r received_at (accepted impl configuration deliver outcome) =
      let sample = make_sample configuration r received_at in
      if not deliver
      then handled impl outcome
      else if not (is_sound sample)
      then handled impl (some SessionResult.sensor_configuration)
      else deliver_sample callback sample impl outcome

  unfoldable pub handle_record :
      Option (Callback Double) → Impl Double → RawRecord → ℕ → Handled Double
  unfolding finish_record deliver_sample call after_callback
  handle_record callback impl r received_at =
      finish_record callback r received_at (accept_record F impl r received_at)
