-- ===== src/Types/Validate.antt =====
-- `validate` and its helpers in src/types.cpp.
pub mod Accepted
use netft_cpp.Base.{
  ℕ, ◌+◌, ◌-◌, ◌^◌, Bool, true, false, not, ◌&&◌, ◌||◌, List, [], ◌∷◌, Option, none, some, Result,
  ok, err, ◌>>=◌, ◌>>◌, guard, if◌then◌else◌, leb, ◌==◌,
}
use netft_cpp.Base.Int.{ℤ, pos, leb_ℤ}
use netft_cpp.Base.Text.{Bytes}
use netft_cpp.Floats.{Floats, LongFloats}
use netft_cpp.Time.{TimeError, checked_duration, checked_deadline}
use netft_cpp.Types.{ForceUnit, TorqueUnit, Calibration, Config}

-- The fields that a message names.
pub data FieldName : Type 0 where
  counts_per_force_unit counts_per_torque_unit rdt_port http_port receive_timeout : FieldName
  configuration_connect_timeout configuration_timeout reconnect_initial_delay : FieldName
  reconnect_max_delay : FieldName

-- The messages of the `std::invalid_argument`.
pub data InvalidArgument : Type 0 where
  not_positive below_resolution outside_http bad_port short_of_range : FieldName → InvalidArgument
  bad_time : TimeError → InvalidArgument
  unknown_units blank_host max_below_initial bad_rate_limit : InvalidArgument

abbrev Check : Type 0
Check = Result InvalidArgument (Unit {0})

-- the exceptions of `detail::checked_duration` and `detail::checked_deadline` pass through
as_argument : Result TimeError ℕ → Result InvalidArgument ℕ
as_argument (ok n) = ok n
as_argument (err e) = err (bad_time e)

is_unknown_force : ForceUnit → Bool
is_unknown_force ForceUnit.unknown = true
is_unknown_force _ = false

is_unknown_torque : TorqueUnit → Bool
is_unknown_torque TorqueUnit.unknown = true
is_unknown_torque _ = false

-- `value >= 1 && value <= 65535`
unfoldable pub require_port : FieldName → ℤ → Check
require_port name value = guard (leb_ℤ (pos 1) value && leb_ℤ value (pos 65535)) (bad_port name)

all_space : (ℕ → Bool) → Bytes → Bool
all_space is_space [] = true
all_space is_space (c ∷ cs) = is_space c && all_space is_space cs

-- `value.empty() || std::all_of(…)`: the second test alone accepts the empty text too.
unfoldable pub is_blank : (ℕ → Bool) → Bytes → Bool
unfolding all_space
is_blank is_space [] = true
is_blank is_space (c ∷ cs) = all_space is_space (c ∷ cs)

module _ (F : Floats) where
  open F use {Double, is_finite, lt, le, of_int, of_nat, div, mul, add, max_double, epsilon}

  unfoldable pub require_positive_finite : FieldName → Double → Check
  require_positive_finite name value =
      guard (not (not (is_finite value) || le value (of_int (pos 0)))) (not_positive name)

  -- `minimum`; `magnitude` is 2 ^ 31
  abbrev pub minimum_count : Double
  minimum_count = mul (div (of_nat (2 ^ 31)) max_double) (add (of_int (pos 1)) epsilon)

  unfoldable pub require_safe_count : FieldName → Double → Check
  unfolding require_positive_finite
  require_safe_count name value = do
    require_positive_finite name value
    guard (not (lt value minimum_count)) (short_of_range name)

  unfoldable pub validate_calibration : Calibration Double → Check
  unfolding require_safe_count is_unknown_force is_unknown_torque
  validate_calibration calibration = do
    require_safe_count counts_per_force_unit calibration.counts_per_force_unit
    require_safe_count counts_per_torque_unit calibration.counts_per_torque_unit
    guard
        (not (is_unknown_force calibration.force_unit || is_unknown_torque calibration.torque_unit))
        unknown_units

  module _ (L : LongFloats Double) where
    open L use {Long, long_of, long_of_nat, long_le, long_mul, ceil, is_space}

    -- `std::numeric_limits<long>::max()` is that of a 64-bit `long`. `now` is the clock reading.
    unfoldable pub require_safe_timeout : ℕ → FieldName → Double → Bool → Check
    unfolding require_positive_finite as_argument
    require_safe_timeout now name value http = do
      require_positive_finite name value
      ticks ← as_argument (checked_duration L value)
      guard (not (leb ticks 0)) (below_resolution name)
      deadline ← as_argument (checked_deadline L now value)
      guard
          (not (
            http
            && long_le (long_of_nat (2 ^ 63 - 1))
                (ceil (long_mul (long_of value) (long_of_nat 1000)))))
          (outside_http name)

    check_override : Option (Calibration Double) → Check
    check_override none = ok tt
    check_override (some calibration) = validate_calibration calibration

    -- The clock is read once for each timeout: `now` gives the readings.
    unfoldable pub validate_config : (FieldName → ℕ) → Config Double → Check
    unfolding check_override is_blank require_port require_safe_timeout
    validate_config now config = do
      guard (not (is_blank is_space config.sensor_host)) blank_host
      require_port rdt_port config.rdt_port
      require_port http_port config.http_port
      require_safe_timeout (now receive_timeout) receive_timeout config.receive_timeout false
      require_safe_timeout (now configuration_connect_timeout) configuration_connect_timeout
          config.configuration_connect_timeout true
      require_safe_timeout (now configuration_timeout) configuration_timeout
          config.configuration_timeout true
      require_safe_timeout (now reconnect_initial_delay) reconnect_initial_delay
          config.reconnect_initial_delay false
      require_safe_timeout (now reconnect_max_delay) reconnect_max_delay config.reconnect_max_delay
          false
      guard (not (lt config.reconnect_max_delay config.reconnect_initial_delay)) max_below_initial
      guard
          (not (
            not (is_finite config.sample_rate_limit_hz)
            || lt config.sample_rate_limit_hz (of_int (pos 0))))
          bad_rate_limit
      check_override config.calibration_override
