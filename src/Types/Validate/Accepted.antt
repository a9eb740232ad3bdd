-- ===== src/Types/Validate/Accepted.antt =====
-- What a calibration and a configuration that `validate` accepts satisfy.
use netft_cpp.Base.{
  ℕ, ◌+◌, ◌-◌, ◌^◌, ◌<◌, ◌≡◌, ◌≢◌, ◌↔◌, refl, Bool, true, false, not, ◌&&◌, ◌||◌, Option, none,
  some, ok, guard, >>=-eq-ok, leb, arith,
}
use netft_cpp.Base.Int.{pos, leb_ℤ}
use netft_cpp.Floats.{Floats, LongFloats}
use netft_cpp.Time.{checked_duration, checked_deadline}
use netft_cpp.Types.{ForceUnit, TorqueUnit, Calibration, Config}
use netft_cpp.Types.Validate.{
  FieldName, below_resolution, blank_host, max_below_initial, bad_rate_limit, require_port,
  is_blank, require_positive_finite, minimum_count, require_safe_count, validate_calibration,
  require_safe_timeout, check_override, validate_config, as_argument, is_unknown_force,
  is_unknown_torque,
}

module _ (F : Floats) where
  open F use {Double, is_finite, lt, le, of_int}

  -- A count that divides the counts of a record without leaving the finite range.
  pub record IsSafeCount (value : Double) : Type 0 where
    pub finite : is_finite value ≡ true
    pub positive : le value (of_int (pos 0)) ≡ false
    pub large_enough : lt value (minimum_count F) ≡ false

  pub record IsCalibration (c : Calibration Double) : Type 0 where
    pub safe_force : IsSafeCount c.counts_per_force_unit
    pub safe_torque : IsSafeCount c.counts_per_torque_unit
    pub known_force : c.force_unit ≢ ForceUnit.unknown
    pub known_torque : c.torque_unit ≢ TorqueUnit.unknown

  guard-ok : {E : Type 0} (b : Bool) (e : E) → guard b e ≡ ok tt → b ≡ true
  guard-ok true e h = refl
  guard-ok false e h = cc

  require_safe_count_iff :
      (name : FieldName) (value : Double)
      → (require_safe_count F name value ≡ ok tt) ↔ IsSafeCount value
  unfolding require_safe_count require_positive_finite
  require_safe_count_iff name value = (
    λ e. record { finite = ground arith; positive = ground arith; large_enough = ground arith },
    λ h. ground (arith, h.finite, h.positive, h.large_enough),
  )

  known_iff :
      (f : ForceUnit) (t : TorqueUnit)
      → ((is_unknown_force f || is_unknown_torque t) ≡ false)
        ↔ ((f ≢ ForceUnit.unknown) × (t ≢ TorqueUnit.unknown))
  unfolding is_unknown_force is_unknown_torque
  known_iff f t = ground arith

  -- A calibration is accepted exactly when both counts are finite, positive and at least the minimum
  -- that keeps scaled counts finite, and neither unit is unknown.
  pub validate_calibration_iff :
      (c : Calibration Double) → (validate_calibration F c ≡ ok tt) ↔ IsCalibration c
  unfolding validate_calibration
  validate_calibration_iff c = (accepted, accepts)
    where
      accepted : validate_calibration F c ≡ ok tt → IsCalibration c
      accepted e =
          let (_, force, e1) = >>=-eq-ok (require_safe_count F _ c.counts_per_force_unit) _ e in
          let (_, torque, e2) = >>=-eq-ok (require_safe_count F _ c.counts_per_torque_unit) _ e1 in
          let units : (is_unknown_force c.force_unit || is_unknown_torque c.torque_unit) ≡ false =
            ground arith in
          let known = (known_iff c.force_unit c.torque_unit).0 units in
          record {
            safe_force = (require_safe_count_iff _ c.counts_per_force_unit).0 force;
            safe_torque = (require_safe_count_iff _ c.counts_per_torque_unit).0 torque;
            known_force = known.0;
            known_torque = known.1;
          }

      accepts : IsCalibration c → validate_calibration F c ≡ ok tt
      accepts h = rw (
        (require_safe_count_iff FieldName.counts_per_force_unit c.counts_per_force_unit).1
            h.safe_force,
        (require_safe_count_iff FieldName.counts_per_torque_unit c.counts_per_torque_unit).1
            h.safe_torque,
        (known_iff c.force_unit c.torque_unit).1 (h.known_force, h.known_torque),
      )

  -- What overrides the sensor's calibration, if anything does, is a calibration.
  abbrev pub IsOverride : Option (Calibration Double) → Type 0
  IsOverride none = Unit {0}
  IsOverride (some c) = IsCalibration c

  module _ (L : LongFloats Double) where
    open L use {Long, long_of, long_of_nat, long_le, long_mul, ceil, is_space}

    -- A timeout that can be waited for: it takes at least one tick, and the deadline that it gives at
    -- `now` lies on the clock. One for HTTP also fits a `long` of milliseconds.
    pub record IsSafeTimeout (now : ℕ) (value : Double) (http : Bool) : Type 0 where
      pub positive : le value (of_int (pos 0)) ≡ false
      pub ticks : ℕ
      pub converted : checked_duration L value ≡ ok ticks
      pub lasting : 0 < ticks
      pub deadline : checked_deadline L now value ≡ ok (now + ticks)
      pub fits :
          (http
            && long_le
                (long_of_nat (2 ^ 63 - 1))
                (ceil (long_mul (long_of value) (long_of_nat 1000))))
          ≡ false

    require_safe_timeout-ok :
        (now : ℕ) (name : FieldName) (value : Double) (http : Bool)
        → require_safe_timeout F L now name value http ≡ ok tt
        → IsSafeTimeout now value http
    unfolding require_safe_timeout require_positive_finite as_argument checked_deadline
    require_safe_timeout-ok now name value http e =
        let (_, positive, e1) = >>=-eq-ok (require_positive_finite F name value) _ e in
        let (ticks, timed, e2) = >>=-eq-ok (as_argument (checked_duration L value)) _ e1 in
        let (_, lasting, e3) = >>=-eq-ok (guard (not (leb ticks 0)) (below_resolution name)) _ e2 in
        let (deadline, timed_too, e4) =
          >>=-eq-ok (as_argument (checked_deadline L now value)) _ e3 in
        record {
          positive = ground arith;
          ticks = ticks;
          converted = ground arith;
          lasting = ground arith;
          deadline = ground arith;
          fits = ground arith;
        }

    -- What an accepted configuration satisfies, at the clock readings `now`.
    pub record IsConfig (now : FieldName → ℕ) (c : Config Double) : Type 0 where
      pub host : is_blank is_space c.sensor_host ≡ false
      pub rdt : (leb_ℤ (pos 1) c.rdt_port && leb_ℤ c.rdt_port (pos 65535)) ≡ true
      pub http : (leb_ℤ (pos 1) c.http_port && leb_ℤ c.http_port (pos 65535)) ≡ true
      pub receive : IsSafeTimeout (now FieldName.receive_timeout) c.receive_timeout false
      pub connect :
          IsSafeTimeout
            (now FieldName.configuration_connect_timeout)
            c.configuration_connect_timeout
            true
      pub discovery :
          IsSafeTimeout (now FieldName.configuration_timeout) c.configuration_timeout true
      pub initial_delay :
          IsSafeTimeout (now FieldName.reconnect_initial_delay) c.reconnect_initial_delay false
      pub max_delay : IsSafeTimeout (now FieldName.reconnect_max_delay) c.reconnect_max_delay false
      pub ordered : lt c.reconnect_max_delay c.reconnect_initial_delay ≡ false
      pub rate_finite : is_finite c.sample_rate_limit_hz ≡ true
      pub rate_positive : lt c.sample_rate_limit_hz (of_int (pos 0)) ≡ false
      pub override : IsOverride c.calibration_override

    -- An accepted configuration names a host, two ports from 1 to 65535 and five timeouts that can be
    -- waited for, its delays are in order, its rate limit is finite and not negative, and the
    -- calibration that it may override the sensor's with is a valid one.
    pub validate_config-IsConfig :
        (now : FieldName → ℕ) (c : Config Double)
        → validate_config F L now c ≡ ok tt
        → IsConfig now c
    unfolding validate_config require_port check_override
    validate_config-IsConfig now c e =
        let (_, e1, f1) =
          >>=-eq-ok (guard (not (is_blank is_space c.sensor_host)) blank_host) _ e in
        let (_, e2, f2) = >>=-eq-ok (require_port _ c.rdt_port) _ f1 in
        let (_, e3, f3) = >>=-eq-ok (require_port _ c.http_port) _ f2 in
        let (_, e4, f4) =
          >>=-eq-ok
            (require_safe_timeout F L (now FieldName.receive_timeout) FieldName.receive_timeout
              c.receive_timeout false)
            _ f3 in
        let (_, e5, f5) =
          >>=-eq-ok
            (require_safe_timeout F L (now FieldName.configuration_connect_timeout)
              FieldName.configuration_connect_timeout c.configuration_connect_timeout true)
            _ f4 in
        let (_, e6, f6) =
          >>=-eq-ok
            (require_safe_timeout F L (now FieldName.configuration_timeout)
              FieldName.configuration_timeout c.configuration_timeout true)
            _ f5 in
        let (_, e7, f7) =
          >>=-eq-ok
            (require_safe_timeout F L (now FieldName.reconnect_initial_delay)
              FieldName.reconnect_initial_delay c.reconnect_initial_delay false)
            _ f6 in
        let (_, e8, f8) =
          >>=-eq-ok
            (require_safe_timeout F L (now FieldName.reconnect_max_delay)
              FieldName.reconnect_max_delay c.reconnect_max_delay false)
            _ f7 in
        let (_, e9, f9) =
          >>=-eq-ok
            (guard (not (lt c.reconnect_max_delay c.reconnect_initial_delay)) max_below_initial) _
            f8 in
        let (_, e10, f10) =
          >>=-eq-ok
            (guard
              (not (
                not (is_finite c.sample_rate_limit_hz)
                || lt c.sample_rate_limit_hz (of_int (pos 0))))
              bad_rate_limit)
            _ f9 in
        record {
          host = ground arith;
          rdt = ground arith;
          http = ground arith;
          receive = require_safe_timeout-ok _ _ c.receive_timeout _ e4;
          connect = require_safe_timeout-ok _ _ c.configuration_connect_timeout _ e5;
          discovery = require_safe_timeout-ok _ _ c.configuration_timeout _ e6;
          initial_delay = require_safe_timeout-ok _ _ c.reconnect_initial_delay _ e7;
          max_delay = require_safe_timeout-ok _ _ c.reconnect_max_delay _ e8;
          ordered = ground arith;
          rate_finite = ground arith;
          rate_positive = ground arith;
          override = accepted c.calibration_override f10;
        }
      where
        accepted : (o : Option (Calibration Double)) → check_override F L o ≡ ok tt → IsOverride o
        accepted none f = tt
        accepted (some x) f = (validate_calibration_iff x).0 f
