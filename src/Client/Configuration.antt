-- ===== src/Client/Configuration.antt =====
-- `same_calibration`, `configuration_for_session` and `apply_configuration` of
-- src/detail/client_impl.cpp.
pub mod Revisions
use netft_cpp.Base.{
  ℕ, ◌+◌, Bool, true, false, ◌&&◌, List, [], Option, none, some, Result, ok, err, if◌then◌else◌,
  ◌==◌, u64,
}
use netft_cpp.Base.Int.{ℤ}
use netft_cpp.Base.Text.{Bytes}
use netft_cpp.Floats.{Floats}
use netft_cpp.Types.{
  ForceUnit, TorqueUnit, Calibration, SensorConfiguration, CalibrationSource, sensor, override,
  Config, HealthSnapshot,
}
use netft_cpp.Client.State.{Impl}

-- include/netft/discovery.hpp
pub record DiscoveryOptions (D : Type 0) : Type 0 where
  pub sensor_host : Bytes
  pub http_port : ℤ
  pub connect_timeout : D
  pub total_timeout : D

-- `==` of two enumerators
abbrev force_unit_code : ForceUnit → ℕ
force_unit_code ForceUnit.unknown = 0
force_unit_code ForceUnit.pound_force = 1
force_unit_code ForceUnit.newton = 2
force_unit_code ForceUnit.kilo_pound_force = 3
force_unit_code ForceUnit.kilo_newton = 4
force_unit_code ForceUnit.kilogram_force = 5

abbrev torque_unit_code : TorqueUnit → ℕ
torque_unit_code TorqueUnit.unknown = 0
torque_unit_code TorqueUnit.pound_force_inch = 1
torque_unit_code TorqueUnit.pound_force_foot = 2
torque_unit_code TorqueUnit.newton_meter = 3
torque_unit_code TorqueUnit.newton_millimeter = 4
torque_unit_code TorqueUnit.kilogram_force_centimeter = 5
torque_unit_code TorqueUnit.kilo_newton_meter = 6

module _ (F : Floats) where
  open F use {Double, eq}

  unfoldable pub same_calibration : Calibration Double → Calibration Double → Bool
  same_calibration left right =
      eq left.counts_per_force_unit right.counts_per_force_unit
      && eq left.counts_per_torque_unit right.counts_per_torque_unit
      && force_unit_code left.force_unit == force_unit_code right.force_unit
      && torque_unit_code left.torque_unit == torque_unit_code right.torque_unit

  -- by the configuration that `health_` holds
  revise :
      Option (SensorConfiguration Double)
      → SensorConfiguration Double
      → HealthSnapshot Double
      → HealthSnapshot Double
  revise none configuration health = record health {
    sensor_configuration = some (record configuration { revision = 1 });
  }
  revise (some previous) configuration health =
      if same_calibration previous.calibration configuration.calibration
      then record health {
        sensor_configuration = some (record configuration { revision = previous.revision });
      }
      else record health {
        sensor_configuration =
            some (record configuration { revision = u64 (previous.revision + 1) });
        calibration_change_count = u64 (health.calibration_change_count + 1);
      }

  unfoldable pub apply_configuration : Impl Double → SensorConfiguration Double → Impl Double
  unfolding revise
  apply_configuration impl configuration = record impl {
    health = revise impl.health.sensor_configuration configuration impl.health;
  }

session_options : {D : Type 0} → Config D → DiscoveryOptions D
session_options config = record {
  sensor_host = config.sensor_host;
  http_port = config.http_port;
  connect_timeout = config.configuration_connect_timeout;
  total_timeout = config.configuration_timeout;
}

-- `E` is the exception that discovery may throw.
module _ {D : Type 0} {E : Type 0} where
  -- by the override that the configuration holds
  configuration_from :
      Option (Calibration D)
      → (DiscoveryOptions D → Result E (SensorConfiguration D))
      → Config D
      → Result E (SensorConfiguration D)
  configuration_from (some calibration) discover_sensor config =
      ok (record { product_name = []; calibration = calibration; source = override; revision = 1 })
  configuration_from none discover_sensor config = discover_sensor (session_options config)

  unfoldable pub configuration_for_session :
      (DiscoveryOptions D → Result E (SensorConfiguration D))
      → Config D
      → Result E (SensorConfiguration D)
  unfolding configuration_from session_options
  configuration_for_session discover_sensor config =
      configuration_from config.calibration_override discover_sensor config
