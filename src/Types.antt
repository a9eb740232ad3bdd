-- ===== src/Types.antt =====
-- include/netft/types.hpp: the data types of the interface. `D` is the type `double`; a time point
-- is its number of clock ticks, and a string is its bytes.
pub mod Faults
pub mod Names
pub mod Validate
use netft_cpp.Base.{ℕ, Bool, List, Option}
use netft_cpp.Base.Int.{ℤ}
use netft_cpp.Base.Text.{Bytes}
use Faults.{FaultCode}

pub data ForceUnit : Type 0 where
  unknown pound_force newton kilo_pound_force kilo_newton kilogram_force : ForceUnit

pub data TorqueUnit : Type 0 where
  unknown pound_force_inch pound_force_foot newton_meter newton_millimeter : TorqueUnit
  kilogram_force_centimeter kilo_newton_meter : TorqueUnit

pub data CalibrationSource : Type 0 where
  sensor override : CalibrationSource

pub data RecoveryPolicy : Type 0 where
  reconnect fail_stop : RecoveryPolicy

pub data ClientState : Type 0 where
  stopped connecting streaming backoff faulted : ClientState

pub record Calibration (D : Type 0) : Type 0 where
  pub counts_per_force_unit : D
  pub counts_per_torque_unit : D
  pub force_unit : ForceUnit
  pub torque_unit : TorqueUnit

pub record SensorConfiguration (D : Type 0) : Type 0 where
  pub product_name : Bytes
  pub calibration : Calibration D
  pub source : CalibrationSource
  pub revision : ℕ

pub record Config (D : Type 0) : Type 0 where
  pub sensor_host : Bytes
  pub rdt_port : ℤ
  pub http_port : ℤ
  pub receive_timeout : D
  pub configuration_connect_timeout : D
  pub configuration_timeout : D
  pub reconnect_initial_delay : D
  pub reconnect_max_delay : D
  pub sample_rate_limit_hz : D
  pub deliver_samples_with_error_status : Bool
  pub recovery_policy : RecoveryPolicy
  pub calibration_override : Option (Calibration D)

pub record Sample (D : Type 0) : Type 0 where
  pub rdt_sequence : ℕ
  pub ft_sequence : ℕ
  pub status : ℕ
  pub raw_wrench : List ℤ
  pub force : List D
  pub torque : List D
  pub force_unit : ForceUnit
  pub torque_unit : TorqueUnit
  pub configuration_revision : ℕ
  pub received_at : ℕ

pub record HealthSnapshot (D : Type 0) : Type 0 where
  pub state : ClientState
  pub fault_code : FaultCode
  pub sensor_host : Bytes
  pub rdt_port : ℤ
  pub sensor_configuration : Option (SensorConfiguration D)
  pub last_rdt_sequence : Option ℕ
  pub last_ft_sequence : Option ℕ
  pub last_status : ℕ
  pub receive_rate_hz : D
  pub delivery_rate_hz : D
  pub received_count : ℕ
  pub delivered_count : ℕ
  pub rate_limited_count : ℕ
  pub device_error_count : ℕ
  pub warning_count : ℕ
  pub lost_count : ℕ
  pub duplicate_count : ℕ
  pub out_of_order_count : ℕ
  pub malformed_count : ℕ
  pub reconnect_count : ℕ
  pub timeout_count : ℕ
  pub callback_error_count : ℕ
  pub ft_stall_count : ℕ
  pub ft_backward_count : ℕ
  pub ft_restart_count : ℕ
  pub calibration_change_count : ℕ
  pub last_record_age : Option D
  pub last_error : Bytes
  pub last_ft_progress : Bytes
