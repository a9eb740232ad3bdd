-- ===== src/Examples/Fixtures.antt =====
-- A client that streams, and what it runs with.
use netft_cpp.Base.{ℕ, [], ◌∷◌, none, some, true, false, refl}
use netft_cpp.Base.Int.{pos, negsuc}
use netft_cpp.Base.Text.{codes}
use netft_cpp.Client.State.{Impl}
use netft_cpp.Examples.Numbers.{Number, numbers, whole}
use netft_cpp.FaultLatch.{empty}
use netft_cpp.Protocol.{RawRecord}
use netft_cpp.Types.{
  Calibration, SensorConfiguration, CalibrationSource, Config, RecoveryPolicy, HealthSnapshot,
  ForceUnit, TorqueUnit, ClientState,
}
use netft_cpp.Types.Faults.{FaultCode}
use netft_cpp.Types.Validate.Accepted.{IsCalibration}

abbrev pub calibration : Calibration Number
calibration = record {
  counts_per_force_unit = whole 1000000;
  counts_per_torque_unit = whole 1000;
  force_unit = ForceUnit.newton;
  torque_unit = TorqueUnit.newton_meter;
}

pub calibration-IsCalibration : IsCalibration numbers calibration
calibration-IsCalibration = record {
  safe_force = record { finite = refl; positive = refl; large_enough = refl };
  safe_torque = record { finite = refl; positive = refl; large_enough = refl };
  known_force = λ e. cc;
  known_torque = λ e. cc;
}

abbrev pub configuration : SensorConfiguration Number
configuration = record {
  product_name = codes "Net F/T";
  calibration = calibration;
  source = CalibrationSource.sensor;
  revision = 1;
}

abbrev pub config : Config Number
config = record {
  sensor_host = codes "192.168.1.1";
  rdt_port = pos 49152;
  http_port = pos 80;
  receive_timeout = whole 1;
  configuration_connect_timeout = whole 2;
  configuration_timeout = whole 5;
  reconnect_initial_delay = whole 1;
  reconnect_max_delay = whole 8;
  sample_rate_limit_hz = whole 0;
  deliver_samples_with_error_status = false;
  recovery_policy = RecoveryPolicy.reconnect;
  calibration_override = none;
}

abbrev pub health : HealthSnapshot Number
health = record {
  state = ClientState.streaming;
  fault_code = FaultCode.none;
  sensor_host = codes "192.168.1.1";
  rdt_port = pos 49152;
  sensor_configuration = some configuration;
  last_rdt_sequence = some 6;
  last_ft_sequence = some 100;
  last_status = 0;
  receive_rate_hz = whole 0;
  delivery_rate_hz = whole 0;
  received_count = 5;
  delivered_count = 4;
  rate_limited_count = 0;
  device_error_count = 0;
  warning_count = 0;
  lost_count = 0;
  duplicate_count = 0;
  out_of_order_count = 0;
  malformed_count = 0;
  reconnect_count = 0;
  timeout_count = 0;
  callback_error_count = 0;
  ft_stall_count = 0;
  ft_backward_count = 0;
  ft_restart_count = 0;
  calibration_change_count = 0;
  last_record_age = none;
  last_error = [];
  last_ft_progress = codes "forward";
}

abbrev pub impl : Impl Number
impl = record {
  config = config;
  worker = some 1;
  active_worker_id = some 1;
  joining = false;
  callback = some 1;
  rdt_sequence = record { has_last = true; previous = 6 };
  ft_sequence = record {
    has_last = true;
    previous = 100;
    has_restart_candidate = false;
    restart_candidate = 0;
  };
  stopping = false;
  worker_exited = false;
  session_started = true;
  fault_latch = empty;
  health = health;
  latest = none;
  last_delivery_at = 4000;
  last_record_at = 5000;
  generation = 1;
  delivered_generation = 1;
  receive_times = 1000 ∷ 5000 ∷ [];
  delivery_times = 4000 ∷ [];
  consecutive_malformed = 0;
}

-- a record with the sequence numbers and the status
abbrev pub raw_record : ℕ → ℕ → ℕ → RawRecord
raw_record rdt ft status = record {
  rdt_sequence = rdt;
  ft_sequence = ft;
  status = status;
  fx = pos 2000000;
  fy = negsuc 3999999;
  fz = pos 0;
  tx = pos 5000;
  ty = pos 0;
  tz = negsuc 999;
}
