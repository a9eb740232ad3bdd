-- ===== src/Examples/Settings.antt =====
-- Units, names, configurations and faults.
use netft_cpp.Base.{ℕ, ◌≡◌, refl, [], ◌∷◌, ok}
use netft_cpp.Base.Text.{codes}
use netft_cpp.Client.Configuration.{same_calibration}
use netft_cpp.Client.Configuration.Revisions.{
  apply_all, apply_all-Holds, Holds, changes, last_calibration,
}
use netft_cpp.Examples.Fixtures.{
  calibration, calibration-IsCalibration, configuration, config, health, impl,
}
use netft_cpp.Examples.Numbers.{numbers, long_numbers, whole, Number}
use netft_cpp.FaultLatch.{empty}
use netft_cpp.FaultLatch.FirstWins.{publish_all, publish_first_wins}
use netft_cpp.Time.{checked_duration, checked_deadline}
use netft_cpp.Types.{ClientState, SensorConfiguration}
use netft_cpp.Types.Faults.{FaultCode}
use netft_cpp.Types.Validate.{validate_calibration, validate_config, FieldName}
use netft_cpp.Types.Validate.Accepted.{validate_calibration_iff, validate_config-IsConfig, IsConfig}

validate_calibration_iff_example : validate_calibration numbers calibration ≡ ok tt
validate_calibration_iff_example =
    (validate_calibration_iff numbers calibration).1 calibration-IsCalibration

abbrev clock : FieldName → ℕ
clock _ = 1000

config_accepted : validate_config numbers long_numbers clock config ≡ ok tt
unfolding validate_config checked_duration checked_deadline
config_accepted = refl

validate_config-IsConfig_example : IsConfig numbers long_numbers clock config
validate_config-IsConfig_example =
    validate_config-IsConfig numbers long_numbers clock config config_accepted

publish_first_wins_example :
    publish_all empty
      ((FaultCode.socket, codes "reset") ∷ (FaultCode.callback, codes "late") ∷ [])
      health
    ≡ (
      record { code = FaultCode.socket },
      record health {
        state = ClientState.faulted;
        fault_code = FaultCode.socket;
        last_error = codes "reset";
      },
    )
publish_first_wins_example =
    publish_first_wins FaultCode.socket (codes "reset") ((FaultCode.callback, codes "late") ∷ [])
      health (λ e. cc)

abbrev recalibrated : SensorConfiguration Number
recalibrated = record configuration {
  calibration = record calibration { counts_per_force_unit = whole 500 };
}

impl-Holds : Holds numbers impl calibration 1 0
impl-Holds = record {
  current = configuration;
  held = refl;
  calibrated = refl;
  revised = refl;
  counted = refl;
}

apply_all-Holds_example :
    Holds numbers
      (apply_all numbers impl (configuration ∷ recalibrated ∷ recalibrated ∷ []))
      recalibrated.calibration
      2
      1
unfolding changes last_calibration same_calibration
apply_all-Holds_example =
    apply_all-Holds numbers impl calibration 1 0 (configuration ∷ recalibrated ∷ recalibrated ∷ [])
      impl-Holds
