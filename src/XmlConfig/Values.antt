-- ===== src/XmlConfig/Values.antt =====
-- The end of src/detail/xml_config.cpp: from the five texts of the page to a sensor configuration.
pub mod Reading
use netft_cpp.Base.{
  ℕ, Bool, not, ◌||◌, List, [], ◌∷◌, Option, none, some, Result, ok, err, ◌>>=◌, ◌>>◌, guard,
  if◌then◌else◌, ◌==◌, get_or,
}
use netft_cpp.Base.Int.{pos}
use netft_cpp.Base.Text.{Bytes, codes, equal}
use netft_cpp.Floats.{Floats}
use netft_cpp.Types.{ForceUnit, TorqueUnit, Calibration, CalibrationSource, SensorConfiguration}
use netft_cpp.Types.Names.{force_unit_from_string, torque_unit_from_string}
use netft_cpp.Types.Validate.{InvalidArgument, validate_calibration}
use netft_cpp.XmlConfig.Fields.{PageError, extract_required_fields}

-- The `DiscoveryError` that reading a page throws, by its cause. A tag is known by its position.
pub data DiscoveryError : Type 0 where
  bad_page : PageError → DiscoveryError
  not_a_positive_number : ℕ → DiscoveryError
  unknown_force_unit unknown_torque_unit : DiscoveryError
  bad_calibration : InvalidArgument → DiscoveryError

pub lift : {E A : Type 0} → (E → DiscoveryError) → Result E A → Result DiscoveryError A
lift f (ok a) = ok a
lift f (err e) = err (f e)

pub normalize_torque_spelling : Bytes → Bytes
normalize_torque_spelling value =
    if equal value (codes "Nm")
    then codes "N-m"
    else if equal value (codes "Nmm")
    then codes "N-mm"
    else if equal value (codes "kg-cm")
    then codes "kgf-cm"
    else value

-- by what `force_unit_from_string` gives
known_force_unit : Option ForceUnit → Result DiscoveryError ForceUnit
known_force_unit none = err unknown_force_unit
known_force_unit (some ForceUnit.unknown) = err unknown_force_unit
known_force_unit (some u) = ok u

unfoldable pub parse_force_unit : Bytes → Result DiscoveryError ForceUnit
unfolding known_force_unit
parse_force_unit value = known_force_unit (force_unit_from_string value)

known_torque_unit : Option TorqueUnit → Result DiscoveryError TorqueUnit
known_torque_unit none = err unknown_torque_unit
known_torque_unit (some TorqueUnit.unknown) = err unknown_torque_unit
known_torque_unit (some u) = ok u

unfoldable pub parse_torque_unit : Bytes → Result DiscoveryError TorqueUnit
unfolding known_torque_unit normalize_torque_spelling
parse_torque_unit value =
    known_torque_unit (torque_unit_from_string (normalize_torque_spelling value))

unfoldable pub starts_with_plus : Bytes → Bool
starts_with_plus [] = Bool.false
starts_with_plus (c ∷ _) = c == b'+'

-- `read_double` is `input >> std::noskipws >> result` in the classic locale, rounding to nearest: the
-- number and the bytes that are left, or nothing when the stream fails.
module _ (F : Floats) (read_double : Bytes → Option (F.Double × Bytes)) where
  open F use {Double, is_finite, le, of_int}

  -- by what the stream gives
  positive_number : ℕ → Bytes → Option (Double × Bytes) → Result DiscoveryError Double
  unfolding starts_with_plus
  positive_number tag value none = err (not_a_positive_number tag)
  positive_number tag value (some (result, rest)) = do
    guard
        (not (
          equal value []
          || starts_with_plus value
          || not (equal rest [])
          || not (is_finite result)
          || le result (of_int (pos 0))))
        (not_a_positive_number tag)
    ok result

  unfoldable pub parse_positive_count : ℕ → Bytes → Result DiscoveryError Double
  unfolding positive_number
  parse_positive_count tag value = positive_number tag value (read_double value)

  unfoldable pub read_calibration : List Bytes → Result DiscoveryError (Calibration Double)
  read_calibration fields = do
    force_count ← parse_positive_count 1 (get_or fields 1 [])
    torque_count ← parse_positive_count 2 (get_or fields 2 [])
    force ← parse_force_unit (get_or fields 3 [])
    torque ← parse_torque_unit (get_or fields 4 [])
    ok (record {
      counts_per_force_unit = force_count;
      counts_per_torque_unit = torque_count;
      force_unit = force;
      torque_unit = torque;
    })

  -- `parse_sensor_configuration` once the fields are extracted
  unfoldable pub read_configuration :
      List Bytes → Result DiscoveryError (SensorConfiguration Double)
  unfolding lift
  read_configuration fields = do
    calibration ← read_calibration fields
    lift bad_calibration (validate_calibration F calibration)
    ok (record {
      product_name = get_or fields 0 [];
      calibration = calibration;
      source = CalibrationSource.sensor;
      revision = 1;
    })

  finish_page :
      Option (Result PageError (List Bytes))
      → Option (Result DiscoveryError (SensorConfiguration Double))
  unfolding lift
  finish_page none = none
  finish_page (some fields) = some (lift bad_page fields >>= read_configuration)

  -- `none` if the scan of the page ran out of fuel
  unfoldable pub parse_sensor_configuration :
      Bytes → Option (Result DiscoveryError (SensorConfiguration Double))
  unfolding finish_page
  parse_sensor_configuration xml = finish_page (extract_required_fields xml)
