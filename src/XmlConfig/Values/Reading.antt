-- ===== src/XmlConfig/Values/Reading.antt =====
-- What the client relies on in a configuration read from the sensor's page.
use netft_cpp.Base.{
  ℕ, ◌≤◌, ◌≡◌, ◌≢◌, refl, true, false, List, [], ◌∷◌, Option, none, some, Result, ok, err,
  >>=-eq-ok, All, length, arith,
}
use netft_cpp.Base.Int.{pos}
use mathlib.Core.List.{reverse}
use netft_cpp.Base.Text.{Bytes, equal_iff}
use netft_cpp.Floats.{Floats}
use netft_cpp.Types.{ForceUnit, TorqueUnit, Calibration, CalibrationSource, SensorConfiguration}
use netft_cpp.Types.Names.{force_unit_name, torque_unit_name}
use netft_cpp.Types.Names.RoundTrip.{force_unit_from_string_iff, torque_unit_from_string_iff}
use netft_cpp.Types.Validate.{validate_calibration}
use netft_cpp.Types.Validate.Accepted.{IsCalibration, validate_calibration_iff}
use netft_cpp.XmlConfig.Fields.{PageError, extract_required_fields, maximum_field_length}
use netft_cpp.XmlConfig.Fields.Elements.{Plain, page}
use netft_cpp.XmlConfig.Fields.RoundTrip.{
  IsText, calibration_items, extract_required_fields_complete,
}
use netft_cpp.XmlConfig.Fields.Wellformed.{IsField, extract_required_fields-IsField}
use netft_cpp.XmlConfig.Markup.{is_ascii_whitespace}
use netft_cpp.XmlConfig.Markup.Trim.{Bare}
use netft_cpp.XmlConfig.Values.{
  DiscoveryError, bad_calibration, lift, normalize_torque_spelling, known_force_unit,
  parse_force_unit, known_torque_unit, parse_torque_unit, starts_with_plus, positive_number,
  parse_positive_count, read_calibration, read_configuration, finish_page,
  parse_sensor_configuration,
}

module _ (F : Floats) (read_double : Bytes → Option (F.Double × Bytes)) where
  open F use {Double, is_finite, le, of_int}

  -- A configuration from the sensor.
  pub record IsFromSensor (c : SensorConfiguration Double) : Type 0 where
    pub name : IsField c.product_name
    pub calibrated : IsCalibration F c.calibration
    pub from_sensor : c.source ≡ CalibrationSource.sensor
    pub first_revision : c.revision ≡ 1

  lift-ok :
      {E A : Type 0} (f : E → DiscoveryError) (r : Result E A) (a : A) → lift f r ≡ ok a → r ≡ ok a
  unfolding lift
  lift-ok f (ok b) a e = cc
  lift-ok f (err x) a e = cc

  read_configuration-IsFromSensor :
      (fields : List Bytes) (c : SensorConfiguration Double)
      → All IsField fields
      → length fields ≡ 5
      → read_configuration F read_double fields ≡ ok c
      → IsFromSensor c
  unfolding read_configuration
  read_configuration-IsFromSensor [] c valid l e = absurd (omega arith)
  read_configuration-IsFromSensor (name ∷ fields) c valid l e =
      let (calibration, _, e1) = >>=-eq-ok (read_calibration F read_double (name ∷ fields)) _ e in
      let (_, accepted, e2) =
        >>=-eq-ok (lift bad_calibration (validate_calibration F calibration)) _ e1 in
      let whole =
        (validate_calibration_iff F calibration).0 (lift-ok bad_calibration _ _ accepted) in
      let same : (record {
        product_name = name;
        calibration = calibration;
        source = CalibrationSource.sensor;
        revision = 1;
      })
          ≡ c =
        cc in
      rw (← same)
        (record { name = valid.0; calibrated = whole; from_sensor = refl; first_revision = refl })

  -- A configuration that is read from a page has a usable product name and a valid calibration, comes
  -- from the sensor, and has revision 1.
  pub parse_sensor_configuration_sound :
      (xml : Bytes) (c : SensorConfiguration Double)
      → parse_sensor_configuration F read_double xml ≡ some (ok c)
      → IsFromSensor c
  unfolding parse_sensor_configuration finish_page lift
  parse_sensor_configuration_sound xml c e = finished (extract_required_fields xml) refl e
    where
      finished :
          (r : Option (Result PageError (List Bytes)))
          → extract_required_fields xml ≡ r
          → finish_page F read_double r ≡ some (ok c)
          → IsFromSensor c
      finished none h e' = cc
      finished (some (err x)) h e' = cc
      finished (some (ok fields)) h e' =
          let (valid, five) = extract_required_fields-IsField xml fields h in
          read_configuration-IsFromSensor fields c valid five (cc)

  -- A text from which the stream reads the number `value`, and nothing else.
  pub record Reads (text : Bytes) (value : Double) : Type 0 where
    pub as_text : IsText text
    pub unsigned : starts_with_plus text ≡ false
    pub as_number : read_double text ≡ some (value, [])

  parse_positive_count-Reads :
      (tag : ℕ) (text : Bytes) (value : Double)
      → Reads text value
      → is_finite value ≡ true
      → le value (of_int (pos 0)) ≡ false
      → parse_positive_count F read_double tag text ≡ ok value
  unfolding parse_positive_count positive_number
  parse_positive_count-Reads tag text value h finite positive =
      rw (h.as_number)
        (ground (arith, h.unsigned, h.as_text.0.nonempty, equal_iff text [], finite, positive))

  parse_force_unit-name :
      (u : ForceUnit) → u ≢ ForceUnit.unknown → parse_force_unit (force_unit_name u) ≡ ok u
  unfolding parse_force_unit known_force_unit
  parse_force_unit-name u known =
      rw ((force_unit_from_string_iff (force_unit_name u) u).1 refl) (by_unit u known)
    where
      by_unit : (v : ForceUnit) → v ≢ ForceUnit.unknown → known_force_unit (some v) ≡ ok v
      by_unit v h = ground arith

  normalize-name :
      (t : TorqueUnit) → normalize_torque_spelling (torque_unit_name t) ≡ torque_unit_name t
  unfolding normalize_torque_spelling
  normalize-name TorqueUnit.unknown = refl
  normalize-name TorqueUnit.pound_force_inch = refl
  normalize-name TorqueUnit.pound_force_foot = refl
  normalize-name TorqueUnit.newton_meter = refl
  normalize-name TorqueUnit.newton_millimeter = refl
  normalize-name TorqueUnit.kilogram_force_centimeter = refl
  normalize-name TorqueUnit.kilo_newton_meter = refl

  parse_torque_unit-name :
      (t : TorqueUnit) → t ≢ TorqueUnit.unknown → parse_torque_unit (torque_unit_name t) ≡ ok t
  unfolding parse_torque_unit known_torque_unit
  parse_torque_unit-name t known =
      rw (normalize-name t, (torque_unit_from_string_iff (torque_unit_name t) t).1 refl)
        (by_unit t known)
    where
      by_unit : (v : TorqueUnit) → v ≢ TorqueUnit.unknown → known_torque_unit (some v) ≡ ok v
      by_unit v h = ground arith

  short-IsText :
      (v : Bytes)
      → Bare v
      → Bare (reverse v)
      → v ≢ []
      → length v ≤ maximum_field_length
      → Plain v
      → IsText v
  short-IsText v front back n b p =
      (record { trimmed = record { front = front; back = back }; nonempty = n; bounded = b }, p)

  force_unit_name-IsText : (u : ForceUnit) → IsText (force_unit_name u)
  unfolding is_ascii_whitespace
  force_unit_name-IsText ForceUnit.unknown =
      short-IsText _ refl refl (λ e. cc) (omega arith)
        (refl, (refl, (refl, (refl, (refl, (refl, (refl, tt)))))))
  force_unit_name-IsText ForceUnit.pound_force =
      short-IsText _ refl refl (λ e. cc) (omega arith) (refl, (refl, (refl, tt)))
  force_unit_name-IsText ForceUnit.newton =
      short-IsText _ refl refl (λ e. cc) (omega arith) (refl, tt)
  force_unit_name-IsText ForceUnit.kilo_pound_force =
      short-IsText _ refl refl (λ e. cc) (omega arith) (refl, (refl, (refl, (refl, tt))))
  force_unit_name-IsText ForceUnit.kilo_newton =
      short-IsText _ refl refl (λ e. cc) (omega arith) (refl, (refl, tt))
  force_unit_name-IsText ForceUnit.kilogram_force =
      short-IsText _ refl refl (λ e. cc) (omega arith) (refl, (refl, (refl, tt)))

  torque_unit_name-IsText : (t : TorqueUnit) → IsText (torque_unit_name t)
  unfolding is_ascii_whitespace
  torque_unit_name-IsText TorqueUnit.unknown =
      short-IsText _ refl refl (λ e. cc) (omega arith)
        (refl, (refl, (refl, (refl, (refl, (refl, (refl, tt)))))))
  torque_unit_name-IsText TorqueUnit.pound_force_inch =
      short-IsText _ refl refl (λ e. cc) (omega arith)
        (refl, (refl, (refl, (refl, (refl, (refl, tt))))))
  torque_unit_name-IsText TorqueUnit.pound_force_foot =
      short-IsText _ refl refl (λ e. cc) (omega arith)
        (refl, (refl, (refl, (refl, (refl, (refl, tt))))))
  torque_unit_name-IsText TorqueUnit.newton_meter =
      short-IsText _ refl refl (λ e. cc) (omega arith) (refl, (refl, (refl, tt)))
  torque_unit_name-IsText TorqueUnit.newton_millimeter =
      short-IsText _ refl refl (λ e. cc) (omega arith) (refl, (refl, (refl, (refl, tt))))
  torque_unit_name-IsText TorqueUnit.kilogram_force_centimeter =
      short-IsText _ refl refl (λ e. cc) (omega arith)
        (refl, (refl, (refl, (refl, (refl, (refl, tt))))))
  torque_unit_name-IsText TorqueUnit.kilo_newton_meter =
      short-IsText _ refl refl (λ e. cc) (omega arith) (refl, (refl, (refl, (refl, tt))))

  -- A page that holds a product name, the texts of two counts and the names of two units, which
  -- together make a valid calibration, is read as that calibration from the sensor.
  pub parse_sensor_configuration_complete :
      (name force torque : Bytes) (c : Calibration Double)
      → IsText name
      → Reads force c.counts_per_force_unit
      → Reads torque c.counts_per_torque_unit
      → IsCalibration F c
      → parse_sensor_configuration F read_double (
          page (
            (0, name)
            ∷ calibration_items force torque
                (force_unit_name c.force_unit)
                (torque_unit_name c.torque_unit)))
        ≡ some (
            ok (record {
              product_name = name;
              calibration = c;
              source = CalibrationSource.sensor;
              revision = 1;
            }))
  unfolding parse_sensor_configuration finish_page lift read_configuration read_calibration
  parse_sensor_configuration_complete name force torque c n f t h = rw (
    extract_required_fields_complete force torque (force_unit_name c.force_unit)
        (torque_unit_name c.torque_unit) name n f.as_text t.as_text
        (force_unit_name-IsText c.force_unit) (torque_unit_name-IsText c.torque_unit),
    parse_positive_count-Reads 1 force c.counts_per_force_unit f h.safe_force.finite
        h.safe_force.positive,
    parse_positive_count-Reads 2 torque c.counts_per_torque_unit t h.safe_torque.finite
        h.safe_torque.positive,
    parse_force_unit-name c.force_unit h.known_force,
    parse_torque_unit-name c.torque_unit h.known_torque,
    (validate_calibration_iff F c).1 h,
  )
