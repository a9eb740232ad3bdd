-- ===== src/Examples/Pages.antt =====
-- A configuration page.
use netft_cpp.Base.{
  ℕ, ◌≡◌, refl, List, [], ◌∷◌, Option, none, some, Result, ok, arith, if◌then◌else◌,
}
use netft_cpp.Base.Text.{Bytes, codes, equal}
use netft_cpp.Examples.Fixtures.{calibration, calibration-IsCalibration, configuration}
use netft_cpp.Examples.Numbers.{Number, numbers, whole}
use netft_cpp.XmlConfig.Fields.{PageError, extract_required_fields}
use netft_cpp.XmlConfig.Fields.Elements.{page}
use netft_cpp.XmlConfig.Fields.RoundTrip.{
  IsText, calibration_items, extract_required_fields_complete, extract_required_fields_legacy,
}
use netft_cpp.XmlConfig.Fields.Termination.{extract_required_fields_ends}
use netft_cpp.XmlConfig.Markup.{is_ascii_whitespace}
use netft_cpp.XmlConfig.Values.{starts_with_plus, parse_sensor_configuration}
use netft_cpp.XmlConfig.Values.Reading.{Reads, parse_sensor_configuration_complete}

-- A stream that knows two numbers.
abbrev pub read_double : Bytes → Option (Number × Bytes)
read_double text =
    if equal text (codes "1000000")
    then some (whole 1000000, [])
    else if equal text (codes "1000")
    then some (whole 1000, [])
    else none

name-IsText : IsText (codes "Net F/T")
unfolding is_ascii_whitespace
name-IsText = (
  record {
    trimmed = record { front = refl; back = refl };
    nonempty = λ e. cc;
    bounded = omega arith;
  },
  (refl, (refl, (refl, (refl, (refl, (refl, (refl, tt))))))),
)

force-IsText : IsText (codes "1000000")
unfolding is_ascii_whitespace
force-IsText = (
  record {
    trimmed = record { front = refl; back = refl };
    nonempty = λ e. cc;
    bounded = omega arith;
  },
  (refl, (refl, (refl, (refl, (refl, (refl, (refl, tt))))))),
)

torque-IsText : IsText (codes "1000")
unfolding is_ascii_whitespace
torque-IsText = (
  record {
    trimmed = record { front = refl; back = refl };
    nonempty = λ e. cc;
    bounded = omega arith;
  },
  (refl, (refl, (refl, (refl, tt)))),
)

unit-IsText : IsText (codes "N")
unfolding is_ascii_whitespace
unit-IsText = (
  record {
    trimmed = record { front = refl; back = refl };
    nonempty = λ e. cc;
    bounded = omega arith;
  },
  (refl, tt),
)

torque_unit-IsText : IsText (codes "N-m")
unfolding is_ascii_whitespace
torque_unit-IsText = (
  record {
    trimmed = record { front = refl; back = refl };
    nonempty = λ e. cc;
    bounded = omega arith;
  },
  (refl, (refl, (refl, tt))),
)

abbrev items : List (ℕ × Bytes)
items = calibration_items (codes "1000000") (codes "1000") (codes "N") (codes "N-m")

abbrev pub full_page : Bytes
full_page = page ((0, codes "Net F/T") ∷ items)

abbrev texts : List Bytes
texts = codes "Net F/T" ∷ codes "1000000" ∷ codes "1000" ∷ codes "N" ∷ codes "N-m" ∷ []

extract_required_fields_ends_example :
    (result : Result PageError (List Bytes)) × (extract_required_fields (codes "<netft><a></netft>")
      ≡ some result)
extract_required_fields_ends_example = extract_required_fields_ends (codes "<netft><a></netft>")

extract_required_fields_legacy_example :
    extract_required_fields (page items)
    ≡ some
        (ok (codes "ATI Net F/T" ∷ codes "1000000" ∷ codes "1000" ∷ codes "N" ∷ codes "N-m" ∷ []))
extract_required_fields_legacy_example =
    extract_required_fields_legacy (codes "1000000") (codes "1000") (codes "N") (codes "N-m")
      force-IsText torque-IsText unit-IsText torque_unit-IsText

full_page_read : extract_required_fields full_page ≡ some (ok texts)
full_page_read =
    extract_required_fields_complete (codes "1000000") (codes "1000") (codes "N") (codes "N-m")
      (codes "Net F/T") name-IsText force-IsText torque-IsText unit-IsText torque_unit-IsText

force-Reads : Reads numbers read_double (codes "1000000") (whole 1000000)
force-Reads = record {
  as_text = force-IsText;
  unsigned = unfold starts_with_plus in refl;
  as_number = refl;
}

torque-Reads : Reads numbers read_double (codes "1000") (whole 1000)
torque-Reads = record {
  as_text = torque-IsText;
  unsigned = unfold starts_with_plus in refl;
  as_number = refl;
}

pub full_page_configured :
    parse_sensor_configuration numbers read_double full_page ≡ some (ok configuration)
full_page_configured =
    parse_sensor_configuration_complete numbers read_double (codes "Net F/T") (codes "1000000")
      (codes "1000") calibration name-IsText force-Reads torque-Reads calibration-IsCalibration

parse_sensor_configuration_complete_example :
    parse_sensor_configuration numbers read_double full_page ≡ some (ok configuration)
parse_sensor_configuration_complete_example =
    parse_sensor_configuration_complete numbers read_double (codes "Net F/T") (codes "1000000")
      (codes "1000") calibration name-IsText force-Reads torque-Reads calibration-IsCalibration
