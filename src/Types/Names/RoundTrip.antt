-- ===== src/Types/Names/RoundTrip.antt =====
-- Names and values determine one another.
use netft_cpp.Base.{◌≡◌, ◌↔◌, refl, ap, List, [], ◌∷◌, some, arith, Bool-cases, inl, inr}
use netft_cpp.Base.Text.{Bytes, equal, equal_iff}
use netft_cpp.Types.{ForceUnit, TorqueUnit, ClientState}
use netft_cpp.Types.Faults.{FaultCode}
use netft_cpp.Types.Names.{
  force_unit_name, torque_unit_name, find_unit, force_units, torque_units, force_unit_from_string,
  torque_unit_from_string, client_state_name, fault_code_name,
}

find_unit_sound :
    {U : Type 0} (name : U → Bytes) (units : List U) (value : Bytes) (u : U)
    → find_unit name units value ≡ some u
    → name u ≡ value
unfolding find_unit
find_unit_sound name [] value u e = cc
find_unit_sound name (v ∷ units) value u e = elim (Bool-cases (equal (name v) value)) [
  | inl hit ↦
      let same : some v ≡ some u = rw hit at e in
      let vu : v ≡ u = cc in rw (← vu) ((equal_iff (name v) value).0 hit)
  | inr miss ↦ find_unit_sound name units value u (rw miss at e)
]

-- A text is read as a force unit exactly when it is the name of that unit.
pub force_unit_from_string_iff :
    (value : Bytes) (u : ForceUnit)
    → (force_unit_from_string value ≡ some u) ↔ (force_unit_name u ≡ value)
unfolding force_unit_from_string
force_unit_from_string_iff value u =
    (find_unit_sound force_unit_name force_units value u, λ e. rw (← e) (named u))
  where
    named : (v : ForceUnit) → force_unit_from_string (force_unit_name v) ≡ some v
    named ForceUnit.unknown = refl
    named ForceUnit.pound_force = refl
    named ForceUnit.newton = refl
    named ForceUnit.kilo_pound_force = refl
    named ForceUnit.kilo_newton = refl
    named ForceUnit.kilogram_force = refl

-- The same for the torque units.
pub torque_unit_from_string_iff :
    (value : Bytes) (u : TorqueUnit)
    → (torque_unit_from_string value ≡ some u) ↔ (torque_unit_name u ≡ value)
unfolding torque_unit_from_string
torque_unit_from_string_iff value u =
    (find_unit_sound torque_unit_name torque_units value u, λ e. rw (← e) (named u))
  where
    named : (v : TorqueUnit) → torque_unit_from_string (torque_unit_name v) ≡ some v
    named TorqueUnit.unknown = refl
    named TorqueUnit.pound_force_inch = refl
    named TorqueUnit.pound_force_foot = refl
    named TorqueUnit.newton_meter = refl
    named TorqueUnit.newton_millimeter = refl
    named TorqueUnit.kilogram_force_centimeter = refl
    named TorqueUnit.kilo_newton_meter = refl

-- Two states share a name only if they are the same, and so do two fault codes.
pub names_iff :
    (a b : ClientState) (c d : FaultCode)
    → ((client_state_name a ≡ client_state_name b) ↔ (a ≡ b))
      × ((fault_code_name c ≡ fault_code_name d) ↔ (c ≡ d))
names_iff a b c d = (
  (λ e. ground arith, λ e. ap client_state_name e),
  (λ e. ground arith, λ e. ap fault_code_name e),
)
