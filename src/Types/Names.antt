-- ===== src/Types/Names.antt =====
-- `to_string` and `from_string` of src/types.cpp.
pub mod RoundTrip
use netft_cpp.Base.{List, [], ◌∷◌, Option, none, some, if◌then◌else◌}
use netft_cpp.Base.Text.{Bytes, codes, equal}
use netft_cpp.Types.{ForceUnit, TorqueUnit, ClientState}
use netft_cpp.Types.Faults.{FaultCode}

abbrev pub force_unit_name : ForceUnit → Bytes
force_unit_name ForceUnit.pound_force = codes "lbf"
force_unit_name ForceUnit.newton = codes "N"
force_unit_name ForceUnit.kilo_pound_force = codes "klbf"
force_unit_name ForceUnit.kilo_newton = codes "kN"
force_unit_name ForceUnit.kilogram_force = codes "kgf"
force_unit_name ForceUnit.unknown = codes "unknown"

abbrev pub torque_unit_name : TorqueUnit → Bytes
torque_unit_name TorqueUnit.pound_force_inch = codes "lbf-in"
torque_unit_name TorqueUnit.pound_force_foot = codes "lbf-ft"
torque_unit_name TorqueUnit.newton_meter = codes "N-m"
torque_unit_name TorqueUnit.newton_millimeter = codes "N-mm"
torque_unit_name TorqueUnit.kilogram_force_centimeter = codes "kgf-cm"
torque_unit_name TorqueUnit.kilo_newton_meter = codes "kN-m"
torque_unit_name TorqueUnit.unknown = codes "unknown"

-- The loop of both `from_string` functions, over the units in the order of the source.
find_unit : {U : Type 0} → (U → Bytes) → List U → Bytes → Option U
find_unit name [] value = none
find_unit name (unit ∷ units) value =
    if equal (name unit) value then some unit else find_unit name units value

abbrev force_units : List ForceUnit
force_units =
    ForceUnit.unknown ∷ ForceUnit.pound_force ∷ ForceUnit.newton ∷ ForceUnit.kilo_pound_force
    ∷ ForceUnit.kilo_newton ∷ ForceUnit.kilogram_force ∷ []

abbrev torque_units : List TorqueUnit
torque_units =
    TorqueUnit.unknown ∷ TorqueUnit.pound_force_inch ∷ TorqueUnit.pound_force_foot
    ∷ TorqueUnit.newton_meter ∷ TorqueUnit.newton_millimeter ∷ TorqueUnit.kilogram_force_centimeter
    ∷ TorqueUnit.kilo_newton_meter ∷ []

unfoldable pub force_unit_from_string : Bytes → Option ForceUnit
unfolding find_unit
force_unit_from_string = find_unit force_unit_name force_units

unfoldable pub torque_unit_from_string : Bytes → Option TorqueUnit
unfolding find_unit
torque_unit_from_string = find_unit torque_unit_name torque_units

abbrev pub client_state_name : ClientState → Bytes
client_state_name ClientState.stopped = codes "stopped"
client_state_name ClientState.connecting = codes "connecting"
client_state_name ClientState.streaming = codes "streaming"
client_state_name ClientState.backoff = codes "backoff"
client_state_name ClientState.faulted = codes "faulted"

abbrev pub fault_code_name : FaultCode → Bytes
fault_code_name FaultCode.none = codes "none"
fault_code_name FaultCode.sensor_configuration = codes "sensor_configuration"
fault_code_name FaultCode.timeout = codes "timeout"
fault_code_name FaultCode.socket = codes "socket"
fault_code_name FaultCode.serious_status = codes "serious_status"
fault_code_name FaultCode.ft_stall = codes "ft_stall"
fault_code_name FaultCode.ft_backward = codes "ft_backward"
fault_code_name FaultCode.malformed_storm = codes "malformed_storm"
fault_code_name FaultCode.callback = codes "callback"
