-- ===== src/Client/Outcome.antt =====
-- `SessionResult`, `fault_for` and `message_for` of src/detail/client_impl.cpp.
use netft_cpp.Base.{◌≡◌, ◌↔◌, arith, ap, []}
use netft_cpp.Base.Text.{Bytes, codes}
use netft_cpp.Types.Faults.{FaultCode}

pub data SessionResult : Type 0 where
  stopped sensor_configuration timeout socket serious_status ft_stall ft_backward : SessionResult
  malformed_storm callback : SessionResult

abbrev pub fault_for : SessionResult → FaultCode
fault_for SessionResult.sensor_configuration = FaultCode.sensor_configuration
fault_for SessionResult.timeout = FaultCode.timeout
fault_for SessionResult.socket = FaultCode.socket
fault_for SessionResult.serious_status = FaultCode.serious_status
fault_for SessionResult.ft_stall = FaultCode.ft_stall
fault_for SessionResult.ft_backward = FaultCode.ft_backward
fault_for SessionResult.malformed_storm = FaultCode.malformed_storm
fault_for SessionResult.callback = FaultCode.callback
fault_for SessionResult.stopped = FaultCode.none

abbrev pub message_for : SessionResult → Bytes
message_for SessionResult.sensor_configuration = codes "sensor configuration discovery failed"
message_for SessionResult.timeout = codes "no valid RDT record before timeout"
message_for SessionResult.socket = codes "UDP socket failure"
message_for SessionResult.serious_status = codes "serious device status"
message_for SessionResult.ft_stall = codes "FT sequence stalled"
message_for SessionResult.ft_backward = codes "FT sequence moved backward"
message_for SessionResult.malformed_storm = codes "malformed packet storm"
message_for SessionResult.callback = codes "sample callback failed"
message_for SessionResult.stopped = codes ""

-- Two ends of a session share a fault code only if they are the same, only a stopped session has none, and exactly the
-- others have a message of their own.
pub fault_for_iff :
    (r s : SessionResult)
    → ((fault_for r ≡ fault_for s) ↔ (r ≡ s))
      × ((fault_for r ≡ FaultCode.none) ↔ (r ≡ SessionResult.stopped))
      × ((message_for r ≡ []) ↔ (r ≡ SessionResult.stopped))
fault_for_iff r s = (
  (λ e. ground arith, λ e. ap fault_for e),
  (λ e. ground arith, λ e. ground arith),
  (λ e. ground arith, λ e. ground arith),
)
