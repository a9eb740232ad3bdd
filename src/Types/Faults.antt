-- ===== src/Types/Faults.antt =====
-- `FaultCode` of include/netft/types.hpp.

pub data FaultCode : Type 0 where
  none sensor_configuration timeout socket serious_status ft_stall ft_backward : FaultCode
  malformed_storm callback : FaultCode

pub FaultCode-discrete : Discrete FaultCode
FaultCode-discrete = hlevel
