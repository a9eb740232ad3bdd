-- ===== src/Status.antt =====
-- include/netft/status.hpp and src/status.cpp: what a status word says.
pub mod Decode
use Prim.Native.Nat.{bit_and}
use netft_cpp.Base.{ℕ, List, [], ◌∷◌, ◌++◌, ◌==◌, not, if◌then◌else◌}
use netft_cpp.Base.Text.{Bytes, codes, equal}

pub data StatusSeverity : Type 0 where
  ok warn error : StatusSeverity

abbrev pub status_bits : List (ℕ × Bytes)
status_bits =
    (0x80000000, codes "error summary")
    ∷ (0x40000000, codes "CPU or RAM error")
    ∷ (0x20000000, codes "digital board error")
    ∷ (0x10000000, codes "analog board error")
    ∷ (0x08000000, codes "serial link communication error")
    ∷ (0x04000000, codes "program memory verification error")
    ∷ (0x02000000, codes "halted due to configuration errors")
    ∷ (0x01000000, codes "settings validation error")
    ∷ (0x00800000, codes "configuration incompatible with calibration")
    ∷ (0x00400000, codes "network communication failure")
    ∷ (0x00200000, codes "CAN communication error")
    ∷ (0x00100000, codes "RDT communication error")
    ∷ (0x00080000, codes "EtherNet/IP protocol failure")
    ∷ (0x00040000, codes "DeviceNet protocol failure")
    ∷ (0x00020000, codes "transducer saturation or A/D error")
    ∷ (0x00010000, codes "monitor condition latched")
    ∷ (0x00004000, codes "watchdog timeout error")
    ∷ (0x00002000, codes "stack check error")
    ∷ (0x00001000, codes "serial EEPROM I2C failure")
    ∷ (0x00000800, codes "serial flash SPI failure")
    ∷ (0x00000400, codes "analog board watchdog timeout")
    ∷ (0x00000200, codes "excessive strain gage excitation current")
    ∷ (0x00000100, codes "insufficient strain gage excitation current")
    ∷ (0x00000080, codes "artificial analog ground out of range")
    ∷ (0x00000040, codes "analog board power supply too high")
    ∷ (0x00000020, codes "analog board power supply too low")
    ∷ (0x00000010, codes "serial link data unavailable")
    ∷ (0x00000008, codes "reference voltage or power monitoring error")
    ∷ (0x00000004, codes "internal temperature error")
    ∷ (0x00000002, codes "HTTP protocol failure")
    ∷ []

unfoldable pub classify_status : ℕ → StatusSeverity
classify_status status = if status == 0 then ok else if status == 0x80010000 then warn else error

-- the loop over `kStatusBits`, with the text so far
append_names : ℕ → Bytes → List (ℕ × Bytes) → Bytes
append_names status result [] = result
append_names status result ((mask, name) ∷ bits) =
    let separated = if not (equal result []) then result ++ codes ", " else result in
    append_names status (if not (bit_and status mask == 0) then separated ++ name else result) bits

unfoldable pub decode_status : ℕ → Bytes
unfolding append_names
decode_status status = if status == 0 then codes "healthy" else append_names status [] status_bits
