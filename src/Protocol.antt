-- ===== src/Protocol.antt =====
-- src/detail/protocol.hpp and src/detail/protocol.cpp: the requests sent to the sensor, and the RDT
-- records read from it. A pointer into a buffer is the list of bytes from there on.
pub mod BigEndian
pub mod RoundTrip
pub mod Requests
use Prim.Native.Nat.{bit_or}
use netft_cpp.Base.{
  ℕ, ◌-◌, List, [], ◌∷◌, Option, none, some, Result, ok, err, if◌then◌else◌, leb, ◌==◌, not, u8,
  u16, shl_u32, shr, get_or, drop,
}
use netft_cpp.Base.Int.{ℤ, pos, neg_ℤ, ◌-ℤ◌}
use netft_cpp.Base.Text.{Bytes}

pub data Command : Type 0 where
  stop_streaming start_realtime start_buffered reset_condition_latch set_software_bias : Command

-- the enumerators' values
abbrev pub command_value : Command → ℕ
command_value stop_streaming = 0x0000
command_value start_realtime = 0x0002
command_value start_buffered = 0x0003
command_value reset_condition_latch = 0x0041
command_value set_software_bias = 0x0042

pub record RawRecord : Type 0 where
  pub rdt_sequence : ℕ
  pub ft_sequence : ℕ
  pub status : ℕ
  pub fx : ℤ
  pub fy : ℤ
  pub fz : ℤ
  pub tx : ℤ
  pub ty : ℤ
  pub tz : ℤ

-- the two messages of a `ProtocolError`
pub data ProtocolError : Type 0 where
  wrong_size : ℕ → ProtocolError
  null_data : ProtocolError

unfoldable pub read_u32 : Bytes → ℕ
read_u32 data_ =
    bit_or
      (bit_or (bit_or (shl_u32 (get_or data_ 0 0) 24) (shl_u32 (get_or data_ 1 0) 16))
        (shl_u32 (get_or data_ 2 0) 8))
      (get_or data_ 3 0)

-- `~value` on `std::uint32_t` is 0xffffffff - value.
unfoldable pub read_i32 : Bytes → ℤ
read_i32 data_ =
    let value = read_u32 data_ in
    if leb value 0x7fffffff then pos value else neg_ℤ (pos (0xffffffff - value)) -ℤ pos 1

unfoldable pub encode_request : Command → ℕ → Bytes
encode_request command count =
    let value = u16 (command_value command) in
    0x12
    ∷ 0x34
    ∷ u8 (shr value 8)
    ∷ u8 value
    ∷ u8 (shr count 24)
    ∷ u8 (shr count 16)
    ∷ u8 (shr count 8)
    ∷ u8 count
    ∷ []

read_record : Bytes → RawRecord
read_record data_ = record {
  rdt_sequence = read_u32 data_;
  ft_sequence = read_u32 (drop 4 data_);
  status = read_u32 (drop 8 data_);
  fx = read_i32 (drop 12 data_);
  fy = read_i32 (drop 16 data_);
  fz = read_i32 (drop 20 data_);
  tx = read_i32 (drop 24 data_);
  ty = read_i32 (drop 28 data_);
  tz = read_i32 (drop 32 data_);
}

-- `none` is the null pointer; the buffer may be longer than the `size` bytes that were received.
unfoldable pub decode_record : Option Bytes → ℕ → Result ProtocolError RawRecord
unfolding read_record
decode_record data_ size =
    if not (size == 36)
    then err (wrong_size size)
    else elim data_ [ none ↦ err null_data | some bytes ↦ ok (read_record bytes) ]
