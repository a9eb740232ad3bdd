-- ===== src/Protocol/Requests.antt =====
-- `encode_request` against the layout of a request, and what a receiver reads back.
use netft_cpp.Base.{ℕ, ◌*◌, ◌+◌, ◌<◌, ◌^◌, ◌≡◌, refl, [], All, length, arith, get_or, drop}
use netft_cpp.Base.Text.{Bytes}
use netft_cpp.Protocol.{
  Command, stop_streaming, start_realtime, start_buffered, reset_condition_latch, set_software_bias,
  command_value, read_u32, encode_request,
}
use netft_cpp.Protocol.BigEndian.{IsByte, IsWord, read_u32-be32}

-- The 16-bit big-endian number at an offset.
abbrev pub word16_at : ℕ → Bytes → ℕ
word16_at n bytes = get_or (drop n bytes) 0 0 * 2 ^ 8 + get_or (drop n bytes) 1 0

command_value_u16 : (c : Command) → command_value c < 2 ^ 16
command_value_u16 stop_streaming = omega arith
command_value_u16 start_realtime = omega arith
command_value_u16 start_buffered = omega arith
command_value_u16 reset_condition_latch = omega arith
command_value_u16 set_software_bias = omega arith

-- A request is eight bytes: the header 0x1234, the command's value and the sample count, each
-- big-endian.
pub encode_request_layout :
    (c : Command) (count : ℕ)
    → IsWord count
    → (length (encode_request c count) ≡ 8)
      × All IsByte (encode_request c count)
      × (word16_at 0 (encode_request c count) ≡ 0x1234)
      × (word16_at 2 (encode_request c count) ≡ command_value c)
      × (read_u32 (drop 4 (encode_request c count)) ≡ count)
unfolding encode_request
encode_request_layout c count h =
    (refl, omega arith, refl, omega (arith, command_value_u16 c), read_u32-be32 count [] h)

command_value-injective : (c d : Command) → command_value c ≡ command_value d → c ≡ d
command_value-injective c d e = ground arith

-- Two requests with the same bytes are the same command with the same count.
pub encode_request-injective :
    (c d : Command) (m n : ℕ)
    → IsWord m
    → IsWord n
    → encode_request c m ≡ encode_request d n
    → (c ≡ d) × (m ≡ n)
encode_request-injective c d m n hm hn e =
    let (_, _, _, cm, rm) = encode_request_layout c m hm in
    let (_, _, _, dn, rn) = encode_request_layout d n hn in
    (command_value-injective c d (cc (cm, dn)), cc (rm, rn))
