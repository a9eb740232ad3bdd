-- ===== src/Examples/Wire.antt =====
-- Requests, records, status words, durations and rate windows.
use netft_cpp.Base.{◌≡◌, refl, [], ◌∷◌, some, ok, err, inl, All, arith}
use netft_cpp.Base.Int.{pos, negsuc}
use netft_cpp.Base.Text.{Bytes, codes}
use netft_cpp.Protocol.{RawRecord, wrong_size, decode_record}
use netft_cpp.Protocol.BigEndian.{IsByte}
use netft_cpp.Protocol.RoundTrip.{IsRaw, wire, decode_record_total, decode_record_refuses}
use netft_cpp.Status.{decode_status}
use netft_cpp.Status.Decode.{decode_status-join}

abbrev raw : RawRecord
raw = record {
  rdt_sequence = 7;
  ft_sequence = 70000;
  status = 0x80010000;
  fx = pos 1000000;
  fy = negsuc 0;
  fz = negsuc 2147483647;
  tx = pos 0;
  ty = pos 2147483647;
  tz = negsuc 41;
}

raw-IsRaw : IsRaw raw
raw-IsRaw = record {
  rdt_word = omega arith;
  ft_word = omega arith;
  status_word = omega arith;
  fx_int = omega arith;
  fy_int = omega arith;
  fz_int = omega arith;
  tx_int = omega arith;
  ty_int = omega arith;
  tz_int = omega arith;
}

abbrev datagram : Bytes
datagram =
    0 ∷ 0 ∷ 0 ∷ 1 ∷ 0 ∷ 0 ∷ 0 ∷ 2 ∷ 0 ∷ 0 ∷ 0 ∷ 0 ∷ 0 ∷ 0 ∷ 0 ∷ 3 ∷ 255 ∷ 255 ∷ 255 ∷ 255 ∷ 0 ∷ 0
    ∷ 0 ∷ 0 ∷ 128 ∷ 0 ∷ 0 ∷ 0 ∷ 0 ∷ 0 ∷ 0 ∷ 9 ∷ 1 ∷ 2 ∷ 3 ∷ 4 ∷ []

datagram-IsByte : All IsByte datagram
datagram-IsByte = omega arith

decode_record_total_example :
    (r : RawRecord) × (decode_record (some datagram) 36 ≡ ok r) × IsRaw r × (wire r ≡ datagram)
decode_record_total_example = decode_record_total datagram datagram-IsByte refl

decode_record_refuses_example : decode_record (some datagram) 35 ≡ err (wrong_size 35)
decode_record_refuses_example =
    (decode_record_refuses (some datagram) 35 (wrong_size 35)).1 (inl (omega arith, refl))

decode_status-join_example : decode_status 0x80000002 ≡ codes "error summary, HTTP protocol failure"
decode_status-join_example = decode_status-join 0x80000002 (λ e. cc)
