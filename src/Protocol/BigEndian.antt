-- ===== src/Protocol/BigEndian.antt =====
-- The big-endian value of four bytes, and its two's complement reading.
use netft_cpp.Base.{
  ℕ, ◌+◌, ◌-◌, ◌*◌, ◌^◌, ◌≤◌, ◌<◌, ◌≡◌, ◌∙◌, [], ◌∷◌, ◌++◌, All, length, drop, arith, u8, shr,
  shl_u32,
}
use netft_cpp.Base.Bits.{bit_or-shifted}
use netft_cpp.Base.Int.{ℤ, pos, negsuc, neg_ℤ, ◌-ℤ◌}
use netft_cpp.Base.Text.{Bytes}
use netft_cpp.Protocol.{read_u32, read_i32}

abbrev pub IsByte : ℕ → Type 0
IsByte b = b < 2 ^ 8

abbrev pub IsWord : ℕ → Type 0
IsWord w = w < 2 ^ 32

-- the four bytes of a word, most significant first
abbrev pub be32 : ℕ → Bytes
be32 w = u8 (shr w 24) ∷ u8 (shr w 16) ∷ u8 (shr w 8) ∷ u8 w ∷ []

pub read_u32-sum :
    (a b c d : ℕ) (rest : Bytes)
    → IsByte a
    → IsByte b
    → IsByte c
    → IsByte d
    → read_u32 (a ∷ b ∷ c ∷ d ∷ rest) ≡ a * 2 ^ 24 + b * 2 ^ 16 + c * 2 ^ 8 + d
unfolding read_u32
read_u32-sum a b c d rest ha hb hc hd =
    let ea : shl_u32 a 24 ≡ a * 2 ^ 24 = omega arith in
    let eb : shl_u32 b 16 ≡ b * 2 ^ 16 = omega arith in
    let ec : shl_u32 c 8 ≡ c * 2 ^ 8 = omega arith in
    let two : a * 2 ^ 24 + b * 2 ^ 16 ≡ (a * 2 ^ 8 + b) * 2 ^ 16 = omega arith in
    let three : (a * 2 ^ 8 + b) * 2 ^ 16 + c * 2 ^ 8 ≡ (a * 2 ^ 16 + b * 2 ^ 8 + c) * 2 ^ 8 =
      omega arith in
    rw (ea, eb, ec)
      (rw (bit_or-shifted 24 a (b * 2 ^ 16) (omega arith)) (
        rw two (
          rw (bit_or-shifted 16 (a * 2 ^ 8 + b) (c * 2 ^ 8) (omega arith))
            (rw three (omega (arith, bit_or-shifted 8 (a * 2 ^ 16 + b * 2 ^ 8 + c) d hd))))))

pub read_u32-be32 : (w : ℕ) (rest : Bytes) → IsWord w → read_u32 (be32 w ++ rest) ≡ w
read_u32-be32 w rest h =
    read_u32-sum _ _ _ _ rest (omega arith) (omega arith) (omega arith) (omega arith) ∙ omega arith

-- Four bytes are those of the word that they are read as.
pub be32-read_u32 :
    (bytes : Bytes)
    → All IsByte bytes
    → 4 ≤ length bytes
    → (be32 (read_u32 bytes) ++ drop 4 bytes ≡ bytes) × IsWord (read_u32 bytes)
be32-read_u32 [] h l = absurd (omega arith)
be32-read_u32 (a ∷ []) h l = absurd (omega arith)
be32-read_u32 (a ∷ b ∷ []) h l = absurd (omega arith)
be32-read_u32 (a ∷ b ∷ c ∷ []) h l = absurd (omega arith)
be32-read_u32 (a ∷ b ∷ c ∷ d ∷ rest) h l =
    let sum = read_u32-sum a b c d rest h.0 h.1.0 h.1.1.0 h.1.1.1.0 in
    (
      ground (arith, sum, h.0, h.1.0, h.1.1.0, h.1.1.1.0),
      ground (arith, sum, h.0, h.1.0, h.1.1.0, h.1.1.1.0),
    )

-- The values of `std::int32_t`.
abbrev pub IsInt32 : ℤ → Type 0
IsInt32 (pos n) = n < 2 ^ 31
IsInt32 (negsuc n) = n < 2 ^ 31

-- The two's complement pattern of a number.
abbrev pub to_word : ℤ → ℕ
to_word (pos n) = n
to_word (negsuc n) = 2 ^ 32 - 1 - n

pub read_i32-be32 : (z : ℤ) (rest : Bytes) → IsInt32 z → read_i32 (be32 (to_word z) ++ rest) ≡ z
unfolding read_i32 neg_ℤ ◌-ℤ◌
read_i32-be32 (pos n) rest h = ground (arith, read_u32-be32 n rest (omega arith))
read_i32-be32 (negsuc n) rest h = ground (arith, read_u32-be32 (2 ^ 32 - 1 - n) rest (omega arith))

pub to_word-read_i32 :
    (bytes : Bytes)
    → IsWord (read_u32 bytes)
    → (to_word (read_i32 bytes) ≡ read_u32 bytes) × IsInt32 (read_i32 bytes)
unfolding read_i32 neg_ℤ ◌-ℤ◌
to_word-read_i32 bytes h = ground arith
