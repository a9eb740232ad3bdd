-- ===== src/Base/Words.antt =====
-- Machine words as native numbers with their wrap-around written out.
use Prim.Native.Nat.{ℕ, ◌+◌, ◌-◌, ◌*◌, ◌/◌, ◌%◌, ◌^◌}

-- `static_cast<std::uint8_t>`
abbrev pub u8 : ℕ → ℕ
u8 n = n % 2 ^ 8

-- `static_cast<std::uint16_t>`
abbrev pub u16 : ℕ → ℕ
u16 n = n % 2 ^ 16

-- `static_cast<std::uint32_t>`
abbrev pub u32 : ℕ → ℕ
u32 n = n % 2 ^ 32

-- `static_cast<std::uint64_t>`, and what `++` leaves in such a counter
abbrev pub u64 : ℕ → ℕ
u64 n = n % 2 ^ 64

-- `a - b` on `std::uint32_t`
abbrev pub sub_u32 : ℕ → ℕ → ℕ
sub_u32 a b = u32 (a + 2 ^ 32 - b)

-- `n << k` on `std::uint32_t`, and `n >> k` on any unsigned word
abbrev pub shl_u32 : ℕ → ℕ → ℕ
shl_u32 n k = u32 (n * 2 ^ k)

abbrev pub shr : ℕ → ℕ → ℕ
shr n k = n / 2 ^ k
