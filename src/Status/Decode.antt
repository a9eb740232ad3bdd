-- ===== src/Status/Decode.antt =====
-- `decode_status` against the list of the names whose binary digit is set.
use Prim.Native.Nat.{bit_and}
use native.Mathlib.Nat.{pow-suc}
use mathlib.Core.List.{append_assoc}
use netft_cpp.Base.{
  ℕ, suc, ◌*◌, ◌/◌, ◌^◌, ◌<◌, ◌≡◌, ◌≢◌, inl, inr, refl, List, [], ◌∷◌, ◌++◌, map, ◌==◌, not,
  if◌then◌else◌, Bool-cases, Bool, ◌&&◌, true, false, arith,
}
use netft_cpp.Base.Bits.{binary_digit, bit_and-pow}
use netft_cpp.Base.Text.{Bytes, codes, equal}
use netft_cpp.Status.{status_bits, append_names, decode_status}

-- The documented bits of a status word, in the order of the table.
abbrev pub documented : List ℕ
documented =
    31 ∷ 30 ∷ 29 ∷ 28 ∷ 27 ∷ 26 ∷ 25 ∷ 24 ∷ 23 ∷ 22 ∷ 21 ∷ 20 ∷ 19 ∷ 18 ∷ 17 ∷ 16 ∷ 14 ∷ 13 ∷ 12
    ∷ 11 ∷ 10 ∷ 9 ∷ 8 ∷ 7 ∷ 6 ∷ 5 ∷ 4 ∷ 3 ∷ 2 ∷ 1 ∷ []

abbrev pub names : List Bytes
names = map (λ e. e.1) status_bits

-- The names whose bit is set.
abbrev pub named : ℕ → List ℕ → List Bytes → List Bytes
named status (bit ∷ bits) (name ∷ rest) =
    if binary_digit bit status == 1 then name ∷ named status bits rest else named status bits rest
named status _ _ = []

-- Texts joined by ", ".
abbrev pub join_onto : Bytes → List Bytes → Bytes
join_onto result [] = result
join_onto result (name ∷ rest) = join_onto (result ++ (codes ", " ++ name)) rest

abbrev pub join : List Bytes → Bytes
join [] = []
join (name ∷ rest) = join_onto name rest

-- `bits` are the binary digits that the masks of `table` test, and no name is empty.
abbrev describes : List ℕ → List (ℕ × Bytes) → Bool
describes [] [] = true
describes (bit ∷ bits) ((mask, name) ∷ table) =
    mask == 2 ^ bit && (not (equal name []) && describes bits table)
describes _ _ = false

digit_lt : (k a : ℕ) → binary_digit k a < 2
digit_lt ℕ.zero a = omega arith
digit_lt (suc k) a = digit_lt k (a / 2)

pow_pos : (k : ℕ) → 0 < 2 ^ k
pow_pos ℕ.zero = omega arith
pow_pos (suc k) = omega (arith, pow-suc 2 k, pow_pos k)

product_test : (d p : ℕ) → d < 2 → 0 < p → not (d * p == 0) ≡ (d == 1)
product_test ℕ.zero p hd hp = ground arith
product_test (suc ℕ.zero) p hd hp = ground arith
product_test (suc (suc d)) p hd hp = absurd (omega arith)

tests_digit :
    (status mask bit : ℕ)
    → mask ≡ 2 ^ bit
    → not (bit_and status mask == 0) ≡ (binary_digit bit status == 1)
tests_digit status mask bit e =
    rw (e, bit_and-pow bit status)
      (product_test (binary_digit bit status) (2 ^ bit) (digit_lt bit status) (pow_pos bit))

parts :
    (bit mask : ℕ) (name : Bytes) (bits : List ℕ) (table : List (ℕ × Bytes))
    → describes (bit ∷ bits) ((mask, name) ∷ table) ≡ true
    → (mask ≡ 2 ^ bit) × (describes bits table ≡ true)
parts bit mask name bits table d = ground arith

append_names-named :
    (status c : ℕ) (result : Bytes) (bits : List ℕ) (table : List (ℕ × Bytes))
    → describes bits table ≡ true
    → append_names status (c ∷ result) table
      ≡ join_onto (c ∷ result) (named status bits (map (λ e. e.1) table))
unfolding append_names
append_names-named status c result [] [] h = refl
append_names-named status c result [] (_ ∷ _) h = cc
append_names-named status c result (_ ∷ _) [] h = cc
append_names-named status c result (bit ∷ bits) ((mask, name) ∷ table) d =
    let (e, h) = parts bit mask name bits table d in
    rw (tests_digit status mask bit e) (elim (Bool-cases (binary_digit bit status == 1)) [
      | inl hit ↦ rw hit (
          rw (append_assoc result (codes ", ") name)
            (append_names-named status c (result ++ (codes ", " ++ name)) bits table h))
      | inr miss ↦ rw miss (append_names-named status c result bits table h)
    ])

append_names-join :
    (status : ℕ) (bits : List ℕ) (table : List (ℕ × Bytes))
    → describes bits table ≡ true
    → append_names status [] table ≡ join (named status bits (map (λ e. e.1) table))
unfolding append_names
append_names-join status [] [] h = refl
append_names-join status [] (_ ∷ _) h = cc
append_names-join status (_ ∷ _) [] h = cc
append_names-join status (bit ∷ bits) ((mask, []) ∷ table) d =
    let never : false ≡ true = ground arith in cc
append_names-join status (bit ∷ bits) ((mask, c ∷ name) ∷ table) d =
    let (e, h) = parts bit mask (c ∷ name) bits table d in
    rw (tests_digit status mask bit e) (elim (Bool-cases (binary_digit bit status == 1)) [
      | inl hit ↦ rw hit (append_names-named status c name bits table h)
      | inr miss ↦ rw miss (append_names-join status bits table h)
    ])

status_bits-describes : describes documented status_bits ≡ true
status_bits-describes = refl

-- A status that is not 0 is decoded to the names of its documented bits that are set, from bit 31
-- down, joined by ", ".
pub decode_status-join :
    (status : ℕ) → status ≢ 0 → decode_status status ≡ join (named status documented names)
unfolding decode_status
decode_status-join status h =
    let tested : (status == 0) ≡ false = ground arith in
    rw tested (append_names-join status documented status_bits status_bits-describes)
