-- ===== src/Base/Bits.antt =====
-- Laws of `|` and `&` on machine words, from the digit recursion of the native operations.
use Prim.Native.Nat.{
  ℕ, zero, suc, ◌+◌, ◌*◌, ◌/◌, ◌%◌, ◌^◌, ◌≤◌, ◌<◌, min, max, bit_and, bit_or, digits,
  bit_and-bitwise, bit_or-bitwise,
}
use mathlib.Core.Path.{◌≡◌, refl, sym, ap, ◌∙◌}
use native.Mathlib.Nat.{pow-suc}
use native.Mathlib.Omega.{arith}

-- `last` is the result when the first number has run out, and `op` the operation on digits.
module _ (last : ℕ → ℕ) (op : ℕ → ℕ → ℕ) where
  -- A count of at least `x` gives what the count `x` gives.
  digits-count :
      (bound count x y : ℕ)
      → count ≤ bound
      → x ≤ count
      → digits last op count x y ≡ digits last op x x y
  digits-count bound count zero y small enough = by_count count
    where
      by_count : (m : ℕ) → digits last op m zero y ≡ last y
      by_count zero = refl
      by_count (suc m) = refl
  digits-count bound zero (suc x) y small enough = absurd (omega arith)
  digits-count zero (suc count) (suc x) y small enough = absurd (omega arith)
  digits-count (suc bound) (suc count) (suc x) y small enough =
      let half = suc x / 2 in
      let below : half ≤ x = omega arith in
      let many = digits-count bound count half (y / 2) (omega arith) (omega arith) in
      let few = digits-count bound x half (y / 2) (omega arith) below in
      ap (λ (d : ℕ). d * 2 + op (suc x % 2) (y % 2)) (many ∙ sym few)

  -- The digits of a positive first number: those of the halves, then the lowest one.
  digits-halves :
      (x y : ℕ)
      → digits last op (suc x) (suc x) y
        ≡ digits last op (suc x / 2) (suc x / 2) (y / 2) * 2 + op (suc x % 2) (y % 2)
  digits-halves x y =
      ap (λ (d : ℕ). d * 2 + op (suc x % 2) (y % 2))
        (digits-count x x (suc x / 2) (y / 2) (omega arith) (omega arith))

bit_and-halves : (x y : ℕ) → bit_and x y ≡ bit_and (x / 2) (y / 2) * 2 + min (x % 2) (y % 2)
bit_and-halves x y = rw (bit_and-bitwise x y, bit_and-bitwise (x / 2) (y / 2)) (by_first x)
  where
    by_first :
        (m : ℕ)
        → digits (λ d. 0) min m m y
          ≡ digits (λ d. 0) min (m / 2) (m / 2) (y / 2) * 2 + min (m % 2) (y % 2)
    by_first zero = omega arith
    by_first (suc m) = digits-halves (λ d. 0) min m y

digits-min : (count x : ℕ) → digits (λ d. 0) min count x 0 ≡ 0
digits-min zero x = refl
digits-min (suc count) zero = refl
digits-min (suc count) (suc x) = omega (arith, digits-min count (suc x / 2))

no_digits : (x : ℕ) → bit_and x 0 ≡ 0
no_digits x = bit_and-bitwise x 0 ∙ digits-min x x

-- Binary digit `k` of `a`, lowest first.
abbrev pub binary_digit : ℕ → ℕ → ℕ
binary_digit zero a = a % 2
binary_digit (suc k) a = binary_digit k (a / 2)

-- A mask with one bit set tests that bit.
pub bit_and-pow : (k a : ℕ) → bit_and a (2 ^ k) ≡ binary_digit k a * 2 ^ k
bit_and-pow zero a = omega (arith, bit_and-halves a 1, no_digits (a / 2))
bit_and-pow (suc k) a =
    let twice : 2 ^ suc k ≡ 2 ^ k * 2 = pow-suc 2 k in
    let half : 2 ^ k * 2 / 2 ≡ 2 ^ k = omega arith in
    rw twice (
      omega (arith, bit_and-halves a (2 ^ k * 2), ap (bit_and (a / 2)) half, bit_and-pow k (a / 2)))

bit_or-halves : (x y : ℕ) → bit_or x y ≡ bit_or (x / 2) (y / 2) * 2 + max (x % 2) (y % 2)
bit_or-halves x y = rw (bit_or-bitwise x y, bit_or-bitwise (x / 2) (y / 2)) (by_first x)
  where
    by_first :
        (m : ℕ)
        → digits (λ d. d) max m m y
          ≡ digits (λ d. d) max (m / 2) (m / 2) (y / 2) * 2 + max (m % 2) (y % 2)
    by_first zero = omega arith
    by_first (suc m) = digits-halves (λ d. d) max m y

digits-max : (count x : ℕ) → x ≤ count → digits (λ d. d) max count x 0 ≡ x
digits-max zero x le = omega arith
digits-max (suc count) zero le = refl
digits-max (suc count) (suc x) le = omega (arith, digits-max count (suc x / 2) (omega arith))

same_digits : (x : ℕ) → bit_or x 0 ≡ x
same_digits x = bit_or-bitwise x 0 ∙ digits-max x x (omega arith)

-- `a << k | b` is a sum where `b` has `k` bits.
pub bit_or-shifted : (k a b : ℕ) → b < 2 ^ k → bit_or (a * 2 ^ k) b ≡ a * 2 ^ k + b
bit_or-shifted zero a b h = let e : b ≡ 0 = omega arith in rw e (omega (arith, same_digits (a * 1)))
bit_or-shifted (suc k) a b h =
    let twice : a * 2 ^ suc k ≡ a * 2 ^ k * 2 =
      omega (arith, pow-suc 2 k, ap (λ (t : ℕ). a * t) (pow-suc 2 k)) in
    let half : a * 2 ^ k * 2 / 2 ≡ a * 2 ^ k = omega arith in
    let small : b / 2 < 2 ^ k = omega (arith, pow-suc 2 k) in
    rw twice (
      omega (
        arith,
        bit_or-halves (a * 2 ^ k * 2) b,
        ap (λ (t : ℕ). bit_or t (b / 2)) half,
        bit_or-shifted k a (b / 2) small,
      ))
