-- ===== src/Prelude/Bits.antt =====
-- Laws of `|` and `&` with small masks, from the digit recursion that the operations stand for.
use Prim.Native.Nat.{
  bit_and, bit_or, bit_and-bitwise, bit_or-bitwise, bitwise, digits, min, max, ◌≤◌, ◌<◌, ◌+◌, ◌*◌,
  ◌/◌, ◌%◌, ◌^◌, ℕ, suc, zero,
}
use mathlib.Core.Path.{ap, refl, ◌≡◌}
use native.Mathlib.Omega.{arith}
use native.Mathlib.Nat.{pow-suc}

-- An operation of digits: how it takes off the lowest one.
module _ (rest : ℕ → ℕ) (op : ℕ → ℕ → ℕ)
    (rest_digit : (y : ℕ) → rest y ≡ rest (y / 2) * 2 + op 0 (y % 2)) where
  -- More digits to go than the first number has make no difference. The bound `k` carries the
  -- induction, which goes from `n` to two smaller counts.
  digits-bitwise : (k n x y : ℕ) → n ≤ k → x ≤ n → digits rest op n x y ≡ bitwise rest op x y
  digits-bitwise k zero zero y _ _ = refl
  digits-bitwise k zero (suc x) y _ short = absurd (omega arith)
  digits-bitwise k (suc n) zero y _ _ = refl
  digits-bitwise zero (suc n) (suc x) y low _ = absurd (omega arith)
  digits-bitwise (suc k) (suc n) (suc x) y low short =
      let half : suc x / 2 ≤ x = omega arith in
      omega (
        arith,
        digits-bitwise k n (suc x / 2) (y / 2) (omega arith) (omega arith),
        digits-bitwise k x (suc x / 2) (y / 2) (omega arith) half,
      )

  bitwise_halves :
      (x y : ℕ) → bitwise rest op x y ≡ bitwise rest op (x / 2) (y / 2) * 2 + op (x % 2) (y % 2)
  bitwise_halves zero y = rest_digit y
  bitwise_halves (suc x) y =
      omega (arith, digits-bitwise x x (suc x / 2) (y / 2) (omega arith) (omega arith))

and_halves : (x y : ℕ) → bit_and x y ≡ bit_and (x / 2) (y / 2) * 2 + min (x % 2) (y % 2)
and_halves x y = omega (
  arith,
  bit_and-bitwise x y,
  bit_and-bitwise (x / 2) (y / 2),
  bitwise_halves (λ _. 0) min (λ _. omega arith) x y,
)

or_halves : (x y : ℕ) → bit_or x y ≡ bit_or (x / 2) (y / 2) * 2 + max (x % 2) (y % 2)
or_halves x y = omega (
  arith,
  bit_or-bitwise x y,
  bit_or-bitwise (x / 2) (y / 2),
  bitwise_halves (λ c. c) max (λ c. omega arith) x y,
)

-- No digit is in common with 0.
digits_and-zero : (n x : ℕ) → digits (λ _. 0) min n x 0 ≡ 0
digits_and-zero zero x = refl
digits_and-zero (suc n) zero = refl
digits_and-zero (suc n) (suc x) = omega (arith, digits_and-zero n (suc x / 2))

bit_and-zero : (x : ℕ) → bit_and x 0 ≡ 0
bit_and-zero x = omega (arith, bit_and-bitwise x 0, digits_and-zero x x)

digits_or-zero : (n x : ℕ) → x ≤ n → digits (λ c. c) max n x 0 ≡ x
digits_or-zero zero x low = omega arith
digits_or-zero (suc n) zero low = refl
digits_or-zero (suc n) (suc x) low = omega (arith, digits_or-zero n (suc x / 2) (omega arith))

bit_or-zero : (x : ℕ) → bit_or x 0 ≡ x
bit_or-zero x = omega (arith, bit_or-bitwise x 0, digits_or-zero x x (omega arith))

-- `x & 3`
pub bit_and_three : (a : ℕ) → bit_and a 3 ≡ a % 4
bit_and_three a = omega (arith, and_halves a 3, and_halves (a / 2) 1, bit_and-zero (a / 2 / 2))

bit_or_nothing : (a b : ℕ) → b ≡ 0 → bit_or a b ≡ a
bit_or_nothing a b e = rw e (bit_or-zero a)

-- `(n << 2) | k` for a two-bit tag `k`
pub bit_or_tag : (n k : ℕ) → k < 4 → bit_or (n * 4) k ≡ n * 4 + k
bit_or_tag n k h = omega (
  arith,
  or_halves (n * 4) k,
  or_halves (n * 4 / 2) (k / 2),
  bit_or_nothing (n * 4 / 2 / 2) (k / 2 / 2) (omega arith),
)

-- `x | (y << k)`, where x has at most k bits
pub bit_or_disjoint : (k x y z : ℕ) → x < 2 ^ k → z ≡ y * 2 ^ k → bit_or x z ≡ x + z
bit_or_disjoint zero zero y z h e = omega (arith, bit_or-bitwise 0 z)
bit_or_disjoint zero (suc x) y z h e = absurd (omega arith)
bit_or_disjoint (suc k) x y z h e = omega (
  arith,
  or_halves x z,
  bit_or_disjoint k (x / 2) y (z / 2) (omega (arith, pow-suc 2 k))
      (omega (arith, ap (λ (t : ℕ). y * t) (pow-suc 2 k))),
  ap (λ (t : ℕ). y * t) (pow-suc 2 k),
)
