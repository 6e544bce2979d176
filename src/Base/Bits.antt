-- ===== src/Base/Bits.antt =====
-- `&` and `|` on variables, as arithmetic: a mask that is a run of ones selects a field, and
-- disjoint fields join to a sum.
use Prim.Native.Nat.{
  ℕ, zero, suc, ◌+◌, ◌*◌, ◌/◌, ◌%◌, ◌^◌, ◌≤◌, ◌<◌, min, max, bit_and, bit_or, digits,
  bit_and-bitwise, bit_or-bitwise,
}
use mathlib.Core.Path.{◌≡◌, refl, sym, ap, ◌∙◌}
use native.Mathlib.Nat.{pow-suc, div-div-eq-div-mul}
use native.Mathlib.Omega.{arith}

module _ (base : ℕ → ℕ) (join : ℕ → ℕ → ℕ) where
  digits_of_zero : (fuel other : ℕ) → digits base join fuel 0 other ≡ base other
  digits_of_zero zero other = refl
  digits_of_zero (suc fuel) other = refl

  -- The digits do not depend on the fuel, where it covers the first number.
  digits_more :
      (fuel less v other : ℕ)
      → v ≤ less
      → v ≤ fuel
      → digits base join fuel v other ≡ digits base join less v other
  digits_more fuel less zero other h k = digits_of_zero fuel other ∙ sym (digits_of_zero less other)
  digits_more zero less (suc v) other h k = elim k [ ]
  digits_more (suc fuel) zero (suc v) other h k = elim h [ ]
  digits_more (suc fuel) (suc less) (suc v) other h k =
      ap (λ r. r * 2 + join (suc v % 2) (other % 2))
        (digits_more fuel less (suc v / 2) (other / 2) (omega arith) (omega arith))

pub bit_or_halves : (v w : ℕ) → bit_or v w ≡ bit_or (v / 2) (w / 2) * 2 + max (v % 2) (w % 2)
bit_or_halves zero w = omega (arith, bit_or-bitwise 0 w, bit_or-bitwise 0 (w / 2))
bit_or_halves (suc v) w =
    let half : ℕ = suc v / 2 in
    let same = digits_more (λ rest. rest) max v half half (w / 2) (omega arith) (omega arith) in
    omega (arith, same, bit_or-bitwise half (w / 2), bit_or-bitwise (suc v) w)

pub bit_and_halves : (v w : ℕ) → bit_and v w ≡ bit_and (v / 2) (w / 2) * 2 + min (v % 2) (w % 2)
bit_and_halves zero w = omega (arith, bit_and-bitwise 0 w, bit_and-bitwise 0 (w / 2))
bit_and_halves (suc v) w =
    let half : ℕ = suc v / 2 in
    let same = digits_more (λ rest. 0) min v half half (w / 2) (omega arith) (omega arith) in
    omega (arith, same, bit_and-bitwise half (w / 2), bit_and-bitwise (suc v) w)

-- The halving goes from `v` to `v / 2`, which the fuel follows.
masked_out : (fuel v : ℕ) → v ≤ fuel → bit_and v 0 ≡ 0
masked_out zero v k =
    omega (arith, ap (λ x. bit_and x 0) {x = v} {y = 0} (omega arith), bit_and-bitwise 0 0)
masked_out (suc fuel) v k = omega (arith, bit_and_halves v 0, masked_out fuel (v / 2) (omega arith))

pub bit_and-zero : (v : ℕ) → bit_and v 0 ≡ 0
bit_and-zero v = masked_out v v (omega arith)

-- `&` with a field that starts one bit up.
and_double : (a m : ℕ) → bit_and a (2 * m) ≡ bit_and (a / 2) m * 2
and_double a m =
    omega
      (arith, bit_and_halves a (2 * m), ap (bit_and (a / 2)) {x = 2 * m / 2} {y = m} (omega arith))

or_double : (r x : ℕ) → bit_or r (2 * x) ≡ bit_or (r / 2) x * 2 + r % 2
or_double r x =
    omega
      (arith, bit_or_halves r (2 * x), ap (bit_or (r / 2)) {x = 2 * x / 2} {y = x} (omega arith))

mul_pow_suc : (m k : ℕ) → m * 2 ^ suc k ≡ 2 * (m * 2 ^ k)
mul_pow_suc m k = omega (arith, ap (λ (t : ℕ). m * t) (pow-suc 2 k))

div_pow_suc : (v k : ℕ) → v / 2 / 2 ^ k ≡ v / 2 ^ suc k
div_pow_suc v k = div-div-eq-div-mul v 2 (2 ^ k) ∙ ap (λ d. v / d) (omega (arith, pow-suc 2 k))

-- `v & (m << k)` is the field of `v` from bit `k` on, masked by `m` and put back.
pub bit_and_field : (k v m : ℕ) → bit_and v (m * 2 ^ k) ≡ bit_and (v / 2 ^ k) m * 2 ^ k
bit_and_field zero v m = omega (
  arith,
  ap (bit_and v) {x = m * 2 ^ 0} {y = m} (omega arith),
  ap (λ y. bit_and y m) {x = v / 2 ^ 0} {y = v} (omega arith),
)
bit_and_field (suc k) v m = omega (
  arith,
  ap (bit_and v) (mul_pow_suc m k),
  and_double v (m * 2 ^ k),
  bit_and_field k (v / 2) m,
  ap (λ y. bit_and y m * 2 ^ k) (div_pow_suc v k),
  mul_pow_suc (bit_and (v / 2 ^ suc k) m) k,
)

-- `r | (x << k)` is a sum where `r` fits `k` bits.
pub bit_or_field : (k r x : ℕ) → r < 2 ^ k → bit_or r (x * 2 ^ k) ≡ r + x * 2 ^ k
bit_or_field zero r x h = omega (
  arith,
  bit_or-bitwise 0 x,
  ap (bit_or r) {x = x * 2 ^ 0} {y = x} (omega arith),
  ap (λ y. bit_or y x) {x = r} {y = 0} (omega arith),
)
bit_or_field (suc k) r x h =
    rw mul_pow_suc (
      omega (arith, or_double r (x * 2 ^ k), bit_or_field k (r / 2) x (omega (arith, pow-suc 2 k))))

-- A mask of ones, one bit at a time.
and_one_bit : (a m : ℕ) → bit_and a (2 * m + 1) ≡ bit_and (a / 2) m * 2 + a % 2
and_one_bit a m = omega (
  arith,
  bit_and_halves a (2 * m + 1),
  ap (bit_and (a / 2)) {x = (2 * m + 1) / 2} {y = m} (omega arith),
)

pub bit_and_15 : (a : ℕ) → bit_and a 15 ≡ a % 16
bit_and_15 a = omega (
  arith,
  and_one_bit a 7,
  and_one_bit (a / 2) 3,
  and_one_bit (a / 2 / 2) 1,
  and_one_bit (a / 2 / 2 / 2) 0,
  bit_and-zero (a / 2 / 2 / 2 / 2),
)

pub bit_and_255 : (a : ℕ) → bit_and a 255 ≡ a % 256
bit_and_255 a = omega (
  arith,
  and_one_bit a 127,
  and_one_bit (a / 2) 63,
  and_one_bit (a / 2 / 2) 31,
  and_one_bit (a / 2 / 2 / 2) 15,
  bit_and_15 (a / 2 / 2 / 2 / 2),
)
