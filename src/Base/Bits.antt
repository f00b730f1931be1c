-- ===== src/Base/Bits.antt =====
-- `&` with a mask of low bits, `|` with one high bit and `^` on bounded words, as arithmetic.
use Prim.Native.Nat.{
  ℕ, zero, suc, ◌+◌, ◌-◌, ◌*◌, ◌/◌, ◌%◌, ◌^◌, ◌≤◌, ◌<◌, min, max, differ, bit_and, bit_or, bit_xor,
  digits, bitwise, bit_and-bitwise, bit_or-bitwise, bit_xor-bitwise,
}
use mathlib.Core.Path.{◌≡◌, refl, sym, ◌∙◌}
use native.Mathlib.Nat.{pow-suc, one-le-pow, le_refl, mul_comm}
use native.Mathlib.Omega.{arith}

module _ (z : ℕ → ℕ) (op : ℕ → ℕ → ℕ) where
  digits-zero : (fuel y : ℕ) → digits z op fuel 0 y ≡ z y
  digits-zero zero y = refl
  digits-zero (suc fuel) y = refl

  -- More fuel than the number itself changes nothing.
  spare_fuel :
      (x y fuel more : ℕ) → x ≤ fuel → fuel ≤ more → digits z op more x y ≡ digits z op fuel x y
  spare_fuel zero y fuel more enough le = digits-zero more y ∙ sym (digits-zero fuel y)
  spare_fuel (suc x) y zero more enough le = absurd (omega arith)
  spare_fuel (suc x) y (suc fuel) zero enough le = absurd (omega arith)
  spare_fuel (suc x) y (suc fuel) (suc more) enough le =
      rw (spare_fuel (suc x / 2) (y / 2) fuel more (omega arith) (omega arith))

  lowest_digit :
      (x y : ℕ)
      → bitwise z op (suc x) y ≡ op (suc x % 2) (y % 2) + 2 * bitwise z op (suc x / 2) (y / 2)
  lowest_digit x y =
      let half = suc x / 2 in
      omega (arith, spare_fuel half (y / 2) half x (omega arith) (omega arith))

pub bit_and_step : (x y : ℕ) → bit_and x y ≡ min (x % 2) (y % 2) + 2 * bit_and (x / 2) (y / 2)
bit_and_step zero y = simp bit_and-bitwise (omega arith)
bit_and_step (suc x) y = simp bit_and-bitwise (lowest_digit (λ _. 0) min x y)

pub bit_or_step : (x y : ℕ) → bit_or x y ≡ max (x % 2) (y % 2) + 2 * bit_or (x / 2) (y / 2)
bit_or_step zero y = simp bit_or-bitwise (omega arith)
bit_or_step (suc x) y = simp bit_or-bitwise (lowest_digit (λ w. w) max x y)

-- `x & 0`; the recursion is on a bound of `x`.
nothing_masked : (bound x : ℕ) → x ≤ bound → bit_and x 0 ≡ 0
nothing_masked bound zero le = refl
nothing_masked zero (suc x) le = absurd (omega arith)
nothing_masked (suc bound) (suc x) le =
    omega (arith, bit_and_step (suc x) 0, nothing_masked bound (suc x / 2) (omega arith))

pub mod-double : (a m : ℕ) → 0 < m → a % (2 * m) ≡ a / 2 % m * 2 + a % 2
mod-double a m h = grind arith

-- `a & (2 ^ k - 1)` is the remainder by `2 ^ k`.
pub bit_and_mask : (k a : ℕ) → bit_and a (2 ^ k - 1) ≡ a % 2 ^ k
bit_and_mask zero a = rw (nothing_masked a a (le_refl a)) (omega arith)
bit_and_mask (suc k) a =
    let half : (2 ^ suc k - 1) / 2 ≡ 2 ^ k - 1 = omega (arith, pow-suc 2 k, one-le-pow k 2) in
    let odd : (2 ^ suc k - 1) % 2 ≡ 1 = omega (arith, pow-suc 2 k, one-le-pow k 2) in
    let ends : a % 2 ^ suc k ≡ a / 2 % 2 ^ k * 2 + a % 2 =
      rw (pow-suc 2 k)
        (rw (mul_comm (2 ^ k) 2) (mod-double a (2 ^ k) (omega (arith, one-le-pow k 2)))) in
    rw (bit_and_step, half, odd, bit_and_mask k (a / 2), ends) (omega arith)

-- `a | 2 ^ k` sets bit `k` of a number of `k + 1` bits.
pub bit_or_high : (k a : ℕ) → a < 2 ^ suc k → bit_or a (2 ^ k) ≡ a % 2 ^ k + 2 ^ k
bit_or_high zero zero h = refl
bit_or_high zero (suc zero) h = refl
bit_or_high zero (suc (suc a)) h = absurd (omega arith)
bit_or_high (suc k) a h =
    let half : 2 ^ suc k / 2 ≡ 2 ^ k = omega (arith, pow-suc 2 k) in
    let even : 2 ^ suc k % 2 ≡ 0 = omega (arith, pow-suc 2 k) in
    let ends : a % 2 ^ suc k ≡ a / 2 % 2 ^ k * 2 + a % 2 =
      rw (pow-suc 2 k)
        (rw (mul_comm (2 ^ k) 2) (mod-double a (2 ^ k) (omega (arith, one-le-pow k 2)))) in
    let fits : a / 2 < 2 ^ suc k = omega (arith, pow-suc 2 (suc k)) in
    rw (bit_or_step, half, even, bit_or_high k (a / 2) fits, ends) (omega (arith, pow-suc 2 k))

bit_xor_step : (x y : ℕ) → bit_xor x y ≡ differ (x % 2) (y % 2) + 2 * bit_xor (x / 2) (y / 2)
bit_xor_step zero y = simp bit_xor-bitwise (omega arith)
bit_xor_step (suc x) y = simp bit_xor-bitwise (lowest_digit (λ w. w) differ x y)

differ-bits : (x y : ℕ) → x ≤ 1 → y ≤ 1 → differ x y ≤ 1
differ-bits zero y hx hy = hy
differ-bits (suc x) zero hx hy = hx
differ-bits (suc zero) (suc zero) hx hy = omega arith
differ-bits (suc zero) (suc (suc y)) hx hy = absurd (omega arith)
differ-bits (suc (suc x)) (suc y) hx hy = absurd (omega arith)

-- `a ^ b` of two words of `k` bits is a word of `k` bits.
pub bit_xor-lt : (k a b : ℕ) → a < 2 ^ k → b < 2 ^ k → bit_xor a b < 2 ^ k
bit_xor-lt zero zero zero ha hb = omega arith
bit_xor-lt zero zero (suc b) ha hb = absurd (omega arith)
bit_xor-lt zero (suc a) b ha hb = absurd (omega arith)
bit_xor-lt (suc k) a b ha hb =
    let rec =
      bit_xor-lt k (a / 2) (b / 2) (omega (arith, pow-suc 2 k)) (omega (arith, pow-suc 2 k)) in
    omega (
      arith,
      bit_xor_step a b,
      differ-bits (a % 2) (b % 2) (omega arith) (omega arith),
      pow-suc 2 k,
      rec,
    )
