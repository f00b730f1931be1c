-- ===== src/Base/Masks.antt =====
-- `&` with a mask of high bits and `|` of disjoint words, as arithmetic.
use Prim.Native.Nat.{ℕ, zero, suc, ◌+◌, ◌-◌, ◌*◌, ◌/◌, ◌%◌, ◌^◌, ◌≤◌, ◌<◌, bit_and, bit_or}
use mathlib.Core.Path.{◌≡◌, refl}
use native.Mathlib.Nat.{pow-suc, one-le-pow, le_refl, mul_comm}
use native.Mathlib.Omega.{arith}
use skippy_rs.Base.Bits.{bit_and_mask, bit_and_step, bit_or_step, mod-double}

mod-pow : (j x : ℕ) → x % 2 ^ suc j ≡ x / 2 % 2 ^ j * 2 + x % 2
mod-pow j x =
    rw (pow-suc 2 j)
      (rw (mul_comm (2 ^ j) 2) (mod-double x (2 ^ j) (omega (arith, one-le-pow j 2))))

-- The bits from `j` on of a number of `w` bits.
pub bit_and_high : (j w x : ℕ) → j ≤ w → x < 2 ^ w → bit_and x (2 ^ w - 2 ^ j) ≡ x - x % 2 ^ j
bit_and_high zero w x le lt =
    let all : bit_and x (2 ^ w - 1) ≡ x % 2 ^ w = bit_and_mask w x in grind (arith, all)
bit_and_high (suc j) zero x le lt = absurd (omega arith)
bit_and_high (suc j) (suc w) x le lt =
    let half : (2 ^ suc w - 2 ^ suc j) / 2 ≡ 2 ^ w - 2 ^ j =
      omega (arith, pow-suc 2 w, pow-suc 2 j) in
    let even : (2 ^ suc w - 2 ^ suc j) % 2 ≡ 0 = omega (arith, pow-suc 2 w, pow-suc 2 j) in
    let rest = bit_and_high j w (x / 2) (omega arith) (omega (arith, pow-suc 2 w)) in
    rw (bit_and_step, half, even, rest, mod-pow j x) (omega arith)

no_high : (bound x : ℕ) → x ≤ bound → bit_or x 0 ≡ x
no_high bound zero le = refl
no_high zero (suc x) le = absurd (omega arith)
no_high (suc bound) (suc x) le =
    omega (arith, bit_or_step (suc x) 0, no_high bound (suc x / 2) (omega arith))

-- A number without bits below `j`, and one below `2 ^ j`.
pub bit_or_apart : (j p t : ℕ) → p % 2 ^ j ≡ 0 → t < 2 ^ j → bit_or p t ≡ p + t
bit_or_apart zero p zero aligned lt = rw (no_high p p (le_refl p)) (omega arith)
bit_or_apart zero p (suc t) aligned lt = absurd (omega arith)
bit_or_apart (suc j) p t aligned lt =
    let split = mod-pow j p in
    let rest = bit_or_apart j (p / 2) (t / 2) (omega arith) (omega (arith, pow-suc 2 j)) in
    rw (bit_or_step, rest) (omega arith)

-- Between a multiple of `2 ^ j` and `2 ^ w` above it there is room for a number of `j` bits.
pub room_above : (j w p : ℕ) → j ≤ w → p % 2 ^ j ≡ 0 → p < 2 ^ w → p + 2 ^ j ≤ 2 ^ w
room_above zero w p le low lt = omega arith
room_above (suc j) zero p le low lt = absurd (omega arith)
room_above (suc j) (suc w) p le low lt =
    let split = mod-pow j p in
    let rest = room_above j w (p / 2) (omega arith) (omega arith) (omega (arith, pow-suc 2 w)) in
    omega (arith, pow-suc 2 w, pow-suc 2 j)
