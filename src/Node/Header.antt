-- ===== src/Node/Header.antt =====
-- The header word of a node as the three fields that it packs.
use Prim.Native.Nat.{◌*◌}
use skippy_rs.Base.{
  ℕ, zero, suc, ◌+◌, ◌-◌, ◌/◌, ◌%◌, ◌^◌, ◌≡◌, ◌≤◌, ◌<◌, Bool, true, false, arith, bit_or, ◌==◌,
  if◌then◌else◌, ok, panic, leb,
}
use skippy_rs.Base.Bits.{bit_and_mask, bit_or_high}
use skippy_rs.Node.{
  usize, right, wrong, one_ref, bit_length, height, refs, removed, add_ref, try_add_ref, sub_ref,
  try_sub_ref, set_removed, removed_mask,
}
use native.Mathlib.Nat.{pow-suc, one-le-pow}

bit_length-le : (k n w : ℕ) → w < 2 ^ k → bit_length n w ≤ k
unfolding bit_length
bit_length-le k zero w h = omega arith
bit_length-le zero (suc n) w h = ground arith
bit_length-le (suc k) (suc n) w h =
    ground (arith, pow-suc 2 k, bit_length-le k n (w / 2) (omega (arith, pow-suc 2 k)))

bit_length-full : (k w : ℕ) → 2 ^ k ≤ w → suc k ≤ bit_length (suc k) w
unfolding bit_length
bit_length-full zero w h = ground arith
bit_length-full (suc k) w h =
    ground
      (arith, one-le-pow k 2, pow-suc 2 k, bit_length-full k (w / 2) (omega (arith, pow-suc 2 k)))

abbrev pub flag : Bool → ℕ
flag true = 2 ^ 63
flag false = 0

-- The word that packs a flag, a count and a height.
abbrev pub word : Bool → ℕ → ℕ → ℕ
word r n h = flag r + n * one_ref + h

pub height-mod : (w : ℕ) → height w ≡ w % 64
unfolding height
height-mod w = bit_and_mask 6 w

pub refs-div : (w : ℕ) → refs w ≡ w % 2 ^ 63 / 64
unfolding refs
refs-div w = rw (bit_and_mask 63)

pub removed-leb : (w : ℕ) → w < usize → removed w ≡ leb (2 ^ 63) w
unfolding removed
removed-leb w h = ground (arith, bit_length-full 63 w, bit_length-le 63 64 w, bit_length-le 64 64 w)

module _ (r : Bool) (n h : ℕ) (few : n < 2 ^ 57) (low : h < 64) where
  pub word-lt : word r n h < usize
  word-lt = ground arith

  -- On a word that packs a flag, a count below 2^57 and a height below 64, each of `height`, `refs` and
  -- `removed` reads its own field.
  pub fields : (height (word r n h) ≡ h) × (refs (word r n h) ≡ n) × (removed (word r n h) ≡ r)
  fields = (
    rw height-mod (ground arith),
    rw refs-div (ground arith),
    rw (removed-leb (word r n h) word-lt) (ground arith),
  )

  -- On a packed word a count of 0 is refused with the old word; any other that has room grows by one,
  -- and the flag and height stay.
  pub try_add_ref_lem :
      n + 1 < 2 ^ 57
      → try_add_ref (word r n h) ≡ (
          if n == 0
          then ok (wrong (word r n h)) (word r n h)
          else ok (right (n + 1)) (word r (n + 1) h))
  unfolding try_add_ref
  try_add_ref_lem room = rw (fields.1) (ground arith)

  pub add_ref_lem : n + 1 < 2 ^ 57 → add_ref (word r n h) ≡ ok (word r n h) (word r (n + 1) h)
  unfolding add_ref
  add_ref_lem room = ground arith

  -- On a packed word a count of 0 panics; any other falls by one, and the flag and height stay.
  pub try_sub_ref_lem :
      try_sub_ref (word r n h) ≡ (if n == 0 then panic else ok (right (n - 1)) (word r (n - 1) h))
  unfolding try_sub_ref
  try_sub_ref_lem = rw (fields.1) (ground arith)

  pub word-flagged : bit_or (word r n h) removed_mask ≡ word true n h
  word-flagged = rw (bit_or_high 63 (word r n h) word-lt) (ground arith)

  -- On a packed word the flag is set once: a word that has it is refused, and the count and height
  -- stay.
  pub set_removed_lem :
      set_removed (word r n h)
      ≡ (if r then ok (wrong tt) (word r n h) else ok (right (word r n h)) (word true n h))
  unfolding set_removed
  set_removed_lem = rw word-flagged (ground arith)

  pub sub_ref_lem : 0 < n → sub_ref (word r n h) ≡ ok (word r n h) (word r (n - 1) h)
  unfolding sub_ref
  sub_ref_lem some_ref = ground arith
