-- ===== src/Node.antt =====
-- src/internal/utils/node.rs: the header word `height_and_removed` of a node, and the constants of
-- src/internal/utils/mod.rs that lay it out. A `usize` has 64 bits. From the top: bit 63 is the
-- `removed` flag, bits 6 to 62 count the levels that link the node, bits 0 to 5 hold its height.
-- Each method is a command whose state is the word; one atomic access is one step of it.
pub mod Header
use skippy_rs.Base.{
  ℕ, zero, suc, ◌+◌, ◌-◌, ◌/◌, ◌%◌, ◌^◌, ◌≡◌, Bool, true, false, bit_and, bit_or, ◌==◌,
  if◌then◌else◌, Run, ok, panic, Cmd, pure, ◌>>=◌,
}

-- `Result<A, E>`
pub data Result (A E : Type 0) : Type 0 where
  right : A → Result A E
  wrong : E → Result A E

abbrev pub usize : ℕ
usize = 2 ^ 64

-- `HEIGHT_BITS`
abbrev pub height_bits : ℕ
height_bits = 5

-- `HEIGHT`, the number of levels of the head
abbrev pub max_levels : ℕ
max_levels = 2 ^ height_bits

-- `HEIGHT_MASK`
abbrev pub height_mask : ℕ
height_mask = 2 ^ (height_bits + 1) - 1

-- `!x` on a word
abbrev pub bit_not : ℕ → ℕ
bit_not x = usize - 1 - x

-- `REMOVED_MASK`, which is `!(usize::MAX >> 1)`
abbrev pub removed_mask : ℕ
removed_mask = bit_not ((usize - 1) / 2)

-- one unit of the reference count, `1 << (HEIGHT_BITS + 1)`
abbrev pub one_ref : ℕ
one_ref = 2 ^ (height_bits + 1)

-- How many digits a number has in binary; the first argument bounds the answer.
unfoldable pub bit_length : ℕ → ℕ → ℕ
bit_length zero w = 0
bit_length (suc k) w = if w == 0 then 0 else suc (bit_length k (w / 2))

abbrev pub leading_zeros : ℕ → ℕ
leading_zeros w = 64 - bit_length 64 w

abbrev load : Cmd ℕ ℕ
load w = ok w w

abbrev compare_exchange : ℕ → ℕ → Cmd ℕ (Result ℕ ℕ)
compare_exchange expected new w = if w == expected then ok (right w) new else ok (wrong w) w

unfoldable pub height : ℕ → ℕ
height w = bit_and w height_mask

unfoldable pub refs : ℕ → ℕ
refs w = bit_and w (bit_not removed_mask) / 2 ^ (height_bits + 1)

unfoldable pub removed : ℕ → Bool
removed w = leading_zeros w == 0

-- `fetch_add`, which wraps and returns the old word
unfoldable pub add_ref : Cmd ℕ ℕ
add_ref w = ok w ((w + one_ref) % usize)

unfoldable pub try_add_ref : Cmd ℕ (Result ℕ ℕ)
unfolding refs
try_add_ref w =
    if refs w == 0 then ok (wrong w) w else ok (right (refs w + 1)) ((w + one_ref) % usize)

-- `fetch_sub`, which wraps and returns the old word
unfoldable pub sub_ref : Cmd ℕ ℕ
sub_ref w = ok w ((w + usize - one_ref) % usize)

unfoldable pub try_sub_ref : Cmd ℕ (Result ℕ ℕ)
unfolding refs
try_sub_ref w =
    if refs w == 0 then panic else ok (right (refs w - 1)) ((w + usize - one_ref) % usize)

abbrev no_error : Result ℕ ℕ → Result ℕ (Unit {0})
no_error (right n) = right n
no_error (wrong n) = wrong tt

unfoldable pub set_har_with : (ℕ → ℕ) → Cmd ℕ (Result ℕ (Unit {0}))
set_har_with f = do
  old ← load
  if f old == old then pure (wrong tt) else do r ← compare_exchange old (f old); pure (no_error r)

unfoldable pub set_removed : Cmd ℕ (Result ℕ (Unit {0}))
unfolding set_har_with
set_removed = set_har_with (λ old. bit_or old removed_mask)
