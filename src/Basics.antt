-- ===== src/Basics.antt =====
-- src/internal/utils/mod.rs: what `skiplist_basics!` gives to both lists, `new`, `len`, `is_empty`,
-- `gen_height` and `drop`. The domain of hazard pointers is `haphazard`'s and the same for all
-- lists; what its `eager_reclaim` does is an argument of `drop`.
pub mod Height
pub mod Drop
use skippy_rs.Base.{
  ℕ, zero, suc, ◌+◌, ◌-◌, ◌*◌, ◌/◌, ◌%◌, ◌^◌, Bool, none, [], bit_xor, min, ltb, leb, ◌==◌,
  if◌then◌else◌, ok, out_of_fuel, pure, ◌>>=◌, ◌>>◌,
}
use skippy_rs.Node.{usize, max_levels}
use skippy_rs.Store.{Ptr, null, link_to, SkipList, Op, load_ptr, alloc, dealloc, drop_node}

-- `x.trailing_zeros()`, counted over at most `k` digits
unfoldable pub trailing_zeros : ℕ → ℕ → ℕ
trailing_zeros zero w = 0
trailing_zeros (suc k) w = if w % 2 == 1 then 0 else suc (trailing_zeros k (w / 2))

-- One round of the generator in `gen_height`, on 64-bit words.
unfoldable pub next_seed : ℕ → ℕ
next_seed seed =
    let a = bit_xor seed (seed * 2 ^ 13 % usize) in
    let b = bit_xor a (a / 2 ^ 17) in bit_xor b (b * 2 ^ 5 % usize)

module _ {V : Type 0} where
  -- `SkipList::new`, with what the allocator and `rand::random` return.
  unfoldable pub new : (fresh seed : ℕ) → Op V Ptr
  new fresh seed = do
    p ← alloc fresh max_levels
    λ s. ok p (record s { head = p; len = 0; max_height = 1; seed = seed })

  unfoldable pub len : Op V ℕ
  len s = ok s.len s

  unfoldable pub is_empty : Op V Bool
  is_empty s = ok (ltb s.len 1) s

  -- The `while` of `gen_height`: no taller than one level above the tallest that is linked.
  unfoldable pub lower_height : ℕ → Op V ℕ
  lower_height zero s = ok 0 s
  lower_height (suc h) s =
      if ltb (suc h) 4
      then ok (suc h) s
      else (do p ← load_ptr s.head (suc h - 2); if p == null then lower_height h else pure (suc h))
          s

  unfoldable pub gen_height : Op V ℕ
  gen_height s =
      let seed = next_seed s.seed in
      (do
        h ← lower_height (min max_levels (trailing_zeros 64 seed + 1))
        λ t. ok h (if ltb t.max_height h then record t { max_height = h } else t))
        (record s { seed = seed })

  -- The `while` of `drop`, on fuel.
  unfoldable pub drop_loop : ℕ → Ptr → Op V (Unit {0})
  drop_loop zero p = λ _. out_of_fuel
  drop_loop (suc f) p =
      if p == null then pure tt else do next ← load_ptr p 0; drop_node p; drop_loop f next

module _ {V : Type 0} (eager_reclaim : Op V (Unit {0})) where
  -- `Drop for SkipList`: what is retired and not protected, each node of the lowest level, then the head. A
  -- node more than `len` of fuel.
  unfoldable pub drop_list : Op V (Unit {0})
  drop_list s = (do eager_reclaim; p ← load_ptr s.head 0; drop_loop (s.len + 1) p; dealloc s.head) s
