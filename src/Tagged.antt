-- ===== src/Tagged.antt =====
-- src/internal/sync/tagged.rs: a pointer and a tag in one word. A word has 64 bits; `align` is the power
-- of two to which nodes are aligned, and the bits below it hold the tag. Each method is a command on
-- the word; one atomic access is one step of it. A `compare_exchange` succeeds when the word is the
-- one expected.
pub mod Words
use skippy_rs.Base.{
  ℕ, zero, suc, ◌-◌, bit_and, bit_or, ◌==◌, if◌then◌else◌, ok, out_of_fuel, Cmd, pure, ◌>>=◌,
}
use skippy_rs.Node.{Result, right, wrong, bit_not}
use skippy_rs.Store.{Ptr, Link, link_to}

module _ (align : ℕ) where
  -- `unused_bits`
  abbrev pub unused_bits : ℕ
  unused_bits = align - 1

  unfoldable pub decompose_raw : ℕ → Link
  decompose_raw raw = link_to (bit_and raw (bit_not unused_bits)) (bit_and raw unused_bits)

  unfoldable pub compose_raw : Ptr → ℕ → ℕ
  compose_raw ptr tag = bit_or (bit_and ptr (bit_not unused_bits)) (bit_and tag unused_bits)

  unfoldable pub load_decomposed : Cmd ℕ Link
  load_decomposed w = ok (decompose_raw w) w

  unfoldable pub load_ptr : Cmd ℕ Ptr
  load_ptr = do k ← load_decomposed; pure k.ptr

  unfoldable pub load_tag : Cmd ℕ ℕ
  load_tag = do k ← load_decomposed; pure k.tag

  unfoldable pub store_composed : Ptr → ℕ → Cmd ℕ (Unit {0})
  store_composed ptr tag w = ok tt (compose_raw ptr tag)

  unfoldable pub store_ptr : Ptr → Cmd ℕ (Unit {0})
  store_ptr ptr = store_composed ptr 0

  unfoldable pub compare_exchange_with_tag : Ptr → ℕ → Ptr → ℕ → Cmd ℕ (Result Link Link)
  compare_exchange_with_tag expected e_tag new n_tag w =
      if w == compose_raw expected e_tag
      then ok (right (decompose_raw w)) (compose_raw new n_tag)
      else ok (wrong (decompose_raw w)) w

  unfoldable pub compare_exchange : Ptr → Ptr → Cmd ℕ (Result Link Link)
  compare_exchange expected new = compare_exchange_with_tag expected 0 new 0

  -- The `while let` of `tag`, on fuel.
  unfoldable pub tag_loop : ℕ → Link → ℕ → Cmd ℕ (Unit {0})
  tag_loop zero old tag = λ _. out_of_fuel
  tag_loop (suc f) old tag = do
    r ← compare_exchange_with_tag old.ptr old.tag old.ptr tag
    elim r [ right k ↦ pure tt | wrong other ↦ tag_loop f other tag ]

  unfoldable pub set_tag : ℕ → ℕ → Cmd ℕ (Unit {0})
  set_tag f tag = do old ← load_decomposed; tag_loop f old tag

  unfoldable pub try_tag : Ptr → ℕ → Cmd ℕ (Result Ptr Ptr)
  try_tag expected tag = do
    old_tag ← load_tag
    r ← compare_exchange_with_tag expected old_tag expected tag
    elim r [ right k ↦ pure (right k.ptr) | wrong k ↦ pure (wrong k.ptr) ]

  -- The `while let` of `compare_exchange_tag`, on fuel.
  unfoldable pub exchange_tag_loop : ℕ → Ptr → ℕ → ℕ → Cmd ℕ (Result ℕ ℕ)
  exchange_tag_loop zero ptr e_tag tag = λ _. out_of_fuel
  exchange_tag_loop (suc f) ptr e_tag tag = do
    r ← compare_exchange_with_tag ptr e_tag ptr tag
    elim r [
      | right k ↦ pure (right tag)
      | wrong other ↦
          if other.tag == e_tag
          then exchange_tag_loop f other.ptr e_tag tag
          else pure (wrong other.tag)
    ]

  unfoldable pub compare_exchange_tag : ℕ → ℕ → ℕ → Cmd ℕ (Result ℕ ℕ)
  compare_exchange_tag f e_tag tag = do ptr ← load_ptr; exchange_tag_loop f ptr e_tag tag
