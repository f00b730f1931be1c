-- ===== src/Removal.antt =====
-- How a node of the concurrent list is marked as removed: `tag_levels` and `try_remove_and_tag` of
-- src/internal/utils/node.rs, and `Entry::remove` of src/internal/sync/mod.rs. No other thread runs in
-- between, so each loop of `compare_exchange_tag` ends after one round and is one step here.
pub mod Marks
use skippy_rs.Base.{
  ℕ, zero, suc, ◌+◌, ◌-◌, ◌%◌, Option, none, some, ◌==◌, if◌then◌else◌, panic, pure, ◌>>=◌, ◌>>◌,
}
use skippy_rs.Node.{Result, right, wrong, usize, set_removed}
use skippy_rs.Store.{Ptr, link_to, Op, load_height, load_link, store_link, on_header}

module _ {V : Type 0} where
  -- `levels[l].compare_exchange_tag(e_tag, tag)`
  unfoldable pub exchange_tag : Ptr → ℕ → (e_tag tag : ℕ) → Op V (Result ℕ ℕ)
  exchange_tag p l e_tag tag = do
    k ← load_link p l
    if k.tag == e_tag
        then (do store_link p l (link_to k.ptr tag); pure (right tag))
        else pure (wrong k.tag)

  -- The `for` of `tag_levels`, with the levels that are left: from the top level down.
  unfoldable pub tag_down : Ptr → ℕ → ℕ → Op V (Result (Unit {0}) ℕ)
  tag_down p tag zero = pure (right tt)
  tag_down p tag (suc l) = do
    r ← exchange_tag p l 0 tag
    elim r [ right done ↦ tag_down p tag l | wrong other ↦ pure (wrong other) ]

  unfoldable pub tag_levels : Ptr → ℕ → Op V (Result ℕ ℕ)
  tag_levels p tag = do
    n ← load_height p
    r ← tag_down p tag n
    elim r [
      | right done ↦ (do m ← load_height p; pure (right ((m + usize - 1) % usize)))
      | wrong other ↦ pure (wrong other)
    ]

  unfoldable pub try_remove_and_tag : Ptr → Op V (Result (Unit {0}) (Unit {0}))
  try_remove_and_tag p = do
    r ← on_header p set_removed
    elim r [
      | wrong e ↦ pure (wrong tt)
      | right old ↦ (do
        t ← tag_levels p 1
        elim t [ right n ↦ pure (right tt) | wrong other ↦ pure (wrong tt) ])
    ]

  -- `Entry::remove`; `expect` panics on a level that is tagged already.
  unfoldable pub entry_remove : Ptr → Op V (Option Ptr)
  entry_remove p = do
    r ← on_header p set_removed
    elim r [
      | wrong e ↦ pure none
      | right old ↦ (do
        t ← tag_levels p 1
        elim t [ right n ↦ pure (some p) | wrong other ↦ λ _. panic ])
    ]
