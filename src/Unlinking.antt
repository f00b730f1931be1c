-- ===== src/Unlinking.antt =====
-- How the concurrent list of src/internal/sync/mod.rs takes a removed node off a level: `unlink_level`,
-- `sub_ref` and `retire_node`. A retired node goes to the domain of hazard pointers, which frees it
-- later. No other thread runs in between.
pub mod Retired
use skippy_rs.Base.{
  ℕ, zero, suc, ◌∷◌, ◌&&◌, Option, none, some, ◌==◌, if◌then◌else◌, ok, panic, pure, ◌>>=◌, ◌>>◌,
}
use skippy_rs.Node.{Result, right, wrong, try_sub_ref}
use skippy_rs.Store.{Ptr, Link, link_to, Op, load_link, store_link, on_header}

module _ {V : Type 0} where
  -- `levels[l].compare_exchange(expected, new)`
  unfoldable pub exchange_ptr : Ptr → ℕ → (expected new : Ptr) → Op V (Result Link Link)
  exchange_ptr p l expected new = do
    k ← load_link p l
    if (k.ptr == expected) && (k.tag == 0)
        then (do store_link p l (link_to new 0); pure (right k))
        else pure (wrong k)

  unfoldable pub retire_node : Ptr → Op V (Unit {0})
  retire_node p s = ok tt (record s { retired = p ∷ s.retired })

  unfoldable pub sub_ref : Ptr → Op V (Option (Unit {0}))
  sub_ref p = do
    r ← on_header p try_sub_ref
    elim r [
      | wrong n ↦ λ _. panic
      | right n ↦ if n == 0 then (do retire_node p; pure none) else pure (some tt)
    ]

  unfoldable pub unlink_level : (prev curr next : Ptr) → ℕ → Op V (Result Ptr (Unit {0}))
  unlink_level prev curr next l = do
    r ← exchange_ptr prev l curr next
    elim r [ right k ↦ (do _ ← sub_ref curr; pure (right next)) | wrong k ↦ pure (wrong tt) ]
