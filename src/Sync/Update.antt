-- ===== src/Sync/Update.antt =====
-- src/internal/sync/mod.rs: `link_nodes`, `insert`, `unlink` and `remove` of the concurrent skip list, run
-- with no other thread in between. `eager_reclaim` is the domain's, which frees what was retired and is
-- not protected.
use skippy_rs.Base.{
  ℕ, zero, suc, ◌+◌, ◌-◌, ◌%◌, Bool, true, false, ◌&&◌, not, Option, none, some, min, leb, ◌==◌,
  if◌then◌else◌, ok, panic, out_of_fuel, pure, ◌>>=◌, ◌>>◌,
}
use skippy_rs.Node.{Result, right, wrong, usize, max_levels, add_ref, try_add_ref, set_removed}
use skippy_rs.Node
use skippy_rs.Store.{Ptr, null, Op, load_key, load_height, load_ptr, on_header, new_node}
use skippy_rs.Basics.{gen_height}
use skippy_rs.Removal.{tag_levels, try_remove_and_tag}
use skippy_rs.Unlinking.{exchange_ptr, sub_ref}
use skippy_rs.Sync.{Pairs, load_removed, find}

module _ {V : Type 0} where
  -- In `link_nodes`: whether the successor is not above the new node, which is not removed.
  unfoldable pub overtaken : (new next : Ptr) → Op V Bool
  overtaken new next = if next == null then pure false else do
    j ← load_key next
    k ← load_key new
    gone ← load_removed new
    pure (leb j k && not gone)

  -- The reference of level `i`, which may be refused above the lowest level; `false` is a `break`.
  unfoldable pub count_level : (new : Ptr) → ℕ → Op V Bool
  count_level new i =
      if i == 0
      then (do _ ← on_header new add_ref; pure true)
      else do r ← on_header new try_add_ref; elim r [ right n ↦ pure true | wrong n ↦ pure false ]

  -- The `for` of `link_nodes` from level `i`, with the levels that are left; `wrong` is `Err`.
  unfoldable pub link_levels : (new : Ptr) → Pairs → ℕ → ℕ → Op V (Result (Unit {0}) ℕ)
  link_levels new prev zero i = pure (right tt)
  link_levels new prev (suc n) i = do
    curr_next ← load_ptr new i
    gone ← load_removed new
    if gone then pure (right tt) else do
      past ← overtaken new (prev i).1
      if past then pure (right tt) else do
        r ← exchange_ptr new i curr_next (prev i).1
        elim r [
          | wrong k ↦ pure (wrong i)
          | right k ↦ (do
            counted ← count_level new i
            if counted
                then (do
                  q ← exchange_ptr (prev i).0 i (prev i).1 new
                  elim q [
                    | wrong k ↦ (do _ ← on_header new Node.sub_ref; pure (wrong i))
                    | right k ↦ link_levels new prev n (i + 1)
                  ])
                else pure (right tt))
        ]

  -- The end of `link_nodes`: a node that was removed meanwhile is searched for, to unlink it.
  unfoldable pub after_links : (new : Ptr) → Op V (Result (Unit {0}) ℕ)
  after_links new = do
    gone ← load_removed new
    if gone then (do k ← load_key new; _ ← find k false; pure (right tt)) else pure (right tt)

  unfoldable pub link_nodes : (new : Ptr) → Pairs → ℕ → Op V (Result (Unit {0}) ℕ)
  link_nodes new prev start = do
    n ← load_height new
    r ← link_levels new prev (n - start) start
    elim r [ right done ↦ after_links new | wrong i ↦ pure (wrong i) ]

  -- The `for` of `unlink`, from the top level down, with the levels that are left.
  unfoldable pub unlink_levels : Ptr → Pairs → ℕ → Op V (Result (Unit {0}) ℕ)
  unlink_levels node prev zero = pure (right tt)
  unlink_levels node prev (suc i) = do
    new_next ← load_ptr node i
    r ← exchange_ptr (prev i).0 i node new_next
    elim r [
      | wrong k ↦ pure (wrong (i + 1))
      | right k ↦ (do
        more ← sub_ref node
        elim more [ none ↦ pure (right tt) | some u ↦ unlink_levels node prev i ])
    ]

module _ {V : Type 0} (eager_reclaim : Op V (Unit {0})) where
  unfoldable pub unlink : Ptr → ℕ → Pairs → Op V (Result (Unit {0}) ℕ)
  unlink node height prev s =
      if node == s.head
      then panic
      else (do
        r ← unlink_levels node prev (min max_levels height)
        elim r [
          | wrong i ↦ pure (wrong i)
          | right done ↦ (do
            λ t. ok tt (record t { len = (t.len + usize - 1) % usize })
            eager_reclaim
            pure (right tt))
        ])
          s

  unfoldable pub remove_target : ℕ → Ptr → Pairs → Op V (Option Ptr)
  remove_target k target prev = do
    r ← on_header target set_removed
    elim r [
      | wrong e ↦ pure none
      | right old ↦ (do
        height ← load_height target
        t ← tag_levels target 1
        elim t [
          | wrong other ↦ λ _. panic
          | right top ↦ (do
            u ← unlink target height prev
            elim u [
              | right done ↦ pure (some target)
              | wrong i ↦ (do _ ← find k false; pure (some target))
            ])
        ])
    ]

  unfoldable pub remove_at : ℕ → Option Ptr → Pairs → Op V (Option Ptr)
  remove_at k none prev = pure none
  remove_at k (some target) prev = remove_target k target prev

  unfoldable pub remove : ℕ → Op V (Option Ptr)
  remove k = do at ← find k false; remove_at k at.target at.prev

  -- The first `while let` of `insert`: nodes with the key are removed. It returns the predecessors of the
  -- last search and the last node that was removed.
  unfoldable pub clear_key :
      ℕ → ℕ → Pairs → (target existing : Option Ptr) → Op V (Pairs × Option Ptr)
  clear_key zero k prev target existing = λ _. out_of_fuel
  clear_key (suc f) k prev none existing = pure (prev, existing)
  clear_key (suc f) k prev (some target) existing = do
    r ← try_remove_and_tag target
    elim r [
      | wrong e ↦ clear_key f k prev none existing
      | right done ↦ (do
        height ← load_height target
        _ ← unlink target height prev
        at ← find k false
        clear_key f k at.prev at.target (some target))
    ]

  -- The `while let` in the loop of `insert`, which stops at the new node itself.
  unfoldable pub clear_others :
      ℕ → (new : Ptr) → ℕ → Pairs → (target existing : Option Ptr) → Op V (Pairs × Option Ptr)
  clear_others zero new k prev target existing = λ _. out_of_fuel
  clear_others (suc f) new k prev none existing = pure (prev, existing)
  clear_others (suc f) new k prev (some target) existing =
      if target == new then pure (prev, existing) else do
        r ← try_remove_and_tag target
        elim r [
          | wrong e ↦ clear_others f new k prev none existing
          | right done ↦ (do
            height ← load_height target
            _ ← unlink target height prev
            at ← find k false
            clear_others f new k at.prev at.target (some target))
        ]

  -- The outer loop of `insert`: linking goes on from the level that failed, after a new search.
  unfoldable pub link_retry : ℕ → (new : Ptr) → Pairs → ℕ → Option Ptr → Op V (Option Ptr)
  link_retry zero new prev start existing = λ _. out_of_fuel
  link_retry (suc f) new prev start existing = do
    r ← link_nodes new prev start
    elim r [
      | right done ↦ pure existing
      | wrong i ↦ (do
        k ← load_key new
        at ← find k false
        (prev', existing') ← clear_others (suc (suc f)) new k at.prev at.target existing
        link_retry f new prev' i existing')
    ]

  -- The rest of `insert`, once the key is cleared.
  unfoldable pub insert_new : (fresh : Ptr) → ℕ → V → Pairs → Option Ptr → Op V (Option Ptr)
  insert_new fresh k v prev existing = do
    h ← gen_height
    new ← new_node fresh k v h
    λ s. ok tt (record s { len = (s.len + 1) % usize })
    λ s. link_retry (suc s.len) new prev 0 existing s

  unfoldable pub insert : (fresh : Ptr) → ℕ → V → Op V (Option Ptr)
  insert fresh k v = do
    at ← find k false
    (prev, existing) ← (λ s. clear_key (suc (suc s.len)) k at.prev at.target none s)
    insert_new fresh k v prev existing
