-- ===== src/Store.antt =====
-- The memory of a list: nodes at addresses, field by field, and the commands that read and write it.
-- src/internal/utils/node.rs (`Node`, `Head`, `Levels`: allocation, release, access to fields and
-- levels) and the plain loads and stores of src/internal/sync/tagged.rs, over the pair of a pointer
-- and a tag that a `MaybeTagged` holds. A `Head` is laid out as a `Node` whose key and value are
-- never written, so the model keeps `none` there, and a read of them is a fault.
pub mod Access
use skippy_rs.Base.{
  ℕ, zero, suc, ◌+◌, ◌-◌, ◌*◌, ◌%◌, ◌≡◌, Bool, true, false, ◌&&◌, not, Option, none, some, List, [],
  ◌∷◌, ltb, leb, ◌==◌, if◌then◌else◌, Run, ok, fault, panic, abort, Cmd, pure, and_then, ◌>>=◌,
  ◌>>◌,
}
use skippy_rs.Node.{height, max_levels}

abbrev pub Ptr : Type 0
Ptr = ℕ

abbrev pub null : Ptr
null = 0

-- What a `MaybeTagged` holds, decomposed.
pub record Link : Type 0 where
  pub ptr : Ptr
  pub tag : ℕ

abbrev pub link_to : Ptr → ℕ → Link
link_to p t = record { ptr = p; tag = t }

-- A list (`$my_list` of `skiplist_basics!`) with its `ListState` and the memory of its nodes: for
-- each address whether it is allocated, the key and value if they were written, the header word and
-- the tower. `retired` holds what was handed to the hazard pointer domain and not yet reclaimed.
pub record SkipList (V : Type 0) : Type 0 where
  pub head : Ptr
  pub live : Ptr → Bool
  pub key : Ptr → Option ℕ
  pub val : Ptr → Option V
  pub header : Ptr → ℕ
  pub link : Ptr → ℕ → Link
  pub len : ℕ
  pub max_height : ℕ
  pub seed : ℕ
  pub retired : List Ptr

abbrev pub update {ℓ} : {A : Type ℓ} → (Ptr → A) → Ptr → A → Ptr → A
update f p v a = if a == p then v else f a

abbrev pub update_link : (Ptr → ℕ → Link) → Ptr → ℕ → Link → Ptr → ℕ → Link
update_link f p l k a m = if (a == p) && (m == l) then k else f a m

abbrev pub Op : Type 0 → Type 0 → Type 0
Op V A = Cmd (SkipList V) A

abbrev pub or_fault : {V A : Type 0} → Option A → Op V A
or_fault none s = fault
or_fault (some a) s = ok a s

-- A command on the header word at `p`, run in place.
abbrev pub in_header : {V A : Type 0} → Ptr → SkipList V → Run ℕ A → Run (SkipList V) A
in_header p s (ok a w) = ok a (record s { header = update s.header p w })
in_header p s fault = fault
in_header p s panic = panic
in_header p s abort = abort
in_header p s Run.out_of_fuel = Run.out_of_fuel

module _ {V : Type 0} where
  -- `*p`: a fault at null and at an address that holds no node
  unfoldable pub deref : Ptr → Op V (Unit {0})
  deref p s = if not (p == null) && s.live p then ok tt s else fault

  unfoldable pub load_key : Ptr → Op V ℕ
  unfolding deref
  load_key p = deref p >> (λ s. or_fault (s.key p) s)

  unfoldable pub load_val : Ptr → Op V V
  unfolding deref
  load_val p = deref p >> (λ s. or_fault (s.val p) s)

  unfoldable pub store_val : Ptr → V → Op V (Unit {0})
  unfolding deref
  store_val p v = deref p >> (λ s. ok tt (record s { val = update s.val p (some v) }))

  unfoldable pub load_height : Ptr → Op V ℕ
  unfolding deref
  load_height p = deref p >> (λ s. ok (height (s.header p)) s)

  unfoldable pub on_header : {A : Type 0} → Ptr → Cmd ℕ A → Op V A
  unfolding deref
  on_header p c = deref p >> (λ s. in_header p s (c (s.header p)))

  -- `levels[l]`, unchecked in the source: a fault past the end of the tower
  unfoldable pub load_link : Ptr → ℕ → Op V Link
  unfolding load_height
  load_link p l = do n ← load_height p; λ s. if ltb l n then ok (s.link p l) s else fault

  unfoldable pub store_link : Ptr → ℕ → Link → Op V (Unit {0})
  unfolding load_height
  store_link p l k = do
    n ← load_height p
    λ s. if ltb l n then ok tt (record s { link = update_link s.link p l k }) else fault

  unfoldable pub load_ptr : Ptr → ℕ → Op V Ptr
  unfolding load_link
  load_ptr p l = do k ← load_link p l; pure k.ptr

  unfoldable pub load_tag : Ptr → ℕ → Op V ℕ
  unfolding load_link
  load_tag p l = do k ← load_link p l; pure k.tag

  unfoldable pub store_ptr : Ptr → ℕ → Ptr → Op V (Unit {0})
  unfolding store_link
  store_ptr p l q = store_link p l (link_to q 0)

  -- The assertion of `Levels::get_size`, which `get_layout` makes.
  unfoldable pub check_layout : ℕ → Op V (Unit {0})
  check_layout n = if leb n max_levels && ltb 0 n then pure tt else λ _. panic

  -- `Node::alloc`; `fresh` is what the allocator returns. The key and value are not written.
  unfoldable pub alloc : (fresh : Ptr) → ℕ → Op V Ptr
  unfolding check_layout
  alloc fresh n = check_layout n >> (λ s.
      if fresh == null
      then abort
      else ok fresh (record s {
        live = update s.live fresh true;
        key = update s.key fresh none;
        val = update s.val fresh none;
        header = update s.header fresh n;
        link = λ a m. if (a == fresh) && ltb m n then link_to null 0 else s.link a m;
      }))

  -- `Node::new`
  unfoldable pub new_node : (fresh : Ptr) → ℕ → V → ℕ → Op V Ptr
  unfolding alloc
  new_node fresh k v n = do
    p ← alloc fresh n
    λ s. ok p (record s { key = update s.key p (some k); val = update s.val p (some v) })

  unfoldable pub dealloc : Ptr → Op V (Unit {0})
  unfolding load_height check_layout
  dealloc p = do
    n ← load_height p
    check_layout n
    λ s. ok tt (record s { live = update s.live p false })

  -- `Node::drop`: `drop_in_place` of the key and of the value, then the memory
  unfoldable pub drop_node : Ptr → Op V (Unit {0})
  unfolding load_key load_val dealloc
  drop_node p = do _ ← load_key p; _ ← load_val p; dealloc p
