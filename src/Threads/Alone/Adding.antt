-- ===== src/Threads/Alone/Adding.antt =====
-- `insert` of a thread that runs alone on a well-formed list.
use skippy_rs.Base.{
  ◌≤◌, ap, ℕ, zero, suc, ◌+◌, ◌*◌, ◌%◌, ◌≡◌, refl, sym, ◌∙◌, ◌<◌, inl, inr, arith, List, Bool-cases,
  true, false, Option, none, ok, ltb, length, eq_self, ◌⊎◌, if◌then◌else◌,
}
use mathlib.Core.Path.{subst}
use skippy_rs.Node.{right, height, max_levels, usize}
use skippy_rs.Store.{Ptr, null, SkipList}
use skippy_rs.Store.Access.{load_height-ok}
use skippy_rs.Cells.{Cell, target_at, pred_at, succ_at}
use skippy_rs.Cells.Entries.{entries-insert}
use skippy_rs.Cells.Insert.{insert_cell, length-insert, All-insert}
use skippy_rs.Cells.Frame.{pred_at-ne}
use skippy_rs.Spec.{entries, put}
use skippy_rs.Sync.{Pairs}
use skippy_rs.Sync.Domain.{IsShared}
use skippy_rs.Sync.Find.{find_alone-IsFound}
use skippy_rs.Sync.Put.{link_nodes-IsShared}
use skippy_rs.Sync.Update
use skippy_rs.Threads.{Prog, done, read_header, read_max, write_max, add_len, ◌>>=◌}
use skippy_rs.Threads.Find
use skippy_rs.Threads.Insert
use skippy_rs.Threads.Alone.{alone, alone-bind, Like-run}
use skippy_rs.Threads.Alone.Clearing.{enough-length, clear_key-alone, height-alone}
use skippy_rs.Threads.Alone.Linking.{link_nodes-alone}
use skippy_rs.Threads.Alone.Search.{find-alone}
use skippy_rs.Threads.Alone.Waiting.{
  SameAt-trans, SparesOthers, SameAt-withdrawn, Waiting, Waiting-Cleared, Waiting-At,
  withdrawn-IsShared, raised, raised-allocated,
}

module _ {V : Type 0} where
  done-alone : {A : Type 0} (a : A) (s : SkipList V) → alone (done a) s ≡ ok a s
  unfolding alone
  done-alone a s = refl

  max-alone :
      {B : Type 0} (s : SkipList V) (g : ℕ → Prog B)
      → alone (read_max g) s ≡ alone (g s.max_height) s
  unfolding alone
  max-alone s g = refl

  write-alone :
      {B : Type 0} (s : SkipList V) (h : ℕ) (m : Prog B)
      → alone (write_max h (done tt) >>= (λ u. add_len 1 m)) s
        ≡ alone m (record s { max_height = h; len = (s.len + 1) % usize })
  unfolding alone ◌>>=◌
  write-alone s h m = refl

  skip-alone :
      {B : Type 0} (s : SkipList V) (m : Prog B)
      → alone (done tt >>= (λ u. add_len 1 m)) s ≡ alone m (record s { len = (s.len + 1) % usize })
  unfolding alone ◌>>=◌
  skip-alone s m = refl

  raise-cases :
      {B : Type 0} (s : SkipList V) (h : ℕ) (m : Prog B)
      → (ltb s.max_height h ≡ true) ⊎ (ltb s.max_height h ≡ false)
      → alone
          ((if ltb s.max_height h then write_max h (done tt) else done tt) >>= (λ u. add_len 1 m))
          s
        ≡ alone m (record s {
          max_height = if ltb s.max_height h then h else s.max_height;
          len = (s.len + 1) % usize;
        })
  raise-cases s h m (inl e) = rw e (write-alone s h m)
  raise-cases s h m (inr e) = rw e (skip-alone s m)

module _ {V : Type 0} {s : SkipList V} {xs : List (Cell V)} {c : Cell V} (w : Waiting s xs c) where
  -- The greatest height and the length are counted up before the node is linked.
  raised-alone :
      {B : Type 0} (m : Prog B)
      → alone
          (read_header c.addr (λ u. read_max (λ max. (do
            _ ← (if ltb max (height u) then write_max (height u) (done tt) else done tt)
            add_len 1 m))))
          s
        ≡ alone m (raised w)
  raised-alone m =
      height-alone s c.addr
        (λ h.
          read_max
            (λ max. (do _ ← (if ltb max h then write_max h (done tt) else done tt); add_len 1 m)))
        (load_height-ok (Waiting-At w))
      ∙ max-alone s _
      ∙ raise-cases s c.height m (Bool-cases (ltb s.max_height c.height))

module _ {V : Type 0} {s : SkipList V} {xs : List (Cell V)} {c : Cell V} (sh : IsShared s xs)
    (w : Waiting s xs c) (room : length xs + 1 < usize) (prev : Pairs)
    (found : (l : ℕ) → l < max_levels → prev l ≡ (pred_at l c.key s.head xs, succ_at l c.key xs))
    (absent : target_at c.key xs ≡ none) where
  linked-alone :
      (F : ℕ) (existing : Option Ptr)
      → 3 * length xs + max_levels + 10 < F
      → (s' : SkipList V) × (alone (Insert.link_retry F s.head c.addr prev 0 existing) (raised w)
          ≡ ok existing s')
        × IsShared s' (insert_cell c xs)
        × (s'.head ≡ s.head)
        × SparesOthers s xs c s' (insert_cell c xs)
  unfolding Insert.link_retry
  linked-alone zero existing fuel = absurd (omega (arith, fuel))
  linked-alone (suc F) existing fuel =
      let low = (withdrawn-IsShared w sh).list.few_levels in
      let (s', run, sh', live, head, retired, away) =
        link_nodes-IsShared (withdrawn-IsShared w sh) c prev found absent w.ne_null
          (rw (eq_self c.addr) refl) w.tall w.short (ground arith) room in
      let run' =
        subst (λ t. Update.link_nodes c.addr prev 0 t ≡ ok (right tt) s') (sym (raised-allocated w))
          run in
      (
        s',
        rw
            (
              alone-bind (Insert.link_nodes F s.head c.addr prev 0) _ (raised w),
              Like-run
                  (link_nodes-alone (raised w) F c.addr prev 0 refl
                    (omega (arith, sh.list.counted, low)))
                  run',
            )
            (done-alone existing s'),
        sh',
        head,
        λ b ne off_head out gone. (
          SameAt-withdrawn w b ne (
              away b ne (λ l lt e.
                pred_at-ne l c.key b s.head xs out off_head (e ∙ ap (λ p. p.0) (found l lt)))),
          rw retired gone,
          All-insert c _ xs ne out,
        ),
      )

module _ {V : Type 0} {s : SkipList V} {xs : List (Cell V)} {c : Cell V} (sh : IsShared s xs)
    (w : Waiting s xs c) (room : length xs + 1 < usize) where
  pub insert-alone :
      (F : ℕ)
      → 3 * length xs + max_levels + 10 < F
      → (s' : SkipList V) × (ys : List (Cell V)) × (alone (Insert.insert F s.head c.addr c.key) s
          ≡ ok (target_at c.key xs) s')
        × IsShared s' ys
        × (entries ys ≡ put c.key c.val (entries xs))
        × (length ys ≤ length xs + 1)
        × (s'.head ≡ s.head)
        × SparesOthers s xs c s' ys
  unfolding Insert.insert
  insert-alone F fuel =
      let (r, search, at) = find_alone-IsFound c.key sh.list in
      let (s1, ys, prev, clear, y) = clear_key-alone sh F c.key r (omega (arith, room)) at fuel in
      let w1 = Waiting-Cleared w y in
      let (s', linked, sh', head, spares) =
        linked-alone y.shared w1 (omega (arith, y.le, room)) prev y.found y.absent F
          (target_at c.key xs) (omega (arith, y.le, fuel)) in
      (
        s',
        insert_cell c ys,
        rw
            (
              alone-bind (Find.find F s.head c.key) _ s,
              Like-run (find-alone s c.key F (enough-length sh F (omega (arith, fuel)))) search,
              at.target,
              alone-bind (Insert.clear_key F s.head null c.key r.prev (target_at c.key xs) none) _
                  s,
              clear,
              raised-alone w1 (Insert.link_retry F s.head c.addr prev 0 (target_at c.key xs)),
            )
            (subst
              (λ h.
                alone (Insert.link_retry F h c.addr prev 0 (target_at c.key xs)) (raised w1)
                ≡ ok (target_at c.key xs) s')
              y.same_head linked),
        sh',
        entries-insert c ys y.absent ∙ y.same c.val,
        omega (arith, length-insert c ys, y.le),
        head ∙ y.same_head,
        λ b ne off_head out gone.
            let (same1, gone1, out1) = y.apart b off_head out gone in
            let (same2, gone2, out2) = spares b ne (λ e. off_head (e ∙ y.same_head)) out1 gone1 in
            (SameAt-trans same1 same2, gone2, out2),
      )
