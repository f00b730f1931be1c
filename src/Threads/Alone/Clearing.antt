-- ===== src/Threads/Alone/Clearing.antt =====
-- How a program that runs alone takes out the node that has the key of an `insert`.
use skippy_rs.Base.{
  ℕ, suc, ◌+◌, ◌≡◌, refl, ◌∙◌, ◌≢◌, ◌<◌, inl, inr, arith, Option, none, some, ok, ne→not_eq, List,
  zero, ◌*◌, length, Option-cases,
}
use skippy_rs.Node.{height, max_levels, usize}
use skippy_rs.Store.{Ptr, null, SkipList, load_height}
use skippy_rs.Cells.{Cell, target_at}
use skippy_rs.Sync.{Pairs, SearchResult}
use skippy_rs.Sync.Clear.{Taking, Cleared, taken, Cleared-absent}
use skippy_rs.Threads.{Prog, read_header, ◌>>=◌}
use skippy_rs.Threads.Find
use skippy_rs.Threads.Methods
use skippy_rs.Threads.Insert
use skippy_rs.Threads.Alone.{alone, alone-bind, Like-run, deref-cases}
use skippy_rs.Threads.Alone.Marking.{try_remove_and_tag-alone}
use skippy_rs.Threads.Alone.Ending.{Ending-run, quiet, all_protected}
use skippy_rs.Threads.Alone.Removing.{unlink_alone-Ending}
use skippy_rs.Threads.Alone.Search.{enough, find_at-alone}
use skippy_rs.Cells.Erase.{target_at-Target}
use skippy_rs.Sync.Domain.{IsShared}
use skippy_rs.Sync.Find.{IsFound}
use skippy_rs.Sync.Taken.{target-At}

module _ {V : Type 0} where
  pub height-alone :
      {B : Type 0} (s : SkipList V) (p : Ptr) {h : ℕ} (g : ℕ → Prog B)
      → load_height p s ≡ ok h s
      → alone (read_header p (λ w. g (height w))) s ≡ alone (g h) s
  unfolding load_height alone
  height-alone s p {h = h} g found = elim (deref-cases s p) [
    | inl e ↦ absurd (ground (arith, e, found))
    | inr e ↦ let same : height (s.header p) ≡ h = ground (arith, e, found) in rw (e, same) refl
  ]

  pub clear_none-alone :
      (F : ℕ) (head : Ptr) (k : ℕ) (prev : Pairs) (existing : Option Ptr) (s : SkipList V)
      → alone (Insert.clear_key (suc F) head null k prev none existing) s ≡ ok (prev, existing) s
  unfolding Insert.clear_key alone
  clear_none-alone F head k prev existing s = refl

  pub clear_some-alone :
      {s : SkipList V} {k : ℕ} {xs : List (Cell V)} {prev : Pairs} {a : Ptr} (F : ℕ) (head : Ptr)
      (t : Taking quiet s k xs prev a)
      → a ≢ null
      → s.head ≡ head
      → t.left.len + 1 + enough t.left < suc F
      → alone (Insert.clear_key (suc (suc F)) head null k prev (some a) none) s
        ≡ ok (t.next.prev, some a) t.left
  unfolding Insert.clear_key
  clear_some-alone {s = s} {k = k} {prev = prev} {a = a} F head t ne same fuel =
      rw
        (
          ne→not_eq ne,
          alone-bind (Methods.try_remove_and_tag (suc F) a) _ s,
          Like-run (try_remove_and_tag-alone s (suc F) a (omega arith)) t.removed,
          height-alone t.flagged a
              (λ h. Methods.unlink head a h prev >>= (λ u.
                Find.find (suc F) head k
                >>= (λ at. Insert.clear_key (suc F) head null k at.prev at.target (some a))))
              t.tall,
          alone-bind (Methods.unlink head a t.tower prev) _ t.flagged,
          Ending-run (unlink_alone-Ending t.flagged a t.tower prev (t.head ∙ same)) t.out,
          alone-bind (Find.find (suc F) head k) _ t.left,
          Like-run (find_at-alone t.left k (suc F) (t.cleared.same_head ∙ same) fuel) t.again,
          t.found_none,
        )
        (clear_none-alone F head k t.next.prev (some a) t.left)

module _ {V : Type 0} {s : SkipList V} {xs : List (Cell V)} (sh : IsShared s xs) where
  -- The fuel is enough for a search of a list with one node more.
  pub enough-length : (F : ℕ) → 3 * length xs + max_levels + 8 < F → s.len + 1 + enough s < F
  enough-length F fuel = omega (arith, sh.list.counted, sh.list.few_levels)

  pub clear_key-alone :
      (F k : ℕ) (r : SearchResult)
      → length xs < usize
      → IsFound s k xs r
      → 3 * length xs + max_levels + 10 < F
      → (s' : SkipList V) × (ys : List (Cell V)) × (prev : Pairs) × (alone
            (Insert.clear_key F s.head null k r.prev (target_at k xs) none)
            s
          ≡ ok (prev, target_at k xs) s')
        × Cleared s k xs s' ys prev
  clear_key-alone zero k r few at fuel = absurd (omega (arith, fuel))
  clear_key-alone (suc zero) k r few at fuel = absurd (omega (arith, fuel))
  clear_key-alone (suc (suc F)) k r few at fuel = elim (Option-cases (target_at k xs)) [
    | inl absent ↦ (
      s,
      xs,
      r.prev,
      rw absent (clear_none-alone (suc F) s.head k r.prev none s),
      Cleared-absent all_protected sh few k r at absent,
    )
    | inr (a, present) ↦
        let t = taken all_protected sh few k r at present in
        let there =
          target-At sh k present few r.prev at.prevs
            (target_at-Target s k xs sh.list.nodes present) in
        let left = t.cleared.shared.list in
        (
          t.left,
          _,
          t.next.prev,
          rw present (
              clear_some-alone F s.head t there.ne_null refl
                (omega (arith, left.counted, left.few_levels, t.cleared.le))),
          t.cleared,
        )
  ]
