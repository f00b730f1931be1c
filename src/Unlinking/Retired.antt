-- ===== src/Unlinking/Retired.antt =====
-- When a node that is taken off a level is retired.
use skippy_rs.Base.{
  ℕ, ◌-◌, ◌^◌, ◌≡◌, ◌<◌, arith, ◌∷◌, ok, ◌==◌, if◌then◌else◌, eq_self, ne→not_eq, Bool,
}
use native.Mathlib.Decide.{ℕ_discrete}
use skippy_rs.Node.{right, try_sub_ref}
use skippy_rs.Node.Header.{word, try_sub_ref_lem}
use skippy_rs.Store.{Ptr, SkipList, update, update_link, link_to, on_header}
use skippy_rs.Store.Access.{At, deref-ok, load_link-ok}
use skippy_rs.Removal.Marks.{store_link-ok}
use skippy_rs.Unlinking.{exchange_ptr, retire_node, sub_ref, unlink_level}

-- The exchange of a link that holds the pointer expected, untagged.
pub exchange_ptr-ok :
    {V : Type 0} {s : SkipList V} {p n l : ℕ} (q new : Ptr)
    → At s p n
    → l < n
    → s.link p l ≡ link_to q 0
    → exchange_ptr p l q new s
      ≡ ok (right (link_to q 0)) (record s { link = update_link s.link p l (link_to new 0) })
unfolding exchange_ptr
exchange_ptr-ok {l = l} q new at lt e =
    rw (load_link-ok at lt, e, eq_self q, store_link-ok l (link_to new 0) at lt)

pub try_sub_ref-ok :
    {V : Type 0} {s : SkipList V} {p h : ℕ} (r : Bool) (n : ℕ)
    → At s p h
    → s.header p ≡ word r n h
    → 0 < n
    → n < 2 ^ 57
    → h < 64
    → on_header p try_sub_ref s
      ≡ ok (right (n - 1)) (record s { header = update s.header p (word r (n - 1) h) })
unfolding on_header
try_sub_ref-ok {h = h} r n at packed some_ref few low =
    let filled : (n == 0) ≡ Bool.false = ground arith in
    rw (deref-ok at, packed, try_sub_ref_lem r n h few low, filled)

module _ {V : Type 0} {s : SkipList V} {prev curr m h : ℕ} (at_prev : At s prev m)
    (at : At s curr h) (r : Bool) (n l : ℕ) (packed : s.header curr ≡ word r n h) (some_ref : 0 < n)
    (few : n < 2 ^ 57) (low : h < 64) (room : l < m) where
  -- Two allocated nodes, of which the first points at the second on a level and the second has a packed
  -- header word with a count above 0, with no other thread in between: `unlink_level` makes the first
  -- point at the given successor and takes one off the count of the second, and it retires the second
  -- exactly when that was the last reference.
  pub unlink_level-retired :
      (next : Ptr)
      → s.link prev l ≡ link_to curr 0
      → unlink_level prev curr next l s
        ≡ ok (right next) (record s {
          header = update s.header curr (word r (n - 1) h);
          link = update_link s.link prev l (link_to next 0);
          retired = if n == 1 then curr ∷ s.retired else s.retired;
        })
  unfolding unlink_level sub_ref retire_node
  unlink_level-retired next linked =
      let t : SkipList V = record s { link = update_link s.link prev l (link_to next 0) } in
      let at_t : At t curr h = record {
        ne_null = at.ne_null;
        live = at.live;
        header = at.header;
      } in
      let counted = try_sub_ref-ok r n at_t packed some_ref few low in
      let exchanged = exchange_ptr-ok curr next at_prev room linked in
      elim (ℕ_discrete n 1) [
        | yes e ↦
            let last : (n - 1 == 0) ≡ Bool.true = ground arith in
            let one : (n == 1) ≡ Bool.true = ground arith in rw (exchanged, counted, last, one)
        | no ne ↦
            let more : (n - 1 == 0) ≡ Bool.false = ground arith in
            rw (exchanged, counted, more, ne→not_eq ne)
      ]
