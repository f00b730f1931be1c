-- ===== src/Tests/Sharing.antt =====
-- The theorems on the concurrent list, on the list with two nodes.
use skippy_rs.Base.{
  ℕ, zero, suc, ◌+◌, ◌^◌, if◌then◌else◌, ◌==◌, ne→not_eq, ◌≡◌, refl, ◌≢◌, ◌<◌, ◌≤◌, arith, inr,
  true, some, ok, fault, and_then, false, ◌>>=◌,
}
use skippy_rs.Node.{height, right}
use skippy_rs.Store.{Ptr, SkipList, null, link_to, update}
use skippy_rs.Store.Access.{At}
use skippy_rs.Spec.{lookup}
use skippy_rs.Cells.{pred_at, succ_at, IsList}
use skippy_rs.Tests.Lists.{two-IsList}
use skippy_rs.Tests.Insertion.{start, start_cells}
use skippy_rs.SkipList.Walk.Order.{show_val}
use skippy_rs.SkipList
use skippy_rs.Sync.{Pairs, SearchResult, find, get}
use skippy_rs.Sync.Update.{link_nodes}
use skippy_rs.Sync.Find.{IsFound, find_alone-IsFound, get_alone-lookup}
use skippy_rs.Sync.Stale.{iter_next-fault}
use skippy_rs.Sync.Walk.{iter_next}
use skippy_rs.Cells.Frame.{SameAt, Nodes-Same}
use skippy_rs.Sync.Link.{Beyond, before, link_nodes-link_nodes}

find_alone-IsFound_example :
    (r : SearchResult) × (find 9 false start ≡ ok r start) × IsFound start 9 start_cells r
find_alone-IsFound_example = find_alone-IsFound 9 (two-IsList 50 90)

get_alone-lookup_example : (do e ← get 9; show_val e) start ≡ ok (some 90) start
unfolding lookup
get_alone-lookup_example = get_alone-lookup 9 (two-IsList 50 90)

-- The list with a new node at 300, of key 7 and one level.
abbrev with_new : SkipList ℕ
with_new = record start {
  live = update start.live 300 true;
  key = update start.key 300 (some 7);
  val = update start.val 300 (some 70);
  header = update start.header 300 1;
}

abbrev around : Pairs
around l = (pred_at l 7 1000 start_cells, succ_at l 7 start_cells)

around-ready :
    (l : ℕ)
    → 0 ≤ l
    → l < 1
    → ((m : ℕ) × At with_new (around l).0 m × (l < m))
      × ((around l).0 ≢ 300)
      × (with_new.link (around l).0 l ≡ link_to (around l).1 0)
      × (with_new.link 300 l ≡ link_to null 0)
      × Beyond with_new 300 7 (around l).1
unfolding height
around-ready zero ge lt = (
  (1, record { ne_null = omega arith; live = refl; header = refl }, omega arith),
  omega arith,
  refl,
  refl,
  inr (
    9,
    2,
    record { ne_null = omega arith; live = refl; header = refl },
    refl,
    omega arith,
    omega arith,
  ),
)
around-ready (suc l) ge lt = absurd (omega arith)

new-At : At with_new 300 1
unfolding height
new-At = record { ne_null = omega arith; live = refl; header = refl }

link_nodes-link_nodes_example :
    link_nodes 300 around 0 with_new
    ≡ and_then (SkipList.link_nodes 300 (before around) with_new) (λ u. ok (right tt))
link_nodes-link_nodes_example =
    link_nodes-link_nodes 300 around 1 7 (omega arith) with_new new-At refl refl around-ready

-- The list with an entry at 300 that was removed, whose key was 7.
abbrev with_stale : SkipList ℕ
with_stale = record with_new {
  header = update start.header 300 (2 ^ 63 + 1);
  link = λ a l. if a == 300 then link_to 200 1 else start.link a l;
}

with_stale-IsList : IsList with_stale start_cells
with_stale-IsList =
    let is : IsList start start_cells = two-IsList 50 90 in
    let same : (a : Ptr) → a ≢ 300 → SameAt start with_stale a = λ a ne. record {
      live = rw (ne→not_eq ne) refl;
      key = rw (ne→not_eq ne) refl;
      val = rw (ne→not_eq ne) refl;
      header = rw (ne→not_eq ne) refl;
      link = λ l lt. rw (ne→not_eq ne) refl;
    } in
    record {
      head_ne_null = is.head_ne_null;
      head_live = refl;
      head_header = refl;
      head_apart = is.head_apart;
      head_tower = λ l lt. is.head_tower l lt;
      nodes =
          Nodes-Same start with_stale start_cells
            (same 100 (omega arith), (same 200 (omega arith), tt)) is.nodes;
      counted = refl;
      low = is.low;
      some_level = is.some_level;
      few_levels = is.few_levels;
    }

iter_next-fault_example : iter_next (some 300) with_stale ≡ fault
unfolding height
iter_next-fault_example =
    iter_next-fault with_stale-IsList 300 {n = 1} {k = 7} {q = 200}
      (record { ne_null = omega arith; live = refl; header = refl }) (omega arith) refl refl
