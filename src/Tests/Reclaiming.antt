-- ===== src/Tests/Reclaiming.antt =====
-- The theorems on the concurrent list that need a domain of hazard pointers, with one that frees
-- everything that is retired.
use skippy_rs.Base.{
  ℕ, ◌≡◌, ◌≢◌, ◌≤◌, arith, refl, Bool, false, some, List, [], ◌∷◌, ◌==◌, ◌||◌, if◌then◌else◌, ok,
  length, ◌>>=◌,
}
use skippy_rs.Store.{Ptr, SkipList}
use skippy_rs.Cells.{Cell}
use skippy_rs.Cells.Frame.{Nodes-Same}
use skippy_rs.Spec.{entries, put, delete}
use skippy_rs.Tests.Lists.{two-IsList}
use skippy_rs.Tests.Insertion.{start, start_cells}
use skippy_rs.Sync.Domain.{Absent, Domain, IsShared}
use skippy_rs.Sync.Update.{insert, remove}
use skippy_rs.Sync.Remove.{remove_alone-delete}
use skippy_rs.Sync.Put.{insert_alone-put}
use skippy_rs.Sync.Walk.{from_iter, iter}
use skippy_rs.Sync.Collect.{from_iter-puts}
use skippy_rs.Sync.Order.{iterate_alone, iter_alone-entries}

abbrev pub among : Ptr → List Ptr → Bool
among a [] = false
among a (b ∷ l) = (a == b) || among a l

pub Absent-among : (a : Ptr) (l : List Ptr) → Absent a l → among a l ≡ false
Absent-among a [] out = refl
Absent-among a (b ∷ l) out = ground (arith, out.0, Absent-among a l out.1)

abbrev pub frees_all : {V : Type 0} → Domain V
frees_all = record {
  eager_reclaim = λ s.
      ok tt (record s { live = λ a. if among a s.retired then false else s.live a; retired = [] });
  reclaims = λ s. (
    λ a. if among a s.retired then false else s.live a,
    [],
    refl,
    record {
      kept = λ a out. rw (Absent-among a s.retired out);
      left = λ a out. tt;
      only_frees = λ a dead. ground arith;
      forgotten = λ a dead out. tt;
    },
  );
}

pub start-IsShared : IsShared start start_cells
start-IsShared = record {
  list = two-IsList 50 90;
  head_linked = tt;
  nodes_linked = (tt, (tt, tt));
  retired_live = λ a dead. tt;
}

-- The same list after a node at 300 was retired.
abbrev pub with_retired : SkipList ℕ
with_retired = record start { live = λ a. (a == 300) || start.live a; retired = 300 ∷ [] }

pub with_retired-IsShared : IsShared with_retired start_cells
with_retired-IsShared =
    let is = two-IsList 50 90 in
    record {
      list = record {
        head_ne_null = is.head_ne_null;
        head_live = refl;
        head_header = refl;
        head_apart = is.head_apart;
        head_tower = is.head_tower;
        nodes =
            Nodes-Same start with_retired start_cells
              (
                record { live = refl; key = refl; val = refl; header = refl; link = λ l lt. refl },
                (
                  record {
                    live = refl;
                    key = refl;
                    val = refl;
                    header = refl;
                    link = λ l lt. refl;
                  },
                  tt,
                ),
              )
              is.nodes;
        counted = refl;
        low = is.low;
        some_level = is.some_level;
        few_levels = is.few_levels;
      };
      head_linked = (omega arith, tt);
      nodes_linked = ((omega arith, tt), ((omega arith, tt), tt));
      retired_live = λ a dead. ((λ e. ground (arith, e, dead)), tt);
    }

remove_alone-delete_example :
    (s' : SkipList ℕ) × (ys : List (Cell ℕ)) × (remove frees_all.eager_reclaim 5 start
      ≡ ok (some 100) s')
    × IsShared s' ys
    × (entries ys ≡ (9, 90) ∷ [])
    × (length ys ≤ 2)
    × ((b : Ptr) → start.live b ≡ false → s'.live b ≡ false)
unfolding delete
remove_alone-delete_example = remove_alone-delete frees_all start-IsShared (omega arith) 5

insert_alone-put_example :
    (s' : SkipList ℕ) × (ys : List (Cell ℕ)) × (insert frees_all.eager_reclaim 300 9 70 start
      ≡ ok (some 200) s')
    × IsShared s' ys
    × (entries ys ≡ (5, 50) ∷ (9, 70) ∷ [])
    × (length ys ≤ 3)
    × ((b : Ptr) → b ≢ 300 → start.live b ≡ false → s'.live b ≡ false)
unfolding put
insert_alone-put_example =
    insert_alone-put frees_all start-IsShared 300 9 70 (omega arith) refl (omega arith)

from_iter-puts_example :
    (s' : SkipList ℕ) × (ys : List (Cell ℕ)) × (from_iter frees_all.eager_reclaim 400 7
        ((500, 8, 80) ∷ (600, 3, 30) ∷ [])
        with_retired
      ≡ ok 400 s')
    × IsShared s' ys
    × (entries ys ≡ (3, 30) ∷ (8, 80) ∷ [])
unfolding put
from_iter-puts_example =
    from_iter-puts frees_all 400 7 ((500, 8, 80) ∷ (600, 3, 30) ∷ []) with_retired (omega arith)
      refl (with_retired-IsShared.retired_live) (omega arith, (omega arith, tt))
      (omega arith, refl, (omega arith, tt), (omega arith, refl, tt, tt)) (omega arith)

iter_alone-entries_example :
    (do it ← iter; iterate_alone 3 it) start ≡ ok (some (5, 50) ∷ some (9, 90) ∷ []) start
iter_alone-entries_example = iter_alone-entries (two-IsList 50 90)
