-- ===== src/Tests/Finishing.antt =====
-- Threads that go on alone until they end, on the list with the keys 5 and 9.
use skippy_rs.Base.{
  ◌<◌, ℕ, ◌≡◌, refl, arith, Option, some, List, [], ◌∷◌, ◌==◌, ◌||◌, if◌then◌else◌, ok,
}
use skippy_rs.Threads.Methods
use skippy_rs.Threads.Insert
use skippy_rs.Store.{Ptr, SkipList}
use skippy_rs.Threads.{System, Reach}
use skippy_rs.Spec.{lookup, entries, delete, put}
use skippy_rs.Cells.{Cell}
use skippy_rs.Sync.Domain.{IsShared}
use skippy_rs.Tests.Insertion.{start as two_keys, start_cells}
use skippy_rs.Tests.Reclaiming.{start-IsShared}
use skippy_rs.SkipList.Walk.Order.{show_val}
use skippy_rs.Tests.Lists.{two, two-IsList}
use skippy_rs.Cells.Frame.{Nodes-Same}
use skippy_rs.Threads.Alone.Waiting.{Waiting}
use skippy_rs.Threads.Alone.Turns.{
  Turn, insert_node, remove_key, get_key, turns_map, turn_map, turn_program, Answered,
}
use skippy_rs.Threads.Alone.Replay.{turns-replay}
use skippy_rs.Threads.Alone.Steps.{Ends}
use skippy_rs.Threads.Alone.Calls.{get-Ends, insert-Ends, remove-Ends}

-- Two threads at the start of `get`, and the list with the keys 5 and 9.
abbrev five_nine : SkipList ℕ
five_nine = two 50 90

abbrev readers : System ℕ (Option Ptr)
readers = record { store = five_nine; pc = λ i. Methods.get 20 1000 9 }

get-Ends_example :
    (r : Option Ptr) × Ends readers 1 r five_nine × (show_val r five_nine ≡ ok (some 90) five_nine)
unfolding lookup
get-Ends_example = get-Ends (two-IsList 50 90) 9 20 1 readers (omega arith) refl refl

-- Two threads at the start of `remove`.
abbrev removers : System ℕ (Option Ptr)
removers = record { store = two_keys; pc = λ i. Methods.remove 20 1000 5 }

remove-Ends_example :
    (s' : SkipList ℕ) × (ys : List (Cell ℕ)) × Ends removers 1 (some 100) s'
    × IsShared s' ys
    × (entries ys ≡ (9, 90) ∷ [])
unfolding delete
remove-Ends_example =
    remove-Ends start-IsShared 5 20 1 removers (omega arith) (omega arith) refl refl

-- The list with the keys 5 and 9, and a node for another 9 that is allocated and not linked.
abbrev nine_again : Cell ℕ
nine_again = record { addr = 300; height = 3; key = 9; val = 70 }

abbrev with_third : SkipList ℕ
with_third = record two_keys {
  live = λ a. (a == 300) || two_keys.live a;
  key = λ a. if a == 300 then some 9 else two_keys.key a;
  val = λ a. if a == 300 then some 70 else two_keys.val a;
  header = λ a. if a == 300 then 3 else two_keys.header a;
}

with_third-IsShared : IsShared with_third start_cells
with_third-IsShared =
    let is = two-IsList 50 90 in
    record {
      list = record {
        head_ne_null = is.head_ne_null;
        head_live = refl;
        head_header = refl;
        head_apart = is.head_apart;
        head_tower = is.head_tower;
        nodes =
            Nodes-Same two_keys with_third start_cells
              (
                record { live = refl; key = refl; val = refl; header = refl; link = λ l lt. refl },
                (
                  record {
                    live = refl;
                    key = refl;
                    val = refl;
                    header = refl;
                    link = λ l lt. refl;
                  },
                  tt,
                ),
              )
              is.nodes;
        counted = refl;
        low = is.low;
        some_level = is.some_level;
        few_levels = is.few_levels;
      };
      head_linked = tt;
      nodes_linked = (tt, (tt, tt));
      retired_live = λ a dead. tt;
    }

nine_again-Waiting : Waiting with_third start_cells nine_again
nine_again-Waiting = record {
  ne_null = omega arith;
  ne_head = omega arith;
  live = refl;
  key = refl;
  val = refl;
  header = refl;
  link = λ l lt. refl;
  tall = omega arith;
  short = omega arith;
  outside = (omega arith, (omega arith, tt));
  unretired = tt;
}

-- Two threads, of which the second is at the start of its `insert`.
abbrev inserters : System ℕ (Option Ptr)
inserters = record {
  store = with_third;
  pc = λ i. if i == 1 then Insert.insert 60 1000 300 9 else Methods.get 60 1000 9;
}

insert-Ends_example :
    (s' : SkipList ℕ) × (ys : List (Cell ℕ)) × Ends inserters 1 (some 200) s'
    × IsShared s' ys
    × (entries ys ≡ (5, 50) ∷ (9, 70) ∷ [])
unfolding put
insert-Ends_example =
    insert-Ends with_third-IsShared nine_again-Waiting 60 1 inserters (omega arith) (omega arith)
      refl refl

-- Three threads that take turns: the first puts another value under 9, the second removes 5, the third reads 9.
abbrev turns : List (Turn ℕ)
turns = insert_node nine_again ∷ remove_key 5 ∷ get_key 9 ∷ []

abbrev in_turn : System ℕ (Option Ptr)
in_turn = record {
  store = with_third;
  pc = λ i.
      if i == 0
      then Insert.insert 90 1000 300 9
      else if i == 1
      then Methods.remove 90 1000 5
      else Methods.get 90 1000 9;
}

turns-replay_example :
    (last : System ℕ (Option Ptr)) × (ys : List (Cell ℕ)) × Reach in_turn last
    × IsShared last.store ys
    × (entries ys ≡ (9, 70) ∷ [])
    × Answered 0 turns ((5, 50) ∷ (9, 90) ∷ []) last
    × ((j : ℕ) → j < 0 → last.pc j ≡ in_turn.pc j)
unfolding turns_map turn_map put delete turn_program
turns-replay_example =
    turns-replay 90 turns 0 in_turn with_third-IsShared (omega arith) (omega arith)
      (nine_again-Waiting, tt, (tt, tt, (tt, tt, tt))) refl (refl, (refl, (refl, tt)))
