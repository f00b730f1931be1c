-- ===== src/Tests/Threading.antt =====
-- Runs of several threads on a list with the keys 5 and 9, and a node for another 5 that is not linked.
use skippy_rs.Base.{
  ok, ℕ, zero, suc, ◌≡◌, refl, ◌≢◌, ◌⊎◌, inl, inr, arith, true, false, Option, none, some, List, [],
  ◌∷◌, ◌==◌, ◌||◌, if◌then◌else◌, fault, eq→test, ne→not_eq, ◌<◌,
}
use native.Mathlib.Decide.{ℕ_discrete}
use skippy_rs.Node.{height, Result, wrong, refs}
use skippy_rs.Node.Header.{word}
use skippy_rs.Sync.{Pairs}
use skippy_rs.Threads.Insert.{link_levels}
use skippy_rs.Threads.Alone.{alone}
use skippy_rs.Threads.Leak.{accesses, link_levels-unretired}
use skippy_rs.Node
use skippy_rs.Store
use skippy_rs.Unlinking
use skippy_rs.Threads
use skippy_rs.Threads.Find
use skippy_rs.Threads.Methods
use skippy_rs.Threads.Insert
use skippy_rs.Store.{Ptr, null, link_to, update_link, SkipList}
use skippy_rs.Threads.{System, Prog, done, advance, schedule, schedule-Reach}
use skippy_rs.Threads.Calls.{
  Call, insert_at, remove_key, get_key, start, Towers, Fits, IsNode, Onward, asked, program,
}
use skippy_rs.Threads.Towers.{threads-Towers, answer-IsNode}

abbrev plain : SkipList Unit
plain = record {
  head = 1000;
  live = λ a. (a == 1000) || (a == 100) || (a == 200) || (a == 300);
  key = λ a.
      if a == 100 then some 5 else if a == 200 then some 9 else if a == 300 then some 5 else none;
  val = λ a. none;
  header = λ a. if a == 1000 then 32 else if a == 100 then 65 else if a == 200 then 130 else 1;
  link = λ a l.
      if a == 1000
      then link_to (if l == 0 then 100 else if l == 1 then 200 else null) 0
      else if a == 100
      then link_to (if l == 0 then 200 else null) 0
      else link_to null 0;
  len = 2;
  max_height = 2;
  seed = 7;
  retired = [];
}

plain-live : (p : Ptr) → plain.live p ≡ true → (p ≡ 1000) ⊎ (p ≡ 100) ⊎ (p ≡ 200) ⊎ (p ≡ 300)
plain-live p live = elim (ℕ_discrete p 1000) [
  | yes e ↦ inl e
  | no a ↦ elim (ℕ_discrete p 100) [
    | yes e ↦ inr (inl e)
    | no b ↦ elim (ℕ_discrete p 200) [
      | yes e ↦ inr (inr (inl e))
      | no c ↦ inr (inr (inr (ground arith)))
    ]
  ]
]

-- A proof for each of the four nodes.
each : (P : Ptr → Type 0) → P 1000 → P 100 → P 200 → P 300 → (p : Ptr) → plain.live p ≡ true → P p
each P a b c d p live = elim (plain-live p live) [
  | inl e ↦ rw e a
  | inr (inl e) ↦ rw e b
  | inr (inr (inl e)) ↦ rw e c
  | inr (inr (inr e)) ↦ rw e d
]

plain-Towers : Towers plain
unfolding height
plain-Towers = record {
  head_live = refl;
  head_height = refl;
  some_key = λ p live ne.
      each (λ p. p ≢ 1000 → (k : ℕ) × (plain.key p ≡ some k)) (λ ne. absurd (ne refl))
        (λ ne. (5, refl)) (λ ne. (9, refl)) (λ ne. (5, refl)) p live ne;
  ne_null = each (λ p. p ≢ null) (omega arith) (omega arith) (omega arith) (omega arith);
  heights =
      each _ (omega arith, omega arith, omega arith) (omega arith, omega arith, omega arith)
        (omega arith, omega arith, omega arith) (omega arith, omega arith, omega arith);
  links = λ p l live.
      each (λ p. l < height (plain.header p) → Onward plain p l (plain.link p l).ptr)
        (λ lt. elim (ℕ_discrete l 0) [
          | yes e ↦ rw (eq→test e, e) (inr (refl, omega arith, omega arith, λ z. inl refl))
          | no n ↦ elim (ℕ_discrete l 1) [
            | yes e ↦
                rw (ne→not_eq n, eq→test e, e) (inr (refl, omega arith, omega arith, λ z. inl refl))
            | no m ↦ rw (ne→not_eq n, ne→not_eq m) (inl refl)
          ]
        ])
        (λ lt. elim (ℕ_discrete l 0) [
          | yes e ↦
              rw (eq→test e, e)
                (inr
                  (refl, omega arith, omega arith, λ z. inr (λ j k ej ek. ground (arith, ej, ek))))
          | no n ↦ rw (ne→not_eq n) (inl refl)
        ])
        (λ lt. inl refl) (λ lt. inl refl) p live;
  max_level = (omega arith, omega arith);
}

abbrev turns : ℕ → ℕ → List ℕ → List ℕ
turns zero i is = is
turns (suc n) i is = i ∷ turns n i is

abbrev calls : ℕ → Call
calls i = if i == 0 then remove_key 5 else if i == 1 then get_key 5 else insert_at 300 5

calls-Fits : (i : ℕ) → Fits plain (calls i)
calls-Fits i = elim (ℕ_discrete i 0) [
  | yes e ↦ rw (eq→test e) tt
  | no n ↦ elim (ℕ_discrete i 1) [
    | yes e ↦ rw (ne→not_eq n, eq→test e) tt
    | no m ↦ rw (ne→not_eq n, ne→not_eq m) (refl, omega arith, refl)
  ]
]

-- Thread 0 takes `n` accesses of its `remove`, thread 2 runs its `insert`, thread 0 goes on, and then
-- thread 1 runs its `get`.
abbrev at_end : ℕ → System Unit (Option Ptr)
at_end n = schedule (turns n 0 (turns 300 2 (turns 100 0 (turns 300 1 [])))) (start 20 plain calls)

-- The `remove` stands between `set_removed` and `tag_levels` while the `insert` runs: the key that was
-- inserted last is not found, and `len` counts it. Four accesses later the links have changed before the
-- `remove` unlinks its node, and `len` stays one too high.
lost_insert :
    ((at_end 80).pc 0 ≡ done (some 100))
    × ((at_end 80).pc 2 ≡ done none)
    × ((at_end 80).pc 1 ≡ done none)
    × ((at_end 80).store.len ≡ 2)
    × ((at_end 84).pc 0 ≡ done (some 100))
    × ((at_end 84).pc 1 ≡ done (some 300))
    × ((at_end 84).store.len ≡ 3)
unfolding schedule advance program Methods.remove Threads.◌>>=◌ Find.find Find.init_prev
    Find.from_maybe_tagged Store.load_link height Find.protect Find.search Find.top_level
    Find.search_levels Find.skip_marked Find.precedes Store.load_key Find.match_live Node.add_ref
    Node.bit_length Node.refs Node.removed Node.sub_ref Node.try_add_ref Node.try_sub_ref
    Store.deref Store.load_height Store.on_header Store.store_link Find.sub_ref Find.unlink_level
    Insert.clear_key Insert.count_level Insert.insert Insert.link_levels Insert.link_nodes
    Insert.link_retry Insert.overtaken Methods.entry_remove Methods.exchange_tag Methods.get
    Methods.remove_target Methods.set_removed Methods.tag_down Methods.tag_levels Methods.tag_loop
    Methods.try_remove_and_tag Methods.unlink Methods.unlink_levels Threads.exchange_link
    Threads.run_op Unlinking.retire_node
lost_insert = (refl, refl, refl, refl, refl, refl, refl)

threads-Towers_example :
    Towers (at_end 80).store × ((i : ℕ) → advance ((at_end 80).pc i) (at_end 80).store ≢ fault)
threads-Towers_example =
    threads-Towers plain-Towers 20 calls calls-Fits (schedule-Reach _ (start 20 plain calls))

answer-IsNode_example : IsNode (at_end 80).store 5 100
unfolding asked
answer-IsNode_example =
    answer-IsNode plain-Towers 20 calls calls-Fits (schedule-Reach _ (start 20 plain calls)) 0 100
      lost_insert.0

-- The list with two nodes of heights 5 and 8 that are not linked yet.
abbrev towers : SkipList Unit
towers = record plain {
  live = λ a. (a == 400) || plain.live a;
  key = λ a. if a == 300 then some 6 else if a == 400 then some 7 else plain.key a;
  header = λ a. if a == 300 then 5 else if a == 400 then 8 else plain.header a;
}

-- Thread 0 takes `n` accesses of its `insert`, thread 1 runs its own, and then thread 0 goes on.
abbrev raced : ℕ → System Unit (Option Ptr)
raced n =
    schedule (turns n 0 (turns 400 1 (turns 400 0 [])))
      (start 30 towers (λ i. if i == 0 then insert_at 300 6 else insert_at 400 7))

abbrev solo : ℕ → ℕ
solo n =
    (schedule (turns n 0 [])
      (start 30 towers (λ i. if i == 0 then insert_at 300 6 else insert_at 400 7))).store.max_height

-- Thread 0 has read that `max_height` is 2 when thread 1 links its node with 8 levels and sets it to 8. Thread 0
-- then sets it to 5, below the tower of the other node.
lost_height :
    ((raced 83).pc 0 ≡ done none)
    × ((raced 83).pc 1 ≡ done none)
    × ((raced 83).store.max_height ≡ 5)
    × ((raced 83).store.link 1000 7 ≡ link_to 400 0)
unfolding schedule advance program Methods.remove Threads.◌>>=◌ Find.find Find.init_prev
    Find.from_maybe_tagged Store.load_link height Find.protect Find.search Find.top_level
    Find.search_levels Find.skip_marked Find.precedes Store.load_key Find.match_live Node.add_ref
    Node.bit_length Node.refs Node.removed Node.sub_ref Node.try_add_ref Node.try_sub_ref
    Store.deref Store.load_height Store.on_header Store.store_link Find.sub_ref Find.unlink_level
    Insert.clear_key Insert.count_level Insert.insert Insert.link_levels Insert.link_nodes
    Insert.link_retry Insert.overtaken Methods.entry_remove Methods.exchange_tag Methods.get
    Methods.remove_target Methods.set_removed Methods.tag_down Methods.tag_levels Methods.tag_loop
    Methods.try_remove_and_tag Methods.unlink Methods.unlink_levels Threads.exchange_link
    Threads.run_op Unlinking.retire_node
lost_height = (refl, refl, refl, refl)

-- The node with 8 levels is linked at the lowest one, and the next is to be linked before the key 9.
abbrev half_linked : SkipList Unit
half_linked = record towers { header = λ a. if a == 400 then word false 1 8 else towers.header a }

abbrev before_nine : Pairs
before_nine l = (1000, 200)

-- Another thread has removed the node 400 since, and the head leads elsewhere on level 1.
abbrev removed_since : SkipList Unit
removed_since = record half_linked {
  header = λ a. if a == 400 then word true 1 8 else towers.header a;
  link = update_link towers.link 1000 1 (link_to null 0);
}

link_levels-unretired_example :
    (a : ℕ) × (p : Prog (Result (Unit {0}) ℕ)) × (s1 : SkipList Unit) × (t' : SkipList Unit)
    × (accesses a (link_levels 400 before_nine 7 1) half_linked ≡ ok p s1)
    × (s1.header 400 ≡ word false 2 8)
    × (alone p removed_since ≡ ok (wrong 1) t')
    × (refs (t'.header 400) ≡ 0)
    × (t'.retired ≡ [])
unfolding height
link_levels-unretired_example =
    link_levels-unretired 400 before_nine 6 1 8 (omega arith) {s = half_linked} {c = 1} {k = 7}
      removed_since 32 (record { ne_null = omega arith; live = refl; header = refl }) refl
      (inr (
        9,
        2,
        record { ne_null = omega arith; live = refl; header = refl },
        refl,
        omega arith,
        omega arith,
      ))
      (omega arith) (omega arith) refl (omega arith) (omega arith) refl
      (record { ne_null = omega arith; live = refl; header = refl })
      (record { ne_null = omega arith; live = refl; header = refl }) (omega arith)
      (inl (omega arith)) refl
