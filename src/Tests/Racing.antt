-- ===== src/Tests/Racing.antt =====
-- The theorems on threads that race to mark a node, on a word with three references and five levels.
use skippy_rs.Base.{refl, ok, ℕ, ◌≡◌, ◌↔◌, arith, true, false, [], ◌∷◌}
use skippy_rs.Node.{removed, height, wrong}
use skippy_rs.Node.Header.{word}
use skippy_rs.Node.{add_ref}
use skippy_rs.Race.{won, loaded, Threads, takes, Reach, here, next, marks, turn, start, lost}
use skippy_rs.Store.{SkipList, link_to, update_link, load_link, load_height, deref}
use skippy_rs.Unlinking.{exchange_ptr}
use skippy_rs.Tests.Lists.{two}
use skippy_rs.Race.Frozen.{LinkReach-frozen, begin, step, exchanges}
use skippy_rs.Race.Access.{HasWon}
use skippy_rs.Race.Winner.{Reach-winner}
use skippy_rs.Race.Turns.{Finished, run_turns, run_turns-Finished}
use skippy_rs.Race.Counted.{lost-unmarked}

abbrev before : Threads
before = start (word false 3 5)

-- Threads 0 and 1 load the word, then thread 1 exchanges it.
abbrev after : Threads
after = turn 1 (turn 1 (turn 0 before))

after-Reach : Reach before after
after-Reach = next (next (next here (marks (takes 0))) (marks (takes 1))) (marks (takes 1))

Reach-winner_example :
    ((i j : ℕ) → HasWon (after.pc i) → HasWon (after.pc j) → i ≡ j)
    × (removed after.word ≡ true ↔ ((i : ℕ) × HasWon (after.pc i)))
Reach-winner_example = Reach-winner 3 5 (omega arith) (omega arith) after-Reach

run_turns-Finished_example :
    Finished ((run_turns (0 ∷ 1 ∷ 1 ∷ 0 ∷ []) before).pc 0)
    × (j : ℕ) × HasWon ((run_turns (0 ∷ 1 ∷ 1 ∷ 0 ∷ []) before).pc j)
run_turns-Finished_example =
    run_turns-Finished 3 5 (omega arith) (omega arith) (0 ∷ 1 ∷ 1 ∷ 0 ∷ []) 0 (omega arith)

lost-unmarked_example :
    (s : Threads) × (v : ℕ) × Reach before s
    × (s.pc 0 ≡ loaded s.word)
    × ((turn 0 s).pc 0 ≡ won)
    × (add_ref s.word ≡ ok s.word v)
    × Reach before (turn 0 (record s { word = v }))
    × ((turn 0 (record s { word = v })).pc 0 ≡ lost)
    × ((i : ℕ) → ¬ HasWon ((turn 0 (record s { word = v })).pc i))
    × (removed (turn 0 (record s { word = v })).word ≡ false)
lost-unmarked_example = lost-unmarked 3 5 (omega arith) (omega arith)

abbrev first_list : SkipList ℕ
first_list = two 50 90

-- The level 0 of the first node is tagged.
abbrev tagged_first : SkipList ℕ
tagged_first = record first_list { link = update_link first_list.link 100 0 (link_to 200 1) }

refused : exchange_ptr 100 0 200 300 tagged_first ≡ ok (wrong (link_to 200 1)) tagged_first
unfolding exchange_ptr load_link load_height deref height
refused = refl

LinkReach-frozen_example : tagged_first.link 100 0 ≡ link_to 200 1
LinkReach-frozen_example =
    LinkReach-frozen {s = tagged_first} {t = tagged_first} 100 0 (omega arith)
      (step begin (exchanges 100 0 200 300 refused))
