-- ===== src/Tests/Memory.antt =====
-- The theorems on memory, heights and header words, at concrete states.
use skippy_rs.Base.{
  [], ◌∷◌, ℕ, ◌+◌, ◌≡◌, arith, true, false, ok, refl, ◌==◌, ◌||◌, if◌then◌else◌, min,
}
use skippy_rs.Node.{max_levels, height}
use skippy_rs.Node.Header.{word}
use skippy_rs.Store.{Ptr, SkipList, update, update_link, link_to}
use skippy_rs.Basics.{drop_list, gen_height, next_seed, trailing_zeros}
use skippy_rs.Basics.Drop.{holds, drop_list-frees}
use skippy_rs.Basics.Height.{gen_height-Drawn, grown, Drawn}
use skippy_rs.SkipList.{unlink_level}
use skippy_rs.SkipList.Find.{head-At}
use skippy_rs.SkipList.Reclaim.{unlink_level-kept}
use skippy_rs.Sync.Domain.{Absent}
use skippy_rs.Tests.Reclaiming.{frees_all, with_retired, with_retired-IsShared}
use skippy_rs.Tests.Lists.{cells, two, two-IsList}

abbrev start : SkipList ℕ
start = two 50 90

drop_list-frees_example :
    (s' : SkipList ℕ) × (drop_list frees_all.eager_reclaim with_retired ≡ ok tt s')
    × ((a : Ptr)
        → Absent a (300 ∷ [])
        → s'.live a
          ≡ (if (a == 1000) || holds {V = ℕ} a (cells 50 90) then false else with_retired.live a))
    × ((a : Ptr) → (a == 1000) || holds {V = ℕ} a (cells 50 90) ≡ true → s'.live a ≡ false)
    × ((a : Ptr) → with_retired.live a ≡ false → s'.live a ≡ false)
drop_list-frees_example = drop_list-frees frees_all with_retired-IsShared

gen_height-Drawn_example :
    (h : ℕ) × (gen_height start ≡ ok h (grown start h))
    × Drawn start (min max_levels (trailing_zeros 64 (next_seed 7) + 1)) h
gen_height-Drawn_example = gen_height-Drawn (head-At (two-IsList 50 90))

abbrev marked : SkipList ℕ
marked = record start { header = update start.header 100 (word true 1 1) }

unlink_level-kept_example :
    unlink_level 1000 100 0 marked
    ≡ ok 200 (record marked {
      header = update marked.header 100 (word true 0 1);
      link = update_link marked.link 1000 0 (link_to 200 0);
    })
unfolding height
unlink_level-kept_example =
    unlink_level-kept {s = marked} {prev = 1000} {curr = 100} {m = 32} {h = 1}
      (record { ne_null = omega arith; live = refl; header = refl })
      (record { ne_null = omega arith; live = refl; header = refl }) (omega arith) true 1 0 refl
      (omega arith) (omega arith) (omega arith) (omega arith) (omega arith)
