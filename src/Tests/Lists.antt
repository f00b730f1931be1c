-- ===== src/Tests/Lists.antt =====
-- A list with two nodes, the keys 5 and 9 at the addresses 100 and 200.
use skippy_rs.Base.{refl, none, some, List, [], ◌∷◌, ◌||◌, ◌==◌, if◌then◌else◌, arith}
use skippy_rs.Store.{null, link_to, SkipList}
use skippy_rs.Cells.{Cell, next_at, IsList}

module _ {V : Type 0} (v w : V) where
  abbrev five : Cell V
  five = record { addr = 100; height = 1; key = 5; val = v }

  abbrev nine : Cell V
  nine = record { addr = 200; height = 2; key = 9; val = w }

  abbrev pub cells : List (Cell V)
  cells = five ∷ nine ∷ []

  abbrev pub two : SkipList V
  two = record {
    head = 1000;
    live = λ a. (a == 1000) || (a == 100) || (a == 200);
    key = λ a. if a == 100 then some 5 else if a == 200 then some 9 else none;
    val = λ a. if a == 100 then some v else if a == 200 then some w else none;
    header = λ a. if a == 1000 then 32 else if a == 100 then 65 else 130;
    link = λ a l.
        if a == 1000
        then link_to (next_at l cells) 0
        else if a == 100
        then link_to (next_at l (nine ∷ [])) 0
        else link_to null 0;
    len = 2;
    max_height = 2;
    seed = 7;
    retired = [];
  }

  pub two-IsList : IsList two cells
  two-IsList = record {
    head_ne_null = omega arith;
    head_live = refl;
    head_header = refl;
    head_apart = (omega arith, (omega arith, tt));
    head_tower = λ l lt. refl;
    nodes = (
      record {
        ne_null = omega arith;
        live = refl;
        key = refl;
        val = refl;
        header = refl;
        tall = omega arith;
        short = omega arith;
      },
      λ l lt. refl,
      (omega arith, tt),
      (omega arith, tt),
      (
        record {
          ne_null = omega arith;
          live = refl;
          key = refl;
          val = refl;
          header = refl;
          tall = omega arith;
          short = omega arith;
        },
        λ l lt. refl,
        tt,
        tt,
        tt,
      ),
    );
    counted = refl;
    low = (omega arith, (omega arith, tt));
    some_level = omega arith;
    few_levels = omega arith;
  }
