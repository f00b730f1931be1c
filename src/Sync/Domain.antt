-- ===== src/Sync/Domain.antt =====
-- The domain of hazard pointers of the crate `haphazard`, as far as src/internal/sync/mod.rs relies on it,
-- and the invariant of the concurrent list with it: no node that is linked is retired.
use skippy_rs.Base.{◌≡◌, ◌∙◌, ◌≢◌, Bool, false, List, [], ◌∷◌, ok, refl}
use skippy_rs.Store.{Ptr, SkipList, Op}
use skippy_rs.Cells.{Cell, All, IsList}
use skippy_rs.Cells.Frame.{Same, Nodes-Same}

abbrev pub Absent : Ptr → List Ptr → Type 0
Absent a [] = Unit
Absent a (b ∷ l) = (a ≢ b) × Absent a l

-- What `eager_reclaim` may do: some of the nodes that are retired are freed and forgotten.
pub record Reclaimed {V : Type 0} (s : SkipList V) (g : Ptr → Bool) (r : List Ptr) : Type 0 where
  pub kept : (a : Ptr) → Absent a s.retired → g a ≡ s.live a
  pub left : (a : Ptr) → Absent a s.retired → Absent a r
  pub only_frees : (a : Ptr) → s.live a ≡ false → g a ≡ false
  pub forgotten : (a : Ptr) → g a ≡ false → (s.live a ≡ false → Absent a s.retired) → Absent a r

pub record Domain (V : Type 0) : Type 0 where
  pub eager_reclaim : Op V (Unit {0})
  pub reclaims :
      (s : SkipList V)
      → (g : Ptr → Bool) × (r : List Ptr) × (eager_reclaim s
          ≡ ok tt (record s { live = g; retired = r }))
        × Reclaimed s g r

-- A well-formed list whose head and nodes are not retired; what is retired is still allocated.
pub record IsShared {V : Type 0} (s : SkipList V) (xs : List (Cell V)) : Type 0 where
  pub list : IsList s xs
  pub head_linked : Absent s.head s.retired
  pub nodes_linked : All (λ c. Absent c.addr s.retired) xs
  pub retired_live : (a : Ptr) → s.live a ≡ false → Absent a s.retired

module _ {V : Type 0} {s : SkipList V} {xs : List (Cell V)} (sh : IsShared s xs) {g : Ptr → Bool}
    {r : List Ptr} (reclaimed : Reclaimed s g r) where
  abbrev freed : SkipList V
  freed = record s { live = g; retired = r }

  freed-Same : (ys : List (Cell V)) → All (λ c. Absent c.addr s.retired) ys → Same s freed ys
  freed-Same [] out = tt
  freed-Same (c ∷ ys) out = (
    record {
      live = reclaimed.kept c.addr out.0;
      key = refl;
      val = refl;
      header = refl;
      link = λ l lt. refl;
    },
    freed-Same ys out.1,
  )

  freed-All :
      (ys : List (Cell V)) → All (λ c. Absent c.addr s.retired) ys → All (λ c. Absent c.addr r) ys
  freed-All [] out = tt
  freed-All (c ∷ ys) out = (reclaimed.left c.addr out.0, freed-All ys out.1)

  -- Reclaiming keeps the list.
  pub freed-IsShared : IsShared freed xs
  freed-IsShared =
      let is = sh.list in
      record {
        list = record {
          head_ne_null = is.head_ne_null;
          head_live = reclaimed.kept s.head sh.head_linked ∙ is.head_live;
          head_header = is.head_header;
          head_apart = is.head_apart;
          head_tower = is.head_tower;
          nodes = Nodes-Same s freed xs (freed-Same xs sh.nodes_linked) is.nodes;
          counted = is.counted;
          low = is.low;
          some_level = is.some_level;
          few_levels = is.few_levels;
        };
        head_linked = reclaimed.left s.head sh.head_linked;
        nodes_linked = freed-All xs sh.nodes_linked;
        retired_live = λ a dead. reclaimed.forgotten a dead (sh.retired_live a);
      }
