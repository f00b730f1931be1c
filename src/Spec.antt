-- ===== src/Spec.antt =====
-- The ordered map that a skip list stands for: keys and values, keys ascending.
use skippy_rs.Base.{ℕ, Option, none, some, List, [], ◌∷◌, ltb, ◌==◌, if◌then◌else◌}
use skippy_rs.Cells.{Cell}

abbrev pub Entries : Type 0 → Type 0
Entries V = List (ℕ × V)

module _ {V : Type 0} where
  abbrev pub entries : List (Cell V) → Entries V
  entries [] = []
  entries (c ∷ xs) = (c.key, c.val) ∷ entries xs

  unfoldable pub lookup : ℕ → Entries V → Option V
  lookup k [] = none
  lookup k ((j, v) ∷ es) = if j == k then some v else lookup k es

  unfoldable pub put : ℕ → V → Entries V → Entries V
  put k v [] = (k, v) ∷ []
  put k v ((j, w) ∷ es) =
      if ltb j k then (j, w) ∷ put k v es else if j == k then (k, v) ∷ es else (k, v) ∷ (j, w) ∷ es

  unfoldable pub delete : ℕ → Entries V → Entries V
  delete k [] = []
  delete k ((j, w) ∷ es) = if j == k then es else (j, w) ∷ delete k es

  -- What a conditional insertion returns, and what it makes of the map.
  abbrev pub kept : V → Option V → Option V
  kept v none = none
  kept v (some old) = some v

  unfoldable pub put_absent : ℕ → V → Entries V → Entries V
  put_absent k v es = elim (lookup k es) [ none ↦ put k v es | some old ↦ es ]

  -- What a removal returns.
  abbrev pub with_key : ℕ → Option V → Option (ℕ × V)
  with_key k none = none
  with_key k (some v) = some (k, v)
