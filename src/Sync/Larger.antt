-- ===== src/Sync/Larger.antt =====
-- The successor that `find` of src/internal/sync/mod.rs gives for a key that is absent.
use skippy_rs.Base.{
  ℕ, ◌≡◌, refl, ◌<◌, ◌⊎◌, inl, inr, arith, List, [], ◌∷◌, none, some, Bool-cases, lt→ltb,
  le→not_ltb, ltb,
}
use native.Mathlib.Decide.{dec_lt}
use skippy_rs.Store.{Ptr, null, SkipList}
use skippy_rs.Store.Access.{At}
use skippy_rs.Cells.{Cell, next_at, succ_at, target_at, Above, Nodes}
use skippy_rs.Cells.Frame.{All-mono}
use skippy_rs.SkipList.Find.{IsNode-At}

-- The node at `p`, if there is one, has a larger key.
abbrev pub Larger : {V : Type 0} → SkipList V → ℕ → Ptr → Type 0
Larger s k p = (p ≡ null) ⊎ ((j : ℕ) × (m : ℕ) × At s p m × (s.key p ≡ some j) × (k < j))

module _ {V : Type 0} (s : SkipList V) (l k : ℕ) where
  next_at-Larger : (xs : List (Cell V)) → Nodes s xs → Above k xs → Larger s k (next_at l xs)
  next_at-Larger [] n up = inl refl
  next_at-Larger (c ∷ xs) n up = elim (Bool-cases (ltb l c.height)) [
    | inl e ↦ rw e (inr (c.key, c.height, IsNode-At n.0, n.0.key, up.0))
    | inr e ↦ rw e (next_at-Larger xs n.4 up.1)
  ]

  -- The successor of a key that is absent has a larger key.
  pub succ_at-Larger :
      (xs : List (Cell V)) → Nodes s xs → target_at k xs ≡ none → Larger s k (succ_at l k xs)
  succ_at-Larger [] n absent = inl refl
  succ_at-Larger (c ∷ xs) n absent = elim (dec_lt c.key k) [
    | yes lt ↦ rw (lt→ltb lt) (succ_at-Larger xs n.4 (rw (lt→ltb lt) at absent))
    | no ge ↦
        let up : k < c.key = ground arith in
        rw (le→not_ltb {a = c.key} {b = k} (omega arith))
          (next_at-Larger (c ∷ xs) n (up, All-mono (λ d above. omega arith) xs n.3))
  ]
