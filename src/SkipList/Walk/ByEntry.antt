-- ===== src/SkipList/Walk/ByEntry.antt =====
-- `entry` and `Removable::remove` of src/internal/skiplist.rs.
use skippy_rs.Base.{
  ℕ, ◌≡◌, sym, List, Option, none, some, true, false, ok, length, ltb, Bool-cases, Option-cases,
  inl, inr, ◌>>=◌, pure,
}
use skippy_rs.Store.{SkipList, Op}
use skippy_rs.Cells.{Cell, IsList, target_at}
use skippy_rs.SkipList.{internal_remove, remove, remove_at}
use skippy_rs.SkipList.Find.{find-IsFound}
use skippy_rs.SkipList.Delete.{is_empty-ok}
use skippy_rs.SkipList.Walk.{get, entry, removable_remove}

-- An entry is looked up and, if it is there, removed.
abbrev pub remove_entry : {V : Type 0} → ℕ → Op V (Option (ℕ × V))
remove_entry k = do e ← entry k; elim e [ none ↦ pure none | some r ↦ removable_remove r ]

module _ {V : Type 0} {s : SkipList V} {xs : List (Cell V)} (is : IsList s xs) (k : ℕ) where
  entry-empty : ltb (length xs) 1 ≡ true → entry k s ≡ ok none s
  unfolding entry get
  entry-empty e = rw (is_empty-ok is, e)

  remove-empty : ltb (length xs) 1 ≡ true → remove k s ≡ ok none s
  unfolding remove internal_remove
  remove-empty e = rw (is_empty-ok is, e)

  entry-absent : ltb (length xs) 1 ≡ false → target_at k xs ≡ none → entry k s ≡ ok none s
  unfolding entry get
  entry-absent e absent =
      let (r, run, found) = find-IsFound k is in rw (is_empty-ok is, e, run, found.target, absent)

  remove-absent : ltb (length xs) 1 ≡ false → target_at k xs ≡ none → remove k s ≡ ok none s
  unfolding remove internal_remove remove_at
  remove-absent e absent =
      let (r, run, found) = find-IsFound k is in rw (is_empty-ok is, e, run, found.target, absent)

  entry-present :
      {p : ℕ} → ltb (length xs) 1 ≡ false → target_at k xs ≡ some p → entry k s ≡ ok (some (p, k)) s
  unfolding entry get
  entry-present e present =
      let (r, run, found) = find-IsFound k is in rw (is_empty-ok is, e, run, found.target, present)

  -- On a well-formed list, to look up an entry and remove it through the `Removable` is the same as to
  -- remove its key from the list, in what is returned and in what is left.
  pub remove_entry-remove : remove_entry k s ≡ remove k s
  unfolding removable_remove
  remove_entry-remove = elim (Bool-cases (ltb (length xs) 1)) [
    | inl e ↦ rw (entry-empty e) (sym (remove-empty e))
    | inr e ↦ elim (Option-cases (target_at k xs)) [
      | inl absent ↦ rw (entry-absent e absent) (sym (remove-absent e absent))
      | inr (p, present) ↦ rw (entry-present e present)
    ]
  ]
