-- ===== src/Race/Counted.antt =====
-- A call of `set_removed` among changes of the count of references.
use skippy_rs.Base.{
  ℕ, ◌+◌, ◌≡◌, refl, ◌<◌, ◌^◌, false, arith, ◌==◌, ne→not_eq, eq→test, eq_self, ok,
}
use native.Mathlib.Decide.{ℕ_discrete}
use skippy_rs.Node.{refs, removed, add_ref}
use skippy_rs.Node.Header.{word, fields, word-flagged, add_ref_lem}
use skippy_rs.Store.{update}
use skippy_rs.Race.{
  ready, loaded, won, lost, set_flag, access, Threads, turn, Turn, takes, marks, adds, Reach, here,
  next, start,
}
use skippy_rs.Race.Access.{HasWon}

-- On a word with a count, room for one more and no flag, there is a state in which the only call of `set_removed`
-- has loaded the word, and would succeed with its next access. If another thread counts a reference first, that
-- access fails instead, though nothing has marked the word.
pub lost-unmarked :
    (n h : ℕ)
    → n + 1 < 2 ^ 57
    → h < 64
    → (s : Threads) × (v : ℕ) × Reach (start (word false n h)) s
      × (s.pc 0 ≡ loaded s.word)
      × ((turn 0 s).pc 0 ≡ won)
      × (add_ref s.word ≡ ok s.word v)
      × Reach (start (word false n h)) (turn 0 (record s { word = v }))
      × ((turn 0 (record s { word = v })).pc 0 ≡ lost)
      × ((i : ℕ) → ¬ HasWon ((turn 0 (record s { word = v })).pc i))
      × (removed (turn 0 (record s { word = v })).word ≡ false)
unfolding access
lost-unmarked n h room low =
    let w : ℕ = word false n h in
    let v : ℕ = word false (n + 1) h in
    let few : n < 2 ^ 57 = omega arith in
    let other : (set_flag w == w) ≡ false =
      rw (word-flagged false n h few low) (ne→not_eq (omega arith)) in
    let moved : (v == w) ≡ false = ne→not_eq (omega arith) in
    let before : Threads = record { word = w; pc = update (λ _. ready) 0 (loaded w) } in
    let counted : Threads = record { word = v; pc = before.pc } in
    let first : turn 0 (start w) ≡ before = rw other in
    let load : Turn (start w) (turn 0 (start w)) = takes 0 in
    let bound : refs w + 1 < 2 ^ 57 = rw (fields false n h few low).1 room in
    let reached : Reach (start w) before = next here (marks (rw first at load)) in
    (
      before,
      v,
      reached,
      refl,
      rw (eq_self w) refl,
      add_ref_lem false n h few low room,
      next (next reached (adds bound (add_ref_lem false n h few low room))) (marks (takes 0)),
      rw moved refl,
      λ i. elim (ℕ_discrete i 0) [
        | yes e ↦ rw (eq→test e, moved) (λ x. x)
        | no ne ↦ rw (ne→not_eq ne) (λ x. x)
      ],
      rw moved (fields false (n + 1) h room low).2,
    )
