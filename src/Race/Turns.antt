-- ===== src/Race/Turns.antt =====
-- A thread's call of `set_removed` alone, among other calls, and among changes of the count.
use skippy_rs.Base.{
  Run, ℕ, ◌+◌, ◌-◌, ◌≡◌, refl, sym, ◌∙◌, ◌<◌, ◌≤◌, ◌^◌, Bool, true, false, arith, ◌==◌,
  if◌then◌else◌, ok, inl, inr, Bool-cases, ne→not_eq, eq→test, eq_self, List, [], ◌∷◌,
}
use native.Mathlib.Decide.{ℕ_discrete}
use skippy_rs.Node.{Result, right, wrong, removed, set_removed, set_har_with}
use skippy_rs.Node.Header.{word, fields, word-flagged}
use skippy_rs.Race.{Pc, ready, loaded, won, lost, set_flag, access, Threads, turn, start}
use skippy_rs.Race.Access.{HasWon, Inv}
use skippy_rs.Race.Winner.{turn-Inv, start-Inv}

-- What a call returns that ends here.
abbrev pub answer : Pc → ℕ → Result ℕ (Unit {0})
answer won w = right w
answer ready w = wrong tt
answer (loaded old) w = wrong tt
answer lost w = wrong tt

-- Two accesses of one thread on the word `w`.
abbrev pub two_accesses : ℕ → Run ℕ (Result ℕ (Unit {0}))
two_accesses w = let (p, v) = access ready w in let (q, u) = access p v in ok (answer q w) u

-- Two accesses with no other in between are a call of `set_removed`, which returns the old word or the
-- error.
pub access-set_removed : (w : ℕ) → set_removed w ≡ two_accesses w
unfolding access set_removed set_har_with
access-set_removed w = elim (Bool-cases (set_flag w == w)) [
  | inl e ↦ rw e
  | inr e ↦ rw (e, eq_self w)
]

-- A thread that is stopped.
abbrev pub Finished : Pc → Type 0
Finished won = Unit
Finished lost = Unit
Finished ready = ⊥
Finished (loaded old) = ⊥

-- The turns of a schedule, one after the other.
abbrev pub run_turns : List ℕ → Threads → Threads
run_turns [] s = s
run_turns (i ∷ l) s = run_turns l (turn i s)

abbrev pub turns_of : ℕ → List ℕ → ℕ
turns_of i [] = 0
turns_of i (j ∷ l) = (if i == j then 1 else 0) + turns_of i l

-- The accesses that a thread has left.
abbrev left : Pc → ℕ
left ready = 2
left (loaded old) = 1
left won = 0
left lost = 0

access-left : (p : Pc) (w : ℕ) → left (access p w).0 ≤ left p - 1
unfolding access
access-left ready w = ground arith
access-left (loaded old) w = ground arith
access-left won w = omega arith
access-left lost w = omega arith

turns-left :
    (i : ℕ) (l : List ℕ) (s : Threads) → left ((run_turns l s).pc i) ≤ left (s.pc i) - turns_of i l
turns-left i [] s = omega arith
turns-left i (j ∷ l) s =
    let rest = turns-left i l (turn j s) in
    elim (ℕ_discrete i j) [
      | yes e ↦
          let here : left ((turn j s).pc i) ≤ left (s.pc i) - 1 =
            rw (eq→test e, e) (access-left (s.pc j) s.word) in
          rw (eq→test e) (omega (arith, rest, here))
      | no ne ↦
          let away : (turn j s).pc i ≡ s.pc i = rw (ne→not_eq ne) in
          rw (ne→not_eq ne) (omega (arith, rw away at rest))
    ]

left-Finished : (p : Pc) → left p ≡ 0 → Finished p
left-Finished won e = tt
left-Finished lost e = tt
left-Finished ready e = absurd (omega (arith, e))
left-Finished (loaded old) e = absurd (omega (arith, e))

-- With no change of the count a thread is stopped only by another that marked the word.
abbrev Patient : ℕ → Pc → Type 0
Patient w ready = Unit
Patient w (loaded old) = removed w ≡ false → w ≡ old
Patient w won = Unit
Patient w lost = removed w ≡ true

module _ (b : Bool) (n h : ℕ) (few : n < 2 ^ 57) (low : h < 64) where
  abbrev Kept : Pc × ℕ → Type 0
  Kept (p, w) = Patient w p × ((q : Pc) → Patient (word b n h) q → Patient w q)

  marked-Patient : (q : Pc) → Patient (word true n h) q
  marked-Patient ready = tt
  marked-Patient (loaded old) = λ e. absurd (let z = (fields true n h few low).2 in cc)
  marked-Patient won = tt
  marked-Patient lost = (fields true n h few low).2

  access-Patient : (p : Pc) → Patient (word b n h) p → Kept (access p (word b n h))
  unfolding access
  access-Patient ready calm = elim (Bool-cases b) [
    | inl e ↦
        rw (e, word-flagged true n h few low, eq_self (word true n h))
          ((fields true n h few low).2, (λ q k. k))
    | inr e ↦
        let other : (word true n h == word false n h) ≡ false = ne→not_eq (omega arith) in
        rw (e, word-flagged false n h few low, other) ((λ _. refl), (λ q k. k))
  ]
  access-Patient (loaded old) calm = elim (ℕ_discrete (word b n h) old) [
    | yes same ↦
        rw (eq→test same, ← same, word-flagged b n h few low) (tt, (λ q k. marked-Patient q))
    | no other ↦ elim (Bool-cases (removed (word b n h))) [
      | inl e ↦ rw (ne→not_eq other) (e, (λ q k. k))
      | inr e ↦ absurd (other (calm e))
    ]
  ]
  access-Patient won calm = (tt, (λ q k. k))
  access-Patient lost calm = (calm, (λ q k. k))

pub record Calm (s : Threads) : Type 0 where
  pub inv : Inv s
  pub patient : (i : ℕ) → Patient s.word (s.pc i)

turn-Calm : {s : Threads} (i : ℕ) → Calm s → Calm (turn i s)
turn-Calm {s} i calm =
    let inv = calm.inv in
    let kept =
      access-Patient inv.flag inv.count inv.height inv.few inv.low (s.pc i)
        (rw inv.packed at (calm.patient i)) in
    record {
      inv = turn-Inv i inv;
      patient = λ j. elim (ℕ_discrete j i) [
        | yes e ↦ rw (eq→test e, inv.packed) kept.0
        | no ne ↦
            rw (ne→not_eq ne, inv.packed) (kept.1 (s.pc j) (rw inv.packed at (calm.patient j)))
      ];
    }

run_turns-Calm : (l : List ℕ) (s : Threads) → Calm s → Calm (run_turns l s)
run_turns-Calm [] s calm = calm
run_turns-Calm (i ∷ l) s calm = run_turns-Calm l (turn i s) (turn-Calm i calm)

-- A stopped thread has won, or another has.
Finished-winner : {s : Threads} → Calm s → (i : ℕ) → Finished (s.pc i) → (j : ℕ) × HasWon (s.pc j)
Finished-winner {s} calm i done = go (s.pc i) refl
  where
    go : (p : Pc) → s.pc i ≡ p → (j : ℕ) × HasWon (s.pc j)
    go won e = (i, rw e tt)
    go lost e =
        let inv = calm.inv in
        let marked : removed s.word ≡ true = rw e at (calm.patient i) in
        let flag : inv.flag ≡ true =
          sym ((fields inv.flag inv.count inv.height inv.few inv.low).2)
          ∙ (rw inv.packed at marked) in
        inv.some_winner flag
    go ready e = absurd (rw e at done)
    go (loaded old) e = absurd (rw e at done)

-- Any number of threads call `set_removed` on a word with a count and no flag, and the count does not
-- change meanwhile: in every schedule, a call that has had two turns has ended, and one of the calls has
-- succeeded.
pub run_turns-Finished :
    (n h : ℕ)
    → n < 2 ^ 57
    → h < 64
    → (l : List ℕ) (i : ℕ) → 2 ≤ turns_of i l
    → let t = run_turns l (start (word false n h)) in Finished (t.pc i) × (j : ℕ) × HasWon (t.pc j)
run_turns-Finished n h few low l i twice =
    let s = start (word false n h) in
    let done : Finished ((run_turns l s).pc i) =
      left-Finished ((run_turns l s).pc i) (omega (arith, turns-left i l s, twice)) in
    let calm = run_turns-Calm l s (record { inv = start-Inv n h few low; patient = λ j. tt }) in
    let (j, wins) = Finished-winner calm i done in (done, j, wins)
