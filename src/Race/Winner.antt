-- ===== src/Race/Winner.antt =====
-- At most one thread wins the race to mark a node, and the mark stays.
use skippy_rs.Base.{
  ℕ, ◌+◌, ◌-◌, ◌≡◌, refl, sym, ◌∙◌, ◌<◌, ◌^◌, true, false, arith, inl, inr, Bool-cases, ne→not_eq,
  eq→test, eq_self, ◌↔◌,
}
use native.Mathlib.Decide.{ℕ_discrete}
use skippy_rs.Node.{refs, removed}
use skippy_rs.Node.Header.{word, fields, add_ref_lem, try_add_ref_lem, sub_ref_lem, try_sub_ref_lem}
use skippy_rs.Store.{update}
use skippy_rs.Race.{
  Pc, access, Threads, turn, takes, Step, marks, adds, tries_add, subtracts, tries_sub, Reach, here,
  next, start,
}
use skippy_rs.Race.Access.{HasWon, Sound, Inv, access-Accessed}

module _ (pc : ℕ → Pc) (i : ℕ) (p : Pc) where
  update-same : (j : ℕ) → HasWon p ↔ HasWon (pc i) → HasWon (update pc i p j) ↔ HasWon (pc j)
  update-same j same = elim (ℕ_discrete j i) [
    | yes e ↦ rw (eq→test e, e) same
    | no ne ↦ rw (ne→not_eq ne) ((λ x. x), (λ x. x))
  ]

  update-first : (j : ℕ) → ((j : ℕ) → ¬ HasWon (pc j)) → HasWon (update pc i p j) → j ≡ i
  update-first j nobody w = elim (ℕ_discrete j i) [
    | yes e ↦ e
    | no ne ↦ absurd (nobody j (rw (ne→not_eq ne) at w))
  ]

  update-Sound : ((j : ℕ) → Sound (pc j)) → Sound p → (j : ℕ) → Sound (update pc i p j)
  update-Sound sound new j = elim (ℕ_discrete j i) [
    | yes e ↦ rw (eq→test e) new
    | no ne ↦ rw (ne→not_eq ne) (sound j)
  ]

pub turn-Inv : {s : Threads} (i : ℕ) → Inv s → Inv (turn i s)
turn-Inv {s} i inv =
    let a = access-Accessed (s.pc i) inv.flag inv.count inv.height inv.few inv.low (inv.sound i) in
    let e : access (s.pc i) s.word ≡ (a.after, word a.mark inv.count inv.height) =
      rw inv.packed a.runs in
    rw e (elim a.first [
      | inl (same, wins) ↦ record {
        flag = a.mark;
        count = inv.count;
        height = inv.height;
        packed = refl;
        few = inv.few;
        low = inv.low;
        sound = update-Sound s.pc i a.after inv.sound a.sound;
        some_winner = λ marked.
            let (j, w) = inv.some_winner (sym same ∙ marked) in
            (j, (update-same s.pc i a.after j wins).1 w);
        no_winner = λ clear j w.
            inv.no_winner (sym same ∙ clear) j ((update-same s.pc i a.after j wins).0 w);
        one_winner = λ j k w v.
            inv.one_winner j k ((update-same s.pc i a.after j wins).0 w)
              ((update-same s.pc i a.after k wins).0 v);
      }
      | inr (clear, marked, w) ↦ record {
        flag = a.mark;
        count = inv.count;
        height = inv.height;
        packed = refl;
        few = inv.few;
        low = inv.low;
        sound = update-Sound s.pc i a.after inv.sound a.sound;
        some_winner = λ _. (i, rw (eq_self i) w);
        no_winner = λ unmarked. absurd cc;
        one_winner = λ j k x y.
            update-first s.pc i a.after j (inv.no_winner clear) x
            ∙ sym (update-first s.pc i a.after k (inv.no_winner clear) y);
      }
    ])

-- A step that leaves the places and the flag.
recount :
    {s : Threads} (inv : Inv s) (n : ℕ)
    → n < 2 ^ 57
    → (w : ℕ) → w ≡ word inv.flag n inv.height
    → Inv (record s { word = w })
recount inv n few w packed = record {
  flag = inv.flag;
  count = n;
  height = inv.height;
  packed = packed;
  few = few;
  low = inv.low;
  sound = inv.sound;
  some_winner = inv.some_winner;
  no_winner = inv.no_winner;
  one_winner = inv.one_winner;
}

Step-Inv : {s t : Threads} → Step s t → Inv s → Inv t
Step-Inv (marks (takes i)) inv = turn-Inv i inv
Step-Inv (adds bound run) inv =
    let count : refs (word inv.flag inv.count inv.height) ≡ inv.count =
      (fields inv.flag inv.count inv.height inv.few inv.low).1 in
    let bound' : inv.count + 1 < 2 ^ 57 = rw (inv.packed, count) at bound in
    let run' = add_ref_lem inv.flag inv.count inv.height inv.few inv.low bound' in
    recount inv (inv.count + 1) bound' _ cc
Step-Inv (tries_add bound run) inv =
    let count : refs (word inv.flag inv.count inv.height) ≡ inv.count =
      (fields inv.flag inv.count inv.height inv.few inv.low).1 in
    let bound' : inv.count + 1 < 2 ^ 57 = rw (inv.packed, count) at bound in
    let run' = try_add_ref_lem inv.flag inv.count inv.height inv.few inv.low bound' in
    elim (ℕ_discrete inv.count 0) [
      | yes e ↦ recount inv inv.count inv.few _ (let z = eq→test e in cc)
      | no ne ↦ recount inv (inv.count + 1) bound' _ (let z = ne→not_eq ne in cc)
    ]
Step-Inv (subtracts some run) inv =
    let count : refs (word inv.flag inv.count inv.height) ≡ inv.count =
      (fields inv.flag inv.count inv.height inv.few inv.low).1 in
    let some' : 0 < inv.count = rw (inv.packed, count) at some in
    let run' = sub_ref_lem inv.flag inv.count inv.height inv.few inv.low some' in
    recount inv (inv.count - 1) (omega (arith, inv.few)) _ cc
Step-Inv (tries_sub run) inv =
    let run' = try_sub_ref_lem inv.flag inv.count inv.height inv.few inv.low in
    elim (ℕ_discrete inv.count 0) [
      | yes e ↦ absurd (let z = eq→test e in cc)
      | no ne ↦ recount inv (inv.count - 1) (omega (arith, inv.few)) _ (let z = ne→not_eq ne in cc)
    ]

Reach-Inv : {s t : Threads} → Reach s t → Inv s → Inv t
Reach-Inv here inv = inv
Reach-Inv (next r st) inv = Step-Inv st (Reach-Inv r inv)

-- No thread has begun on a word that is not marked.
pub start-Inv : (n h : ℕ) → n < 2 ^ 57 → h < 64 → Inv (start (word false n h))
start-Inv n h few low = record {
  flag = false;
  count = n;
  height = h;
  packed = refl;
  few = few;
  low = low;
  sound = λ i. tt;
  some_winner = λ e. absurd cc;
  no_winner = λ _ i w. w;
  one_winner = λ i j w v. absurd w;
}

-- Any number of threads call `set_removed` on a word with a count and no flag, with their accesses and
-- those of threads that count references in any order: at any time at most one of the calls has
-- succeeded, and the word has the flag exactly if one has.
pub Reach-winner :
    (n h : ℕ) {t : Threads}
    → n < 2 ^ 57
    → h < 64
    → Reach (start (word false n h)) t
    → ((i j : ℕ) → HasWon (t.pc i) → HasWon (t.pc j) → i ≡ j)
      × (removed t.word ≡ true ↔ ((i : ℕ) × HasWon (t.pc i)))
Reach-winner n h {t} few low r =
    let inv = Reach-Inv r (start-Inv n h few low) in
    let shown : removed t.word ≡ inv.flag =
      rw inv.packed ((fields inv.flag inv.count inv.height inv.few inv.low).2) in
    (
      inv.one_winner,
      (
        (λ e. inv.some_winner (sym shown ∙ e)),
        (λ (i, w). elim (Bool-cases inv.flag) [
          | inl e ↦ shown ∙ e
          | inr e ↦ absurd (inv.no_winner e i w)
        ]),
      ),
    )
