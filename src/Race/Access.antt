-- ===== src/Race/Access.antt =====
-- The invariant of a race to mark a node, and what one access does to a word.
use skippy_rs.Base.{
  ℕ, ◌≡◌, refl, ◌<◌, ◌^◌, Bool, true, false, arith, ◌⊎◌, inl, inr, Bool-cases, ne→not_eq, eq→test,
  eq_self, ◌↔◌,
}
use native.Mathlib.Decide.{ℕ_discrete}
use skippy_rs.Node.Header.{word, word-flagged}
use skippy_rs.Race.{Pc, ready, loaded, won, lost, access, Threads}

abbrev pub HasWon : Pc → Type 0
HasWon won = Unit
HasWon ready = ⊥
HasWon (loaded old) = ⊥
HasWon lost = ⊥

-- A word without the flag.
abbrev pub Unmarked : ℕ → Type 0
Unmarked w = (n : ℕ) × (h : ℕ) × (w ≡ word false n h) × (n < 2 ^ 57) × (h < 64)

abbrev pub Sound : Pc → Type 0
Sound (loaded old) = Unmarked old
Sound ready = Unit
Sound won = Unit
Sound lost = Unit

-- The word packs its fields; what a thread loaded had no flag; there is a winner exactly if the flag is
-- set, and only one.
pub record Inv (s : Threads) : Type 0 where
  pub flag : Bool
  pub count : ℕ
  pub height : ℕ
  pub packed : s.word ≡ word flag count height
  pub few : count < 2 ^ 57
  pub low : height < 64
  pub sound : (i : ℕ) → Sound (s.pc i)
  pub some_winner : flag ≡ true → (i : ℕ) × HasWon (s.pc i)
  pub no_winner : flag ≡ false → (i : ℕ) → ¬ HasWon (s.pc i)
  pub one_winner : (i j : ℕ) → HasWon (s.pc i) → HasWon (s.pc j) → i ≡ j

-- What one access does to a packed word.
pub record Accessed (p : Pc) (b : Bool) (n h : ℕ) : Type 0 where
  pub after : Pc
  pub mark : Bool
  pub runs : access p (word b n h) ≡ (after, word mark n h)
  pub sound : Sound after
  pub first : (mark ≡ b) × (HasWon after ↔ HasWon p) ⊎ (b ≡ false) × (mark ≡ true) × HasWon after

pub access-Accessed :
    (p : Pc) (b : Bool) (n h : ℕ) → n < 2 ^ 57 → h < 64 → Sound p → Accessed p b n h
unfolding access
access-Accessed ready b n h few low s = elim (Bool-cases b) [
  | inl e ↦ record {
    after = lost;
    mark = b;
    runs = rw (e, word-flagged true n h few low, eq_self (word true n h));
    sound = tt;
    first = inl (refl, ((λ x. x), (λ x. x)));
  }
  | inr e ↦ record {
    after = loaded (word false n h);
    mark = b;
    runs = rw (
      e,
      word-flagged false n h few low,
      ne→not_eq {a = word true n h} {b = word false n h} (omega arith),
    );
    sound = (n, h, refl, few, low);
    first = inl (refl, ((λ x. x), (λ x. x)));
  }
]
access-Accessed (loaded old) b n h few low (m, k, unmarked, few', low') =
    elim (ℕ_discrete (word b n h) old) [
      | yes same ↦
          let clear : b ≡ false = elim (Bool-cases b) [
            | inl e ↦ absurd (omega (arith, rw e at same))
            | inr e ↦ e
          ] in
          record {
            after = won;
            mark = true;
            runs = rw (eq→test same, ← same, word-flagged b n h few low);
            sound = tt;
            first = inr (clear, refl, tt);
          }
      | no other ↦ record {
        after = lost;
        mark = b;
        runs = rw (ne→not_eq other);
        sound = tt;
        first = inl (refl, ((λ x. x), (λ x. x)));
      }
    ]
access-Accessed won b n h few low s = record {
  after = won;
  mark = b;
  runs = refl;
  sound = tt;
  first = inl (refl, ((λ x. x), (λ x. x)));
}
access-Accessed lost b n h few low s = record {
  after = lost;
  mark = b;
  runs = refl;
  sound = tt;
  first = inl (refl, ((λ x. x), (λ x. x)));
}
