-- ===== src/Threads/Alone/Ending.antt =====
-- Programs that run alone and change the length, and the domain of hazard pointers that frees nothing.
use skippy_rs.Base.{
  Run, fault, abort, ◌≡◌, refl, sym, ◌∙◌, ◌⊎◌, inl, inr, arith, ok, panic, out_of_fuel, and_then,
  pure, and_then_assoc, and_then-ext,
}
use skippy_rs.Store.{SkipList, Op}
use skippy_rs.Sync.Domain.{Domain}
use skippy_rs.Threads.{Prog, ◌>>=◌}
use skippy_rs.Threads.Alone.{alone, alone-bind, Kept, Like}

-- A program that runs alone does what the command does, unless the command is out of fuel; the length may
-- change.
pub record Ending {V A : Type 0} (s : SkipList V) (c : Op V A) (m : Prog A) : Type 0 where
  pub ends : (c s ≡ out_of_fuel) ⊎ (alone m s ≡ c s)

module _ {V : Type 0} {s : SkipList V} where
  pub Ending-Like : {A : Type 0} {c : Op V A} {m : Prog A} → Like s c m → Ending s c m
  Ending-Like like = record { ends = elim like.agrees [ inl e ↦ inl e | inr same ↦ inr same.0 ] }

  pub Ending-run :
      {A : Type 0} {t : SkipList V} {c : Op V A} {m : Prog A} {a : A}
      → Ending s c m
      → c s ≡ ok a t
      → alone m s ≡ ok a t
  Ending-run ending run = elim ending.ends [ inl e ↦ absurd (ground arith) | inr same ↦ same ∙ run ]

  pub Ending-at :
      {A : Type 0} {c c' : Op V A} {m m' : Prog A}
      → c s ≡ c' s
      → alone m s ≡ alone m' s
      → Ending s c' m'
      → Ending s c m
  Ending-at e f ending = record { ends = rw (e, f) ending.ends }

  pub Ending-do :
      {A B : Type 0} {x : Op V A} {m : Prog A} {f : A → Op V B} {g : A → Prog B}
      → Like s x m
      → ((a : A) (t : SkipList V) → Kept {A = A} s (ok a t) → Ending t (f a) (g a))
      → Ending s (λ t. and_then (x t) f) (m >>= g)
  Ending-do {A = A} {B = B} {x = x} {m = m} {f = f} {g = g} first after = record {
    ends = elim first.agrees [
      | inl e ↦ inl (rw e refl)
      | inr same ↦ rw (alone-bind m g s, same.0) (from (x s) same.1)
    ];
  }
    where
      from :
          (y : Run (SkipList V) A)
          → Kept s y
          → (and_then y f ≡ out_of_fuel) ⊎ (and_then y (λ a. alone (g a)) ≡ and_then y f)
      from (ok a t) kept = (after a t kept).ends
      from fault kept = inr refl
      from panic kept = inr refl
      from abort kept = inr refl
      from out_of_fuel kept = inl refl

module _ {V A B C : Type 0} where
  pub alone_assoc :
      (m : Prog A) (h : A → Prog B) (g : B → Prog C) (s : SkipList V)
      → alone ((m >>= h) >>= g) s ≡ alone (m >>= (λ a. h a >>= g)) s
  alone_assoc m h g s =
      rw (alone-bind (m >>= h) g s, alone-bind m h s, alone-bind m (λ a. h a >>= g) s)
        (and_then_assoc (alone m s) _ _
          ∙ and_then-ext (alone m s) (λ a t. sym (alone-bind (h a) g t)))

module _ {V : Type 0} where
  -- A domain that frees nothing reclaims nothing.
  abbrev pub quiet : Op V Unit
  quiet = pure tt

  -- A domain of hazard pointers that frees nothing: every retired node is still protected.
  abbrev pub all_protected : Domain V
  all_protected = record {
    eager_reclaim = quiet;
    reclaims = λ s. (
      s.live,
      s.retired,
      refl,
      record {
        kept = λ a out. refl;
        left = λ a out. out;
        only_frees = λ a dead. dead;
        forgotten = λ a dead out. out dead;
      },
    );
  }
