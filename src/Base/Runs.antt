-- ===== src/Base/Runs.antt =====
-- Runs of code that reads and writes a state `S` and may stop badly: `fault` is undefined behaviour
-- (a read through a null or dangling pointer, past the end of a tower, or of memory never
-- written), `panic` a Rust panic, `abort` a failed allocation, `out_of_fuel` a loop that is still
-- running when its fuel is used up.
use mathlib.Core.Path.{◌≡◌, refl, ◌∙◌}

pub data Run (S A : Type 0) : Type 0 where
  ok : A → S → Run S A
  fault panic abort out_of_fuel : Run S A

abbrev pub Cmd : Type 0 → Type 0 → Type 0
Cmd S A = S → Run S A

abbrev pub pure : {S A : Type 0} → A → Cmd S A
pure = ok

module _ {S A B : Type 0} where
  abbrev pub and_then : Run S A → (A → Cmd S B) → Run S B
  and_then (ok a s) k = k a s
  and_then fault k = fault
  and_then panic k = panic
  and_then abort k = abort
  and_then out_of_fuel k = out_of_fuel

  infixl 5 ◌>>=◌ ◌>>◌
  abbrev pub ◌>>=◌ : Cmd S A → (A → Cmd S B) → Cmd S B
  m >>= k = λ s. and_then (m s) k

  abbrev pub ◌>>◌ : Cmd S A → Cmd S B → Cmd S B
  m >> n = m >>= λ _. n

module _ {S A B C : Type 0} where
  pub and_then_assoc :
      (x : Run S A) (f : A → Cmd S B) (g : B → Cmd S C)
      → and_then (and_then x f) g ≡ and_then x (λ c s. and_then (f c s) g)
  and_then_assoc (ok a s) f g = refl
  and_then_assoc fault f g = refl
  and_then_assoc panic f g = refl
  and_then_assoc abort f g = refl
  and_then_assoc out_of_fuel f g = refl

module _ {S A B : Type 0} where
  pub and_then-ext :
      (x : Run S A) {f g : A → Cmd S B}
      → ((a : A) (s : S) → f a s ≡ g a s)
      → and_then x f ≡ and_then x g
  and_then-ext (ok a s) e = e a s
  and_then-ext fault e = refl
  and_then-ext panic e = refl
  and_then-ext abort e = refl
  and_then-ext out_of_fuel e = refl

module _ {S A B C D : Type 0} where
  pub and_then-regroup :
      (x : Run S A) (y : A → Cmd S B) (g : B → Cmd S C) (h : C → Cmd S D)
      → and_then (and_then x (λ a u. and_then (y a u) g)) h
        ≡ and_then x (λ a u. and_then (y a u) (λ b v. and_then (g b v) h))
  and_then-regroup x y g h =
      and_then_assoc x _ h ∙ and_then-ext x (λ a u. and_then_assoc (y a u) g h)
