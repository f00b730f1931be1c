-- ===== src/Threads/Alone.antt =====
-- A program that runs with no other thread in between, and how it agrees with a command over the memory.
pub mod Levels
pub mod Search
pub mod Steps
pub mod Marking
pub mod Ending
pub mod Removing
pub mod Linking
pub mod Clearing
pub mod Waiting
pub mod Adding
pub mod Calls
pub mod Turns
pub mod Replay
use skippy_rs.Base.{
  and_then_assoc, and_then-ext, and_then-regroup, ℕ, zero, suc, ◌+◌, ◌%◌, ◌≡◌, refl, sym, ◌∙◌, ◌⊎◌,
  inl, inr, arith, Bool-cases, true, false, Bool, Run, Cmd, ok, fault, panic, abort, out_of_fuel,
  pure, and_then, ◌==◌, if◌then◌else◌, ltb, eq_self, Option, none, some,
}
use skippy_rs.Node.{Result, right, wrong, usize}
use skippy_rs.Store.{
  Ptr, null, Link, SkipList, Op, load_link, store_link, update_link, load_ptr, load_tag, load_key,
  load_height, deref, on_header, in_header, or_fault,
}
use skippy_rs.Unlinking.{retire_node}
use skippy_rs.Threads.{
  Prog, done, spent, crash, load, exchange, read_key, read_header, write_header, read_max,
  write_max, read_len, add_len, retire, ◌>>=◌, run_op, exchange_link,
}

module _ {V : Type 0} where
  -- All accesses of the program, one after the other.
  unfoldable pub alone : {A : Type 0} → Prog A → Op V A
  alone (done a) s = ok a s
  alone spent s = out_of_fuel
  alone crash s = panic
  alone (load p l k) s = and_then (load_link p l s) (λ q. alone (k q))
  alone (exchange p l e n k) s = and_then (exchange_link p l e n s) (λ r. alone (k r))
  alone (read_key p k) s = and_then (load_key p s) (λ j. alone (k j))
  alone (read_header p k) s = and_then (deref p s) (λ u t. alone (k (t.header p)) t)
  alone (write_header p o k) s = and_then (on_header p (run_op o) s) (λ r. alone (k r))
  alone (read_max k) s = alone (k s.max_height) s
  alone (write_max h k) s = alone k (record s { max_height = h })
  alone (read_len k) s = alone (k s.len) s
  alone (add_len n k) s = alone k (record s { len = (s.len + n) % usize })
  alone (retire p k) s = and_then (retire_node p s) (λ u. alone k)

  -- A run that keeps what the bounds on the loops depend on.
  abbrev pub Kept : {A : Type 0} → SkipList V → Run (SkipList V) A → Type 0
  Kept s (ok a t) = (t.len ≡ s.len) × (t.max_height ≡ s.max_height) × (t.head ≡ s.head)
  Kept s fault = Unit
  Kept s panic = Unit
  Kept s abort = Unit
  Kept s out_of_fuel = Unit

  -- The first run is out of fuel, or both are the same.
  abbrev pub Agrees : {A : Type 0} → SkipList V → (x y : Run (SkipList V) A) → Type 0
  Agrees s x y = (x ≡ out_of_fuel) ⊎ ((y ≡ x) × Kept s x)

-- A program that runs alone does what the command does, unless the command is out of fuel.
pub record Like {V A : Type 0} (s : SkipList V) (c : Op V A) (m : Prog A) : Type 0 where
  pub agrees : Agrees s (c s) (alone m s)

module _ {V : Type 0} {A B : Type 0} where
  pub alone-bind :
      (m : Prog A) (f : A → Prog B) (s : SkipList V)
      → alone (m >>= f) s ≡ and_then (alone m s) (λ a. alone (f a))
  unfolding alone ◌>>=◌
  alone-bind (done a) f s = refl
  alone-bind spent f s = refl
  alone-bind crash f s = refl
  alone-bind (load p l k) f s =
      and_then-ext _ (λ q. alone-bind (k q) f) ∙ sym (and_then_assoc (load_link p l s) _ _)
  alone-bind (exchange p l e n k) f s =
      and_then-ext _ (λ q. alone-bind (k q) f) ∙ sym (and_then_assoc (exchange_link p l e n s) _ _)
  alone-bind (read_key p k) f s =
      and_then-ext _ (λ q. alone-bind (k q) f) ∙ sym (and_then_assoc (load_key p s) _ _)
  alone-bind (read_header p k) f s =
      and_then-ext _ (λ u t. alone-bind (k (t.header p)) f t) ∙ sym (and_then_assoc (deref p s) _ _)
  alone-bind (write_header p o k) f s =
      and_then-ext _ (λ q. alone-bind (k q) f) ∙ sym (and_then_assoc (on_header p (run_op o) s) _ _)
  alone-bind (read_max k) f s = alone-bind (k s.max_height) f s
  alone-bind (write_max h k) f s = alone-bind k f _
  alone-bind (read_len k) f s = alone-bind (k s.len) f s
  alone-bind (add_len n k) f s = alone-bind k f _
  alone-bind (retire p k) f s =
      and_then-ext _ (λ q. alone-bind k f) ∙ sym (and_then_assoc (retire_node p s) _ _)

  Agrees-Kept :
      (s : SkipList V) (x : Run (SkipList V) A) {f g : A → Op V B}
      → Kept s x
      → ((a : A) (t : SkipList V) → Kept {A = A} s (ok a t) → Agrees t (f a t) (g a t))
      → Agrees s (and_then x f) (and_then x g)
  Agrees-Kept s (ok a t) {f = f} kept after = elim (after a t kept) [
    | inl e ↦ inl e
    | inr same ↦ inr (same.0, onward (f a t) same.1)
  ]
    where
      onward : (y : Run (SkipList V) B) → Kept t y → Kept s y
      onward (ok b u) k = (k.0 ∙ kept.0, k.1 ∙ kept.1, k.2 ∙ kept.2)
      onward fault k = tt
      onward panic k = tt
      onward abort k = tt
      onward out_of_fuel k = tt
  Agrees-Kept s fault kept after = inr (refl, tt)
  Agrees-Kept s panic kept after = inr (refl, tt)
  Agrees-Kept s abort kept after = inr (refl, tt)
  Agrees-Kept s out_of_fuel kept after = inl refl

  -- What follows commands that agree.
  pub Like-do :
      {s : SkipList V} {x : Op V A} {m : Prog A} {f : A → Op V B} {g : A → Prog B}
      → Like s x m
      → ((a : A) (t : SkipList V) → Kept {A = A} s (ok a t) → Like t (f a) (g a))
      → Like s (λ t. and_then (x t) f) (m >>= g)
  Like-do {s = s} {x = x} {m = m} {f = f} {g = g} first after = record {
    agrees = elim first.agrees [
      | inl e ↦ inl (rw e refl)
      | inr same ↦
          rw (alone-bind m g s, same.0)
            (Agrees-Kept s (x s) same.1 (λ a t kept. (after a t kept).agrees))
    ];
  }

module _ {V : Type 0} where
  -- What agrees with a run that ends is that run.
  pub Like-run :
      {A : Type 0} {s t : SkipList V} {c : Op V A} {m : Prog A} {a : A}
      → Like s c m
      → c s ≡ ok a t
      → alone m s ≡ ok a t
  Like-run like run = elim like.agrees [ inl e ↦ absurd (ground arith) | inr same ↦ same.0 ∙ run ]

module _ {V : Type 0} (s : SkipList V) where
  pub load_link-cases :
      (p : Ptr) (l : ℕ) → (load_link p l s ≡ fault) ⊎ (load_link p l s ≡ ok (s.link p l) s)
  unfolding load_link load_height deref
  load_link-cases p l = ground arith

  load_ptr-link :
      (p : Ptr) (l : ℕ) → load_ptr p l s ≡ and_then (load_link p l s) (λ k t. ok k.ptr t)
  unfolding load_ptr
  load_ptr-link p l = refl

  load_tag-link :
      (p : Ptr) (l : ℕ) → load_tag p l s ≡ and_then (load_link p l s) (λ k t. ok k.tag t)
  unfolding load_tag
  load_tag-link p l = refl

  pub store_link-cases :
      (p : Ptr) (l : ℕ) (k : Link)
      → (store_link p l k s ≡ fault)
        ⊎ (store_link p l k s ≡ ok tt (record s { link = update_link s.link p l k }))
  unfolding store_link load_height deref
  store_link-cases p l k = ground arith

  pub deref-cases : (p : Ptr) → (deref p s ≡ fault) ⊎ (deref p s ≡ ok tt s)
  unfolding deref
  deref-cases p = ground arith

  Agrees-ok : {A : Type 0} (a : A) → Agrees s (ok a s) (ok a s)
  Agrees-ok a = inr (refl, (refl, refl, refl))

  pub Like-done : {A : Type 0} {a : A} → Like s (λ t. ok a t) (done a)
  unfolding alone
  Like-done {a = a} = record { agrees = Agrees-ok a }

  -- Only the run at this memory matters.
  pub Like-at : {A : Type 0} {c c' : Op V A} {m : Prog A} → c s ≡ c' s → Like s c' m → Like s c m
  Like-at e like = record { agrees = rw e like.agrees }

  -- A read of the header word of a node that is there.
  pub Like-header :
      {A : Type 0} {p : Ptr} {c : Op V A} {g : ℕ → Prog A}
      → deref p s ≡ ok tt s
      → Like s c (g (s.header p))
      → Like s c (read_header p g)
  unfolding alone
  Like-header found after = record { agrees = rw found after.agrees }

  pub Like-max :
      {A : Type 0} {c : Op V A} {g : ℕ → Prog A} → Like s c (g s.max_height) → Like s c (read_max g)
  unfolding alone
  Like-max after = record { agrees = after.agrees }

  pub Like-len :
      {A : Type 0} {c : Op V A} {g : ℕ → Prog A} → Like s c (g s.len) → Like s c (read_len g)
  unfolding alone
  Like-len after = record { agrees = after.agrees }

  pub Like-crash : {A : Type 0} → Like {A = A} s (λ t. panic) crash
  unfolding alone
  Like-crash = record { agrees = inr (refl, tt) }

  pub Like-spent : {A : Type 0} {m : Prog A} → Like s (λ t. out_of_fuel) m
  Like-spent = record { agrees = inl refl }

  pub Like-load :
      {B : Type 0} {p : Ptr} {l : ℕ} (f : Ptr → Op V B) {g : Link → Prog B}
      → Like s (f (s.link p l).ptr) (g (s.link p l))
      → Like s (λ t. and_then (load_ptr p l t) f) (load p l g)
  unfolding alone
  Like-load {p = p} {l = l} f after = record {
    agrees = elim (load_link-cases p l) [
      | inl e ↦ rw (load_ptr-link p l, e) (inr (refl, tt))
      | inr e ↦ rw (load_ptr-link p l, e) after.agrees
    ];
  }

  pub Like-tag :
      {B : Type 0} {p : Ptr} {l : ℕ} (f : ℕ → Op V B) {g : Link → Prog B}
      → Like s (f (s.link p l).tag) (g (s.link p l))
      → Like s (λ t. and_then (load_tag p l t) f) (load p l g)
  unfolding alone
  Like-tag {p = p} {l = l} f after = record {
    agrees = elim (load_link-cases p l) [
      | inl e ↦ rw (load_tag-link p l, e) (inr (refl, tt))
      | inr e ↦ rw (load_tag-link p l, e) after.agrees
    ];
  }

  -- A read of the key of a node, which is there then.
  pub Like-key :
      {B : Type 0} {p : Ptr} {f : ℕ → Op V B} {g : ℕ → Prog B}
      → ((k : ℕ) → deref p s ≡ ok tt s → Like s (f k) (g k))
      → Like s (λ t. and_then (load_key p t) f) (read_key p g)
  unfolding load_key alone
  Like-key {p = p} {f = f} {g = g} after = record {
    agrees = elim (deref-cases p) [
      | inl e ↦ rw e (inr (refl, tt))
      | inr e ↦ rw e (keyed (s.key p) (λ j. after j e))
    ];
  }
    where
      keyed :
          (k : Option ℕ)
          → ((j : ℕ) → Like s (f j) (g j))
          → Agrees s (and_then (or_fault k s) f) (and_then (or_fault k s) (λ j. alone (g j)))
      keyed none all = inr (refl, tt)
      keyed (some j) all = (all j).agrees
