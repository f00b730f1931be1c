-- ===== src/Threads/Alone/Steps.antt =====
-- The run of a program that runs alone is a sequence of steps of its thread, whatever the other threads are at.
use skippy_rs.Base.{
  ℕ, ◌%◌, ◌+◌, ◌≡◌, refl, ◌∙◌, ◌≢◌, arith, Run, Cmd, ok, fault, panic, abort, out_of_fuel, and_then,
  eq_self, ne→not_eq,
}
use skippy_rs.Node.{usize}
use skippy_rs.Store.{SkipList, load_link, load_key, deref, on_header, update}
use skippy_rs.Unlinking.{retire_node}
use skippy_rs.Threads.{
  Prog, done, spent, crash, load, exchange, read_key, read_header, write_header, read_max,
  write_max, read_len, add_len, retire, run_op, exchange_link, advance, System, takes, Reach, here,
  next,
}
use skippy_rs.Threads.Alone.{alone}

module _ {S A B : Type 0} where
  pub and_then-ok :
      (x : Run S A) (f : A → Cmd S B) {b : B} {t : S}
      → and_then x f ≡ ok b t
      → (a : A) × (u : S) × (x ≡ ok a u) × (f a u ≡ ok b t)
  and_then-ok (ok a u) f e = (a, u, refl, e)
  and_then-ok fault f e = absurd (ground arith)
  and_then-ok panic f e = absurd (ground arith)
  and_then-ok abort f e = absurd (ground arith)
  and_then-ok out_of_fuel f e = absurd (ground arith)

module _ {V A : Type 0} where
  -- Thread `i` has ended with `a`, and no other thread has moved.
  pub record Ends (s : System V A) (i : ℕ) (a : A) (t : SkipList V) : Type 0 where
    pub last : System V A
    pub reach : Reach s last
    pub store : last.store ≡ t
    pub ended : last.pc i ≡ done a
    pub others : (j : ℕ) → j ≢ i → last.pc j ≡ s.pc j

  pub Reach-trans : {s t u : System V A} → Reach s t → Reach t u → Reach s u
  Reach-trans r here = r
  Reach-trans r (next q step) = next (Reach-trans r q) step

  -- One step of thread `i`, and its run from there.
  step-Ends :
      {s : System V A} {i : ℕ} {a : A} {t : SkipList V} (p : Prog A) (u : SkipList V)
      → advance (s.pc i) s.store ≡ ok p u
      → Ends (record { store = u; pc = update s.pc i p }) i a t
      → Ends s i a t
  step-Ends {i = i} p u e ends = record {
    last = ends.last;
    reach = Reach-trans (next here (takes i e)) ends.reach;
    store = ends.store;
    ended = ends.ended;
    others = λ j ne. ends.others j ne ∙ rw (ne→not_eq ne) refl;
  }

  pub alone-Ends :
      (m : Prog A) {s : System V A} {i : ℕ} {a : A} {t : SkipList V}
      → s.pc i ≡ m
      → alone m s.store ≡ ok a t
      → Ends s i a t
  unfolding alone advance
  alone-Ends (done a) at run = record {
    last = _;
    reach = here;
    store = cc;
    ended = cc;
    others = λ j ne. refl;
  }
  alone-Ends spent at run = absurd (ground arith)
  alone-Ends crash at run = absurd (ground arith)
  alone-Ends (load p l k) {s = s} {i = i} at run =
      let (q, u, found, rest) = and_then-ok (load_link p l s.store) _ run in
      step-Ends (k q) u (rw (at, found) refl) (alone-Ends (k q) (rw (eq_self i) refl) rest)
  alone-Ends (exchange p l e n k) {s = s} {i = i} at run =
      let (q, u, found, rest) = and_then-ok (exchange_link p l e n s.store) _ run in
      step-Ends (k q) u (rw (at, found) refl) (alone-Ends (k q) (rw (eq_self i) refl) rest)
  alone-Ends (read_key p k) {s = s} {i = i} at run =
      let (q, u, found, rest) = and_then-ok (load_key p s.store) _ run in
      step-Ends (k q) u (rw (at, found) refl) (alone-Ends (k q) (rw (eq_self i) refl) rest)
  alone-Ends (read_header p k) {s = s} {i = i} at run =
      let (x, u, found, rest) = and_then-ok (deref p s.store) _ run in
      step-Ends (k (u.header p)) u (rw (at, found) refl)
        (alone-Ends (k (u.header p)) (rw (eq_self i) refl) rest)
  alone-Ends (write_header p o k) {s = s} {i = i} at run =
      let (q, u, found, rest) = and_then-ok (on_header p (run_op o) s.store) _ run in
      step-Ends (k q) u (rw (at, found) refl) (alone-Ends (k q) (rw (eq_self i) refl) rest)
  alone-Ends (read_max k) {s = s} {i = i} at run =
      step-Ends (k s.store.max_height) (s.store) (rw at refl)
        (alone-Ends (k s.store.max_height) (rw (eq_self i) refl) run)
  alone-Ends (write_max h k) {s = s} {i = i} at run =
      step-Ends (k) (record s.store { max_height = h }) (rw at refl)
        (alone-Ends (k) (rw (eq_self i) refl) run)
  alone-Ends (read_len k) {s = s} {i = i} at run =
      step-Ends (k s.store.len) (s.store) (rw at refl)
        (alone-Ends (k s.store.len) (rw (eq_self i) refl) run)
  alone-Ends (add_len n k) {s = s} {i = i} at run =
      step-Ends (k) (record s.store { len = (s.store.len + n) % usize }) (rw at refl)
        (alone-Ends (k) (rw (eq_self i) refl) run)
  alone-Ends (retire p k) {s = s} {i = i} at run =
      let (x, u, found, rest) = and_then-ok (retire_node p s.store) _ run in
      step-Ends (k) u (rw (at, found) refl) (alone-Ends (k) (rw (eq_self i) refl) rest)
