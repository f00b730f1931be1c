-- ===== src/Threads.antt =====
-- Threads that run methods of src/internal/sync/mod.rs on one list, an atomic access at a time. A method
-- is a program: an access of shared memory, and what follows for each answer. The memory is that of the
-- other modules. Nodes that a thread inserts are allocated before it starts, and none is reclaimed while
-- the threads run, which is what the hazard pointers are for.
pub mod Find
pub mod Methods
pub mod Insert
pub mod Safe
pub mod Access
pub mod Searching
pub mod Removing
pub mod Inserting
pub mod Calls
pub mod Towers
pub mod Leak
pub mod Alone
use skippy_rs.Base.{
  ℕ, ◌+◌, ◌%◌, ◌≡◌, refl, List, [], ◌∷◌, ◌==◌, ◌&&◌, if◌then◌else◌, Run, Cmd, ok, fault, panic,
  abort, out_of_fuel, and_then,
}
use skippy_rs.Node.{Result, right, wrong, usize, add_ref, try_add_ref, sub_ref, try_sub_ref}
use skippy_rs.Store.{
  Ptr, Link, SkipList, Op, load_link, store_link, load_key, deref, on_header, update,
}
use skippy_rs.Unlinking.{retire_node}
use skippy_rs.Race.{set_flag}

-- The atomic writes of a header word; `flag` is the `compare_exchange` of `set_removed`.
pub data HeaderOp : Type 0 where
  add try_add sub try_sub : HeaderOp
  flag : (old : ℕ) → HeaderOp

pub data Prog (A : Type 0) : Type 0 where
  done : A → Prog A
  spent : Prog A  -- a loop whose fuel is used up
  crash : Prog A  -- a panic
  load : Ptr → ℕ → (Link → Prog A) → Prog A
  exchange : Ptr → ℕ → (expected new : Link) → (Result Link Link → Prog A) → Prog A
  read_key : Ptr → (ℕ → Prog A) → Prog A
  read_header : Ptr → (ℕ → Prog A) → Prog A
  write_header : Ptr → HeaderOp → (Result ℕ ℕ → Prog A) → Prog A
  read_max : (ℕ → Prog A) → Prog A
  write_max : ℕ → Prog A → Prog A
  read_len : (ℕ → Prog A) → Prog A
  add_len : (by : ℕ) → Prog A → Prog A
  retire : Ptr → Prog A → Prog A

module _ {A B : Type 0} where
  infixl 5 ◌>>=◌
  unfoldable pub ◌>>=◌ : Prog A → (A → Prog B) → Prog B
  done a >>= f = f a
  spent >>= f = spent
  crash >>= f = crash
  load p l k >>= f = load p l (λ q. k q >>= f)
  exchange p l e n k >>= f = exchange p l e n (λ r. k r >>= f)
  read_key p k >>= f = read_key p (λ j. k j >>= f)
  read_header p k >>= f = read_header p (λ w. k w >>= f)
  write_header p o k >>= f = write_header p o (λ r. k r >>= f)
  read_max k >>= f = read_max (λ n. k n >>= f)
  write_max h k >>= f = write_max h (k >>= f)
  read_len k >>= f = read_len (λ n. k n >>= f)
  add_len n k >>= f = add_len n (k >>= f)
  retire p k >>= f = retire p (k >>= f)

abbrev pub as_result : {A : Type 0} → Run ℕ ℕ → Run ℕ (Result ℕ A)
as_result (ok n w) = ok (right n) w
as_result fault = fault
as_result panic = panic
as_result abort = abort
as_result out_of_fuel = out_of_fuel

unfoldable pub run_op : HeaderOp → Cmd ℕ (Result ℕ ℕ)
run_op add w = as_result (add_ref w)
run_op try_add w = try_add_ref w
run_op sub w = as_result (sub_ref w)
run_op try_sub w = try_sub_ref w
run_op (flag old) w = if w == old then ok (right w) (set_flag old) else ok (wrong w) w

module _ {V : Type 0} where
  -- `compare_exchange_with_tag` on `levels[l]`
  unfoldable pub exchange_link : Ptr → ℕ → (expected new : Link) → Op V (Result Link Link)
  exchange_link p l expected new s = and_then (load_link p l s) (λ k.
      if (k.ptr == expected.ptr) && (k.tag == expected.tag)
      then (λ t. and_then (store_link p l new t) (λ u. ok (right k)))
      else ok (wrong k))

  -- The next access of a program, and the program that is left.
  unfoldable pub advance : {A : Type 0} → Prog A → Op V (Prog A)
  advance (done a) s = ok (done a) s
  advance spent s = ok spent s
  advance crash s = panic
  advance (load p l k) s = and_then (load_link p l s) (λ q. ok (k q))
  advance (exchange p l e n k) s = and_then (exchange_link p l e n s) (λ r. ok (k r))
  advance (read_key p k) s = and_then (load_key p s) (λ j. ok (k j))
  advance (read_header p k) s = and_then (deref p s) (λ u t. ok (k (t.header p)) t)
  advance (write_header p o k) s = and_then (on_header p (run_op o) s) (λ r. ok (k r))
  advance (read_max k) s = ok (k s.max_height) s
  advance (write_max h k) s = ok k (record s { max_height = h })
  advance (read_len k) s = ok (k s.len) s
  advance (add_len n k) s = ok k (record s { len = (s.len + n) % usize })
  advance (retire p k) s = and_then (retire_node p s) (λ u. ok k)

-- The memory, and what is left of the program of each thread.
pub record System (V A : Type 0) : Type 0 where
  pub store : SkipList V
  pub pc : ℕ → Prog A

-- Some thread goes on by one access.
pub data Step {V A : Type 0} (s : System V A) : System V A → Type 0 where
  takes :
      (i : ℕ) {p : Prog A} {t : SkipList V}
      → advance (s.pc i) s.store ≡ ok p t
      → Step s (record { store = t; pc = update s.pc i p })

pub data Reach {V A : Type 0} (s : System V A) : System V A → Type 0 where
  here : Reach s s
  next : {t u : System V A} → Reach s t → Step t u → Reach s u

-- A schedule: the threads in the order in which they take their accesses. A thread that cannot go on is
-- passed over.
module _ {V A : Type 0} where
  abbrev moved : ℕ → System V A → Run (SkipList V) (Prog A) → System V A
  moved i s (ok p t) = record { store = t; pc = update s.pc i p }
  moved i s _ = s

  unfoldable pub schedule : List ℕ → System V A → System V A
  schedule [] s = s
  schedule (i ∷ is) s = schedule is (moved i s (advance (s.pc i) s.store))

  moved-Reach :
      {u t : System V A} (i : ℕ) (x : Run (SkipList V) (Prog A))
      → advance (t.pc i) t.store ≡ x
      → Reach u t
      → Reach u (moved i t x)
  moved-Reach i (ok p s) e r = next r (takes i e)
  moved-Reach i fault e r = r
  moved-Reach i panic e r = r
  moved-Reach i abort e r = r
  moved-Reach i out_of_fuel e r = r

  schedule-next :
      {u : System V A} (is : List ℕ) (t : System V A) → Reach u t → Reach u (schedule is t)
  unfolding schedule
  schedule-next [] t r = r
  schedule-next (i ∷ is) t r = schedule-next is _ (moved-Reach i _ refl r)

  pub schedule-Reach : (is : List ℕ) (s : System V A) → Reach s (schedule is s)
  schedule-Reach is s = schedule-next is s here
