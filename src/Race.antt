-- ===== src/Race.antt =====
-- `set_removed` and `set_har_with` of src/internal/utils/node.rs run by any number of threads on one
-- header word. A thread's call is two atomic accesses, the load and the `compare_exchange`; between them
-- other threads run, and threads that link or unlink the node change the count of references.
pub mod Access
pub mod Winner
pub mod Turns
pub mod Counted
pub mod Frozen
use skippy_rs.Base.{ℕ, ◌+◌, ◌≡◌, ◌<◌, ◌^◌, bit_or, ◌==◌, if◌then◌else◌, ok}
use skippy_rs.Node.{
  Result, right, wrong, removed_mask, refs, add_ref, try_add_ref, sub_ref, try_sub_ref,
}
use skippy_rs.Store.{update}

-- Where a thread is in `set_removed`: before the load, before the `compare_exchange` with the word that
-- it loaded, or at the end, with `Ok` or `Err`.
pub data Pc : Type 0 where
  ready : Pc
  loaded : ℕ → Pc
  won lost : Pc

abbrev pub set_flag : ℕ → ℕ
set_flag old = bit_or old removed_mask

-- One atomic access of a thread, with the thread's place and the word that it leaves.
unfoldable pub access : Pc → ℕ → Pc × ℕ
access ready w = (if set_flag w == w then lost else loaded w, w)
access (loaded old) w = if w == old then (won, set_flag old) else (lost, w)
access won w = (won, w)
access lost w = (lost, w)

-- The word and the place of each thread.
pub record Threads : Type 0 where
  pub word : ℕ
  pub pc : ℕ → Pc

abbrev pub turn : ℕ → Threads → Threads
turn i s = let (p, w) = access (s.pc i) s.word in record { word = w; pc = update s.pc i p }

-- A step of a thread that calls `set_removed`.
pub data Turn (s : Threads) : Threads → Type 0 where
  takes : (i : ℕ) → Turn s (turn i s)

-- A step of any thread: of one that calls `set_removed`, or of one that changes the count, which stays
-- in its 57 bits.
pub data Step (s : Threads) : Threads → Type 0 where
  marks : {t : Threads} → Turn s t → Step s t
  adds :
      {n w : ℕ}
      → refs s.word + 1 < 2 ^ 57
      → add_ref s.word ≡ ok n w
      → Step s (record s { word = w })
  tries_add :
      {r : Result ℕ ℕ} {w : ℕ}
      → refs s.word + 1 < 2 ^ 57
      → try_add_ref s.word ≡ ok r w
      → Step s (record s { word = w })
  subtracts : {n w : ℕ} → 0 < refs s.word → sub_ref s.word ≡ ok n w → Step s (record s { word = w })
  tries_sub :
      {r : Result ℕ ℕ} {w : ℕ} → try_sub_ref s.word ≡ ok r w → Step s (record s { word = w })

pub data Reach (s : Threads) : Threads → Type 0 where
  here : Reach s s
  next : {t u : Threads} → Reach s t → Step t u → Reach s u

-- All threads are about to call `set_removed` on the word `w`.
abbrev pub start : ℕ → Threads
start w = record { word = w; pc = λ _. ready }
