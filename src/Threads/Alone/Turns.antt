-- ===== src/Threads/Alone/Turns.antt =====
-- The calls of several threads that take turns, and what they make of the map.
use skippy_rs.Base.{
  ℕ, suc, ◌≡◌, sym, ◌∙◌, ◌≢◌, ◌≤◌, arith, ap, Bool, true, false, List, [], ◌∷◌, Option, none, some,
}
use skippy_rs.Store.{Ptr, SkipList}
use skippy_rs.Cells.{Cell}
use skippy_rs.Spec.{Entries, lookup, put, delete}
use skippy_rs.Threads.{Prog, System, done}
use skippy_rs.Threads.Methods.{get, remove}
use skippy_rs.Threads.Insert.{insert}
use skippy_rs.Threads.Alone.Waiting.{Waiting}

-- A call of a thread; `insert_node` names the node that was allocated for it.
pub data Turn (V : Type 0) : Type 0 where
  insert_node : Cell V → Turn V
  remove_key get_key : ℕ → Turn V

abbrev pub has : {A : Type 0} → Option A → Bool
has none = false
has (some a) = true

module _ {V : Type 0} where
  unfoldable pub turn_program : ℕ → (head : Ptr) → Turn V → Prog (Option Ptr)
  turn_program F head (insert_node c) = insert F head c.addr c.key
  turn_program F head (remove_key k) = remove F head k
  turn_program F head (get_key k) = get F head k

  abbrev pub turn_key : Turn V → ℕ
  turn_key (insert_node c) = c.key
  turn_key (remove_key k) = k
  turn_key (get_key k) = k

  -- What a call makes of the map.
  unfoldable pub turn_map : Turn V → Entries V → Entries V
  turn_map (insert_node c) es = put c.key c.val es
  turn_map (remove_key k) es = delete k es
  turn_map (get_key k) es = es

  unfoldable pub turns_map : List (Turn V) → Entries V → Entries V
  turns_map [] es = es
  turns_map (t ∷ rest) es = turns_map rest (turn_map t es)

  abbrev pub Differs : Turn V → Cell V → Type 0
  Differs (insert_node c) d = d.addr ≢ c.addr
  Differs (remove_key k) d = Unit
  Differs (get_key k) d = Unit

  abbrev pub AwayFrom : Turn V → List (Turn V) → Type 0
  AwayFrom t [] = Unit
  AwayFrom t (insert_node d ∷ rest) = Differs t d × AwayFrom t rest
  AwayFrom t (remove_key k ∷ rest) = AwayFrom t rest
  AwayFrom t (get_key k ∷ rest) = AwayFrom t rest

  abbrev pub WaitsFor : SkipList V → List (Cell V) → Turn V → Type 0
  WaitsFor s xs (insert_node c) = Waiting s xs c
  WaitsFor s xs (remove_key k) = Unit
  WaitsFor s xs (get_key k) = Unit

  -- The nodes of the insertions are allocated, distinct and in no list.
  abbrev pub Ready : SkipList V → List (Cell V) → List (Turn V) → Type 0
  Ready s xs [] = Unit
  Ready s xs (t ∷ rest) = WaitsFor s xs t × AwayFrom t rest × Ready s xs rest

  -- The threads from `i` on are at the start of the calls.
  abbrev pub Starts : ℕ → (head : Ptr) → ℕ → List (Turn V) → System V (Option Ptr) → Type 0
  Starts F head i [] sys = Unit
  Starts F head i (t ∷ rest) sys =
      (sys.pc i ≡ turn_program F head t) × Starts F head (suc i) rest sys

  -- The threads from `i` on have ended, each with an entry just where the map had the key of its call.
  abbrev pub Answered : ℕ → List (Turn V) → Entries V → System V (Option Ptr) → Type 0
  Answered i [] es sys = Unit
  Answered i (t ∷ rest) es sys =
      ((r : Option Ptr) × (sys.pc i ≡ done r) × (has r ≡ has (lookup (turn_key t) es)))
      × Answered (suc i) rest (turn_map t es) sys

  pub Starts-later :
      (F : ℕ) {head head' : Ptr} (i : ℕ) (ts : List (Turn V)) (sys sys' : System V (Option Ptr))
      → head' ≡ head
      → ((j : ℕ) → i ≤ j → sys'.pc j ≡ sys.pc j)
      → Starts F head i ts sys
      → Starts F head' i ts sys'
  Starts-later F i [] sys sys' e same starts = tt
  Starts-later F i (t ∷ rest) sys sys' e same starts = (
    same i (omega arith) ∙ starts.0 ∙ ap (λ h. turn_program F h t) (sym e),
    Starts-later F (suc i) rest sys sys' e (λ j le. same j (omega arith)) starts.1,
  )

module _ {V : Type 0} {s after : SkipList V} {xs cells : List (Cell V)} (t : Turn V)
    (waits : (d : Cell V) → Differs t d → Waiting s xs d → Waiting after cells d) where
  pub Ready-later : (ts : List (Turn V)) → AwayFrom t ts → Ready s xs ts → Ready after cells ts
  Ready-later [] away ready = tt
  Ready-later (insert_node d ∷ rest) away ready =
      (waits d away.0 ready.0, ready.1, Ready-later rest away.1 ready.2)
  Ready-later (remove_key k ∷ rest) away ready = (tt, ready.1, Ready-later rest away ready.2)
  Ready-later (get_key k ∷ rest) away ready = (tt, ready.1, Ready-later rest away ready.2)
