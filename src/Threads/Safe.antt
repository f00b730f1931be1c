-- ===== src/Threads/Safe.antt =====
-- What the accesses of a program need and may rely on, while other threads run: the nodes do not change
-- their keys and heights, and each link leads to null or to a node that reaches the link's level, on the
-- lowest level without a descent of the keys.
use skippy_rs.Base.{
  ℕ, ◌≡◌, ◌≢◌, ◌<◌, ◌≤◌, ◌⊎◌, Bool, true, Option, none, some, Run, ok, fault, panic, abort,
  out_of_fuel, inl, inr, arith,
}
use skippy_rs.Node.{Result, right, wrong, usize, max_levels, height}
use skippy_rs.Store.{Ptr, null, Link, SkipList}
use skippy_rs.Store.Access.{At}
use skippy_rs.Sync.{Pairs, SearchResult}
use skippy_rs.Threads.{
  Prog, done, spent, crash, load, exchange, read_key, read_header, write_header, read_max,
  write_max, read_len, add_len, retire, ◌>>=◌,
}

-- The nodes there are, the head among them, with their heights and keys.
pub record World : Type 0 where
  pub head : Ptr
  pub known : Ptr → Bool
  pub tall : Ptr → ℕ
  pub key : Ptr → ℕ
  pub head_known : known head ≡ true
  pub head_tall : tall head ≡ max_levels
  pub some_level : (p : Ptr) → known p ≡ true → 0 < tall p
  pub few_levels : (p : Ptr) → known p ≡ true → tall p ≤ max_levels
  pub ne_null : (p : Ptr) → known p ≡ true → p ≢ null

abbrev pub Always : {A : Type 0} → A → Type 0
Always a = Unit

module _ (w : World) where
  -- A node with the level `l`.
  abbrev pub Room : Ptr → ℕ → Type 0
  Room p l = (w.known p ≡ true) × (l < w.tall p)

  abbrev pub IsEntry : ℕ → Ptr → Type 0
  IsEntry l q = Room q l × (q ≢ w.head)

  abbrev pub InOrder : Ptr → Ptr → Type 0
  InOrder p q = (p ≡ w.head) ⊎ (w.key p ≤ w.key q)

  -- What a link of `p` may be: on the lowest level the keys do not descend.
  abbrev pub Leads : Ptr → ℕ → Ptr → Type 0
  Leads p l q = (q ≡ null) ⊎ (IsEntry l q × (l ≡ 0 → InOrder p q))

  -- A link past a node.
  pub Leads-through :
      (p q n : Ptr) (l : ℕ) → Leads p l q → w.known q ≡ true → Leads q l n → Leads p l n
  Leads-through p q n l (inl e) known after = absurd (w.ne_null q known e)
  Leads-through p q n l (inr first) known (inl e) = inl e
  Leads-through p q n l (inr first) known (inr after) =
      inr (after.0, λ z. joined (first.1 z) (after.1 z))
    where
      joined : InOrder p q → InOrder q n → InOrder p n
      joined (inl e) le = inl e
      joined (inr le) (inl e) = absurd (first.0.1 e)
      joined (inr le) (inr le') = inr (omega arith)

  -- What the answer of an exchange tells.
  abbrev pub Answers : Ptr → ℕ → Link → Result Link Link → Type 0
  Answers p l e (right old) = Leads p l e.ptr
  Answers p l e (wrong now) = Leads p l now.ptr

  -- Each access of the program stays inside a tower, keeps the links, and its end has `Q`.
  unfoldable pub Safe : {A : Type 0} → (A → Type 0) → Prog A → Type 0
  Safe Q (done a) = Q a
  Safe Q spent = Unit
  Safe Q crash = Unit
  Safe Q (load p l k) = Room p l × ((q : Link) → Leads p l q.ptr → Safe Q (k q))
  Safe Q (exchange p l e n k) =
      Room p l
      × (Leads p l e.ptr → Leads p l n.ptr)
      × ((r : Result Link Link) → Answers p l e r → Safe Q (k r))
  Safe Q (read_key p k) = (w.known p ≡ true) × (p ≢ w.head) × Safe Q (k (w.key p))
  Safe Q (read_header p k) = (w.known p ≡ true) × ((v : ℕ) → height v ≡ w.tall p → Safe Q (k v))
  Safe Q (write_header p o k) = (w.known p ≡ true) × ((r : Result ℕ ℕ) → Safe Q (k r))
  Safe Q (read_max k) = (n : ℕ) → 0 < n → n ≤ max_levels → Safe Q (k n)
  Safe Q (write_max h k) = (0 < h) × (h ≤ max_levels) × Safe Q k
  Safe Q (read_len k) = (n : ℕ) → Safe Q (k n)
  Safe Q (add_len n k) = Safe Q k
  Safe Q (retire p k) = Safe Q k

  pub Safe-bind :
      {A B : Type 0} {P : A → Type 0} (Q : B → Type 0) (m : Prog A) (f : A → Prog B)
      → Safe P m
      → ((a : A) → P a → Safe Q (f a))
      → Safe Q (m >>= f)
  unfolding Safe ◌>>=◌
  Safe-bind Q (done a) f s after = after a s
  Safe-bind Q spent f s after = tt
  Safe-bind Q crash f s after = tt
  Safe-bind Q (load p l k) f s after = (s.0, λ q leads. Safe-bind Q (k q) f (s.1 q leads) after)
  Safe-bind Q (exchange p l e n k) f s after =
      (s.0, s.1, λ r told. Safe-bind Q (k r) f (s.2 r told) after)
  Safe-bind Q (read_key p k) f s after = (s.0, s.1, Safe-bind Q (k (w.key p)) f s.2 after)
  Safe-bind Q (read_header p k) f s after = (s.0, λ v tall. Safe-bind Q (k v) f (s.1 v tall) after)
  Safe-bind Q (write_header p o k) f s after = (s.0, λ r. Safe-bind Q (k r) f (s.1 r) after)
  Safe-bind Q (read_max k) f s after = λ n pos le. Safe-bind Q (k n) f (s n pos le) after
  Safe-bind Q (write_max h k) f s after = (s.0, s.1, Safe-bind Q k f s.2 after)
  Safe-bind Q (read_len k) f s after = λ n. Safe-bind Q (k n) f (s n) after
  Safe-bind Q (add_len n k) f s after = Safe-bind Q k f s after
  Safe-bind Q (retire p k) f s after = Safe-bind Q k f s after

  -- The memory holds the nodes, and each link leads to a node that reaches its level.
  pub record Inv {V : Type 0} (s : SkipList V) : Type 0 where
    pub head_is : s.head ≡ w.head
    pub live_is : (p : Ptr) → s.live p ≡ w.known p
    pub at : (p : Ptr) → w.known p ≡ true → At s p (w.tall p)
    pub small : (p : Ptr) → w.known p ≡ true → s.header p < usize
    pub keyed : (p : Ptr) → w.known p ≡ true → p ≢ w.head → s.key p ≡ some (w.key p)
    pub links : (p : Ptr) (l : ℕ) → Room p l → Leads p l (s.link p l).ptr
    pub max_pos : 0 < s.max_height
    pub max_le : s.max_height ≤ max_levels

  -- No access is out of bounds.
  abbrev pub Outcome : {V A : Type 0} → (A → Type 0) → Run (SkipList V) (Prog A) → Type 0
  Outcome Q (ok p t) = Inv t × Safe Q p
  Outcome Q panic = Unit
  Outcome Q fault = ⊥
  Outcome Q abort = ⊥
  Outcome Q out_of_fuel = ⊥

  abbrev pub Before : ℕ → Ptr → Type 0
  Before k p = (p ≡ w.head) ⊎ (w.key p < k)

  -- A predecessor of the key `k` at each level, with a node that may follow it.
  abbrev pub Around : ℕ → Pairs → Type 0
  Around k prev =
      (l : ℕ)
      → l < max_levels
      → Room (prev l).0 l × Before k (prev l).0 × Leads (prev l).0 l (prev l).1

  abbrev pub Holds : ℕ → Option Ptr → Type 0
  Holds k none = Unit
  Holds k (some p) = IsEntry 0 p × (w.key p ≡ k)

  abbrev pub Above : ℕ → Ptr → Type 0
  Above k q = (q ≡ null) ⊎ (k ≤ w.key q)

  -- On the lowest level the second node does not have a smaller key.
  abbrev pub Between : ℕ → Pairs → Type 0
  Between k prev = Around k prev × Above k (prev 0).1

  abbrev pub Found : ℕ → SearchResult → Type 0
  Found k at = Between k at.prev × Holds k at.target
