-- ===== src/Cells.antt =====
-- What a list stands for: its nodes in order. `IsList` says that the memory holds exactly these
-- nodes, at every level: the tower of each node points at the next node that is tall enough.
pub mod Levels
pub mod Frame
pub mod Insert
pub mod Entries
pub mod Erase
use skippy_rs.Base.{
  ℕ, ◌+◌, ◌*◌, ◌≡◌, ◌≢◌, ◌≤◌, ◌<◌, Bool, true, false, none, some, List, [], ◌∷◌, Option, ltb, ◌==◌,
  if◌then◌else◌, length,
}
use skippy_rs.Node.{max_levels, one_ref}
use skippy_rs.Store.{Ptr, null, Link, link_to, SkipList}

pub record Cell (V : Type 0) : Type 0 where
  pub addr : Ptr
  pub height : ℕ
  pub key : ℕ
  pub val : V

module _ {V : Type 0} where
  -- the first node that reaches level `l`
  abbrev pub next_at : ℕ → List (Cell V) → Ptr
  next_at l [] = null
  next_at l (c ∷ xs) = if ltb l c.height then c.addr else next_at l xs

  -- the last node that reaches level `l` among those with a smaller key, or `p`
  abbrev pub pred_at : ℕ → ℕ → Ptr → List (Cell V) → Ptr
  pred_at l k p [] = p
  pred_at l k p (c ∷ xs) =
      if ltb c.key k then pred_at l k (if ltb l c.height then c.addr else p) xs else p

  -- the first node that reaches level `l` among those without a smaller key
  abbrev pub succ_at : ℕ → ℕ → List (Cell V) → Ptr
  succ_at l k [] = null
  succ_at l k (c ∷ xs) = if ltb c.key k then succ_at l k xs else next_at l (c ∷ xs)

  -- the node with the key
  abbrev pub target_at : ℕ → List (Cell V) → Option Ptr
  target_at k [] = none
  target_at k (c ∷ xs) =
      if ltb c.key k then target_at k xs else if c.key == k then some c.addr else none

  abbrev pub All : (Cell V → Type 0) → List (Cell V) → Type 0
  All P [] = Unit
  All P (c ∷ xs) = P c × All P xs

  -- no node is at `p`
  abbrev pub NotIn : Ptr → List (Cell V) → Type 0
  NotIn p = All (λ c. p ≢ c.addr)

  -- all keys are larger
  abbrev pub Above : ℕ → List (Cell V) → Type 0
  Above k = All (λ c. k < c.key)

  -- no node has more than `n` levels
  abbrev pub Low : ℕ → List (Cell V) → Type 0
  Low n = All (λ c. c.height ≤ n)

  -- The `n` levels of the node at `p` lead into `xs`, untagged.
  abbrev pub Tower : SkipList V → Ptr → ℕ → List (Cell V) → Type 0
  Tower s p n xs = (l : ℕ) → l < n → s.link p l ≡ link_to (next_at l xs) 0

  -- The fields of the node `c`; each of its levels counts as one reference.
  pub record IsNode (s : SkipList V) (c : Cell V) : Type 0 where
    pub ne_null : c.addr ≢ null
    pub live : s.live c.addr ≡ true
    pub key : s.key c.addr ≡ some c.key
    pub val : s.val c.addr ≡ some c.val
    pub header : s.header c.addr ≡ c.height * one_ref + c.height
    pub tall : 0 < c.height
    pub short : c.height ≤ max_levels

  -- Every node of `xs`, with its links, keys ascending and addresses distinct.
  abbrev pub Nodes : SkipList V → List (Cell V) → Type 0
  Nodes s [] = Unit
  Nodes s (c ∷ xs) =
      IsNode s c × Tower s c.addr c.height xs × NotIn c.addr xs × Above c.key xs × Nodes s xs

  pub record IsList (s : SkipList V) (xs : List (Cell V)) : Type 0 where
    pub head_ne_null : s.head ≢ null
    pub head_live : s.live s.head ≡ true
    pub head_header : s.header s.head ≡ max_levels
    pub head_apart : NotIn s.head xs
    pub head_tower : Tower s s.head max_levels xs
    pub nodes : Nodes s xs
    pub counted : s.len ≡ length xs
    pub low : Low s.max_height xs
    pub some_level : 0 < s.max_height
    pub few_levels : s.max_height ≤ max_levels
