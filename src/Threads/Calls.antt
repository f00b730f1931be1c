-- ===== src/Threads/Calls.antt =====
-- The calls that threads make of one list, and the memory in which they are safe.
use skippy_rs.Base.{
  arith, ℕ, ◌≡◌, refl, sym, ◌∙◌, ◌≢◌, ◌<◌, ◌≤◌, ◌⊎◌, inl, inr, true, Option, none, some,
}
use native.Mathlib.Decide.{ℕ_discrete}
use skippy_rs.Node.{usize, max_levels, height}
use skippy_rs.Store.{Ptr, null, SkipList}
use skippy_rs.Threads.{Prog, System}
use skippy_rs.Threads.Methods.{remove, get, entry_remove}
use skippy_rs.Threads.Insert.{insert}
use skippy_rs.Threads.Safe.{World, InOrder, Holds, Safe, Inv}
use skippy_rs.Threads.Removing.{remove_alone-Safe, get_alone-Safe, entry_remove-Safe}
use skippy_rs.Threads.Inserting.{insert_alone-Safe}

-- A call of a thread; `insert` names the node that was allocated for it, `take` is `Entry::remove`.
pub data Call : Type 0 where
  insert_at : (new : Ptr) → ℕ → Call
  remove_key get_key : ℕ → Call
  take : Ptr → ℕ → Call

unfoldable pub asked : Call → ℕ
asked (insert_at new k) = k
asked (remove_key k) = k
asked (get_key k) = k
asked (take p k) = k

unfoldable pub program : ℕ → (head : Ptr) → Call → Prog (Option Ptr)
program f head (insert_at new k) = insert f head new k
program f head (remove_key k) = remove f head k
program f head (get_key k) = get f head k
program f head (take p k) = entry_remove f p

abbrev key_or_zero : Option ℕ → ℕ
key_or_zero none = 0
key_or_zero (some k) = k

some_same : {j k : ℕ} → some j ≡ some k → j ≡ k
some_same e = cc

module _ {V : Type 0} where
  -- Thread `i` is at the start of the call `calls i`.
  abbrev pub start : ℕ → SkipList V → (ℕ → Call) → System V (Option Ptr)
  start f s calls = record { store = s; pc = λ i. program f s.head (calls i) }

  -- A node that is not the head and has the key.
  abbrev pub IsNode : SkipList V → ℕ → Ptr → Type 0
  IsNode s k p = (s.live p ≡ true) × (p ≢ s.head) × (s.key p ≡ some k)

  -- The keys do not descend from `p`, if it is not the head, to `q`.
  abbrev pub Ascends : SkipList V → Ptr → Ptr → Type 0
  Ascends s p q = (p ≡ s.head) ⊎ ((j k : ℕ) → s.key p ≡ some j → s.key q ≡ some k → j ≤ k)

  -- A link of level `l` of `p` leads to null, or to a node that has the level; on the lowest level the keys do
  -- not descend.
  abbrev pub Onward : SkipList V → Ptr → ℕ → Ptr → Type 0
  Onward s p l q =
      (q ≡ null)
      ⊎ ((s.live q ≡ true) × (l < height (s.header q)) × (q ≢ s.head) × (l ≡ 0 → Ascends s p q))

  -- Each node has a key and a height that is allowed, and its links lead to nodes or to null.
  pub record Towers (s : SkipList V) : Type 0 where
    pub head_live : s.live s.head ≡ true
    pub head_height : height (s.header s.head) ≡ max_levels
    pub some_key : (p : Ptr) → s.live p ≡ true → p ≢ s.head → (k : ℕ) × (s.key p ≡ some k)
    pub ne_null : (p : Ptr) → s.live p ≡ true → p ≢ null
    pub heights :
        (p : Ptr)
        → s.live p ≡ true
        → (0 < height (s.header p)) × (height (s.header p) ≤ max_levels) × (s.header p < usize)
    pub links :
        (p : Ptr) (l : ℕ)
        → s.live p ≡ true
        → l < height (s.header p)
        → Onward s p l (s.link p l).ptr
    pub max_level : (0 < s.max_height) × (s.max_height ≤ max_levels)

  -- The nodes that calls name are there.
  abbrev pub Fits : SkipList V → Call → Type 0
  Fits s (insert_at new k) = IsNode s k new
  Fits s (remove_key k) = Unit
  Fits s (get_key k) = Unit
  Fits s (take p k) = IsNode s k p

  -- The nodes of a memory.
  abbrev pub world : (s : SkipList V) → Towers s → World
  world s towers = record {
    head = s.head;
    known = s.live;
    tall = λ p. height (s.header p);
    key = λ p. key_or_zero (s.key p);
    head_known = towers.head_live;
    head_tall = towers.head_height;
    some_level = λ p live. (towers.heights p live).0;
    few_levels = λ p live. (towers.heights p live).1;
    ne_null = towers.ne_null;
  }

module _ {V : Type 0} {s : SkipList V} (towers : Towers s) where
  IsNode-Holds : {k : ℕ} {p : Ptr} → IsNode s k p → Holds (world s towers) k (some p)
  IsNode-Holds node = (((node.0, (towers.heights _ node.0).0), node.1), rw node.2 refl)

  pub program-Safe :
      (f : ℕ) (c : Call)
      → Fits s c
      → Safe (world s towers) (Holds (world s towers) (asked c)) (program f s.head c)
  unfolding program asked
  program-Safe f (insert_at new k) fits =
      insert_alone-Safe (world s towers) f k new (IsNode-Holds fits)
  program-Safe f (remove_key k) fits = remove_alone-Safe (world s towers) f k
  program-Safe f (get_key k) fits = get_alone-Safe (world s towers) f k
  program-Safe f (take p k) fits = entry_remove-Safe (world s towers) f k p (IsNode-Holds fits)

  world-order :
      (p q : Ptr)
      → s.live p ≡ true
      → s.live q ≡ true
      → q ≢ s.head
      → Ascends s p q
      → InOrder (world s towers) p q
  world-order p q live_p live_q ne (inl e) = inl e
  world-order p q live_p live_q ne (inr le) = elim (ℕ_discrete p s.head) [
    | yes e ↦ inl e
    | no other ↦
        let (j, ej) = towers.some_key p live_p other in
        let (k, ek) = towers.some_key q live_q ne in inr (rw (ej, ek) (le j k ej ek))
  ]

  pub world-Inv : Inv (world s towers) s
  world-Inv = record {
    head_is = refl;
    live_is = λ p. refl;
    at = λ p live. record { ne_null = towers.ne_null p live; live = live; header = refl };
    small = λ p live. (towers.heights p live).2;
    keyed = λ p live ne.
        let k : (k : ℕ) × (s.key p ≡ some k) = towers.some_key p live ne in rw k.1 refl;
    links = λ p l room. elim (towers.links p l room.0 room.1) [
      | inl e ↦ inl e
      | inr node ↦
          inr (((node.0, node.1), node.2), λ z. world-order p _ room.0 node.0 node.2 (node.3 z))
    ];
    max_pos = towers.max_level.0;
    max_le = towers.max_level.1;
  }

  order-Ascends :
      (t : SkipList V)
      → Inv (world s towers) t
      → (p q : Ptr) → s.live p ≡ true
      → s.live q ≡ true
      → q ≢ s.head
      → InOrder (world s towers) p q
      → Ascends t p q
  order-Ascends t inv p q live_p live_q ne (inl e) = inl (e ∙ sym inv.head_is)
  order-Ascends t inv p q live_p live_q ne (inr le) = elim (ℕ_discrete p s.head) [
    | yes e ↦ inl (e ∙ sym inv.head_is)
    | no other ↦ inr (λ j k ej ek.
        let of_p : key_or_zero (s.key p) ≡ j = some_same (sym (inv.keyed p live_p other) ∙ ej) in
        let of_q : key_or_zero (s.key q) ≡ k = some_same (sym (inv.keyed q live_q ne) ∙ ek) in
        omega (arith, of_p, of_q, le))
  ]

  pub Inv-Towers : (t : SkipList V) → Inv (world s towers) t → Towers t
  Inv-Towers t inv =
      let live : (p : Ptr) → t.live p ≡ true → s.live p ≡ true = λ p e. sym (inv.live_is p) ∙ e in
      let tall : (p : Ptr) → s.live p ≡ true → height (t.header p) ≡ height (s.header p) =
        λ p e. (inv.at p e).header in
      record {
        head_live = rw inv.head_is (inv.live_is s.head ∙ towers.head_live);
        head_height = rw inv.head_is (tall s.head towers.head_live ∙ towers.head_height);
        some_key = λ p e ne. (_, inv.keyed p (live p e) (λ h. ne (h ∙ sym inv.head_is)));
        ne_null = λ p e. (inv.at p (live p e)).ne_null;
        heights = λ p e.
            let h : (0 < height (s.header p))
                × (height (s.header p) ≤ max_levels)
                × (s.header p < usize) =
              towers.heights p (live p e) in
            (rw (tall p (live p e)) h.0, rw (tall p (live p e)) h.1, inv.small p (live p e));
        links = λ p l e lt. elim (inv.links p l (live p e, rw (← tall p (live p e)) lt)) [
          | inl z ↦ inl z
          | inr entry ↦ inr (
            inv.live_is _ ∙ entry.0.0.0,
            rw (tall _ entry.0.0.0) entry.0.0.1,
            λ h. entry.0.1 (h ∙ inv.head_is),
            λ z. order-Ascends t inv p _ (live p e) entry.0.0.0 entry.0.1 (entry.1 z),
          )
        ];
        max_level = (inv.max_pos, inv.max_le);
      }
