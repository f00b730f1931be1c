-- ===== src/Threads/Alone/Waiting.antt =====
-- A node that is allocated for an `insert` and that no list has yet, and the memory in which it is linked.
use skippy_rs.Base.{
  ℕ, ◌+◌, ◌%◌, ◌≡◌, refl, sym, ◌∙◌, ◌≢◌, ◌<◌, ◌≤◌, arith, List, [], ◌∷◌, true, false, some, none,
  ltb, ◌==◌, ◌&&◌, if◌then◌else◌, eq→test, ne→not_eq,
}
use native.Mathlib.Decide.{ℕ_discrete}
use skippy_rs.Node.{max_levels, usize}
use skippy_rs.Store.{Ptr, null, SkipList, link_to, update}
use skippy_rs.Store.Access.{At, height-small}
use skippy_rs.Cells.{Cell, NotIn}
use skippy_rs.Cells.Frame.{SameAt, Same, Nodes-Same, All-mono}
use skippy_rs.SkipList.Insert.{allocated}
use skippy_rs.Sync.{Pairs}
use skippy_rs.Sync.Clear.{Cleared}
use skippy_rs.Sync.Domain.{Absent, IsShared}

-- The node `c` is allocated with its key, value and height, points nowhere, and is not in the list.
pub record Waiting {V : Type 0} (s : SkipList V) (xs : List (Cell V)) (c : Cell V) : Type 0 where
  pub ne_null : c.addr ≢ null
  pub ne_head : c.addr ≢ s.head
  pub live : s.live c.addr ≡ true
  pub key : s.key c.addr ≡ some c.key
  pub val : s.val c.addr ≡ some c.val
  pub header : s.header c.addr ≡ c.height
  pub link : (l : ℕ) → l < c.height → s.link c.addr l ≡ link_to null 0
  pub tall : 0 < c.height
  pub short : c.height ≤ max_levels
  pub outside : NotIn c.addr xs
  pub unretired : Absent c.addr s.retired

-- What is not the node `c`, nor in the list, nor retired stays as it is.
abbrev pub SparesOthers :
    {V : Type 0} → SkipList V → List (Cell V) → Cell V → SkipList V → List (Cell V) → Type 0
SparesOthers s xs c s' ys =
    (b : Ptr)
    → b ≢ c.addr
    → b ≢ s.head
    → NotIn b xs
    → Absent b s.retired
    → SameAt s s' b × Absent b s'.retired × NotIn b ys

module _ {V : Type 0} where
  pub SameAt-trans : {s t u : SkipList V} {b : Ptr} → SameAt s t b → SameAt t u b → SameAt s u b
  SameAt-trans e f = record {
    live = f.live ∙ e.live;
    key = f.key ∙ e.key;
    val = f.val ∙ e.val;
    header = f.header ∙ e.header;
    link = λ l lt. f.link l lt ∙ e.link l lt;
  }

module _ {V : Type 0} {s : SkipList V} {xs : List (Cell V)} {c : Cell V} (w : Waiting s xs c) where
  -- It waits on where it is as it was.
  pub Waiting-SameAt :
      {s' : SkipList V} {ys : List (Cell V)}
      → SameAt s s' c.addr
      → Absent c.addr s'.retired
      → NotIn c.addr ys
      → s'.head ≡ s.head
      → Waiting s' ys c
  Waiting-SameAt same gone out head = record {
    ne_null = w.ne_null;
    ne_head = λ e. w.ne_head (e ∙ head);
    live = same.live ∙ w.live;
    key = same.key ∙ w.key;
    val = same.val ∙ w.val;
    header = same.header ∙ w.header;
    link = λ l lt. same.link l (omega (arith, w.short)) ∙ w.link l lt;
    tall = w.tall;
    short = w.short;
    outside = out;
    unretired = gone;
  }

  pub Waiting-Cleared :
      {k : ℕ} {s' : SkipList V} {ys : List (Cell V)} {prev : Pairs}
      → Cleared s k xs s' ys prev
      → Waiting s' ys c
  Waiting-Cleared y =
      let (same, gone, out) = y.apart c.addr w.ne_head w.outside w.unretired in
      Waiting-SameAt same gone out y.same_head

  pub Waiting-At : At s c.addr c.height
  Waiting-At = record {
    ne_null = w.ne_null;
    live = w.live;
    header = rw w.header (height-small c.height w.short);
  }

  -- The memory without the node, with room for its levels.
  abbrev pub withdrawn : SkipList V
  withdrawn = record s {
    live = update s.live c.addr false;
    max_height = if ltb s.max_height c.height then c.height else s.max_height;
  }

  pub SameAt-withdrawn :
      {t : SkipList V} (b : Ptr) → b ≢ c.addr → SameAt withdrawn t b → SameAt s t b
  SameAt-withdrawn b ne same = record {
    live = same.live ∙ (rw (ne→not_eq ne) refl);
    key = same.key;
    val = same.val;
    header = same.header;
    link = same.link;
  }

  withdrawn-Same : (ys : List (Cell V)) → NotIn c.addr ys → Same s withdrawn ys
  withdrawn-Same [] out = tt
  withdrawn-Same (d ∷ ys) out = (
    record {
      live = rw (ne→not_eq {a = d.addr} {b = c.addr} (λ e. out.0 (sym e))) refl;
      key = refl;
      val = refl;
      header = refl;
      link = λ l lt. refl;
    },
    withdrawn-Same ys out.1,
  )

  pub withdrawn-IsShared : IsShared s xs → IsShared withdrawn xs
  withdrawn-IsShared sh =
      let is = sh.list in
      record {
        list = record {
          head_ne_null = is.head_ne_null;
          head_live =
              rw (ne→not_eq {a = s.head} {b = c.addr} (λ e. w.ne_head (sym e))) is.head_live;
          head_header = is.head_header;
          head_apart = is.head_apart;
          head_tower = is.head_tower;
          nodes = Nodes-Same s withdrawn xs (withdrawn-Same xs w.outside) is.nodes;
          counted = is.counted;
          low = All-mono (λ d low. ground arith) xs is.low;
          some_level = ground (arith, is.some_level);
          few_levels = ground (arith, is.few_levels, w.short);
        };
        head_linked = sh.head_linked;
        nodes_linked = sh.nodes_linked;
        retired_live = λ a dead. elim (ℕ_discrete a c.addr) [
          | yes e ↦ rw e w.unretired
          | no ne ↦ sh.retired_live a (rw (ne→not_eq ne) at dead)
        ];
      }

  -- The memory in which the node is linked: the greatest height and the length are up to date.
  abbrev pub raised : SkipList V
  raised = record s {
    max_height = if ltb s.max_height c.height then c.height else s.max_height;
    len = (s.len + 1) % usize;
  }

  -- It is the memory that allocating the node gives.
  pub raised-allocated : raised ≡ allocated (record withdrawn { len = (s.len + 1) % usize }) c
  raised-allocated = λ i. record raised {
    live = λ a. live_at a i;
    key = λ a. key_at a i;
    val = λ a. val_at a i;
    header = λ a. header_at a i;
    link = λ a l. link_at a l i;
  }
    where
      live_at : (a : Ptr) → s.live a ≡ update (update s.live c.addr false) c.addr true a
      live_at a = elim (ℕ_discrete a c.addr) [
        | yes e ↦ rw (eq→test e, e) w.live
        | no ne ↦ rw (ne→not_eq ne) refl
      ]

      key_at : (a : Ptr) → s.key a ≡ update (update s.key c.addr none) c.addr (some c.key) a
      key_at a = elim (ℕ_discrete a c.addr) [
        | yes e ↦ rw (eq→test e, e) w.key
        | no ne ↦ rw (ne→not_eq ne) refl
      ]

      val_at : (a : Ptr) → s.val a ≡ update (update s.val c.addr none) c.addr (some c.val) a
      val_at a = elim (ℕ_discrete a c.addr) [
        | yes e ↦ rw (eq→test e, e) w.val
        | no ne ↦ rw (ne→not_eq ne) refl
      ]

      header_at : (a : Ptr) → s.header a ≡ update s.header c.addr c.height a
      header_at a = elim (ℕ_discrete a c.addr) [
        | yes e ↦ rw (eq→test e, e) w.header
        | no ne ↦ rw (ne→not_eq ne) refl
      ]

      link_at :
          (a : Ptr) (l : ℕ)
          → s.link a l ≡ (if (a == c.addr) && ltb l c.height then link_to null 0 else s.link a l)
      link_at a l = elim (ℕ_discrete a c.addr) [
        | yes e ↦ rw e (ground (arith, w.link l))
        | no ne ↦ rw (ne→not_eq ne) refl
      ]
