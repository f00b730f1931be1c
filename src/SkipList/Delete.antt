-- ===== src/SkipList/Delete.antt =====
-- `remove` and `remove_first` of src/internal/skiplist.rs against the ordered map.
use native.Mathlib.Nat.{min-eq_right}
use skippy_rs.Base.{
  ℕ, ◌+◌, ◌-◌, ◌%◌, ◌≡◌, refl, sym, ◌∙◌, ◌≢◌, ◌<◌, arith, List, [], ◌∷◌, Option, none, some, false,
  Bool, Bool-cases, ok, length, ltb, leb, ◌==◌, ◌&&◌, if◌then◌else◌, Option-cases, inl, inr,
  ne→not_eq, le→not_ltb,
}
use skippy_rs.Node.{max_levels, usize}
use skippy_rs.Store.{Ptr, Link, SkipList, link_to, update}
use skippy_rs.Store.Access.{At, At-links, load_height-ok, load_key-ok, load_val-ok, dealloc-ok}
use skippy_rs.Basics.{is_empty}
use skippy_rs.Cells.{Cell, pred_at, target_at, All, NotIn, Tower, Nodes, IsList}
use skippy_rs.Cells.Entries.{target-ne, lookup-none}
use skippy_rs.Cells.Erase.{
  after, erase, All-erase, length-erase, entries-erase, next_at-erase, Target, target_at-Target,
  Unlinked, Nodes-erase,
}
use skippy_rs.Spec.{Entries, entries, lookup, delete, with_key}
use skippy_rs.SkipList.{Prevs, unlink, remove_found, remove_at, internal_remove, remove}
use skippy_rs.SkipList.Find.{IsNode-At, head-At, find-IsFound}
use skippy_rs.SkipList.Insert.{pred_at-At}
use skippy_rs.SkipList.Unlink.{unlink_loop-Bridged}

-- A predecessor of the key is not the node that has it.
pub pred_at-target :
    {V : Type 0} (s : SkipList V) (l k : ℕ) (p : Ptr) {a : Ptr} (xs : List (Cell V))
    → Nodes s xs
    → NotIn p xs
    → target_at k xs ≡ some a
    → ¬ (pred_at l k p xs ≡ a)
pred_at-target s l k p [] n out e = cc
pred_at-target s l k p {a} (c ∷ xs) n out e = ground (
  arith,
  out.0,
  pred_at-target s l k p {a = a} xs n.4 out.1,
  pred_at-target s l k c.addr {a = a} xs n.4 n.2,
)

module _ {V : Type 0} {s : SkipList V} {xs : List (Cell V)} (is : IsList s xs) (k : ℕ) {a : Ptr}
    (present : target_at k xs ≡ some a) (prev : Prevs)
    (found : (l : ℕ) → l < max_levels → prev l ≡ pred_at l k s.head xs) (t : Target s k a xs) where
  -- The list `s'` after the node of the key is taken out of the list of `xs`.
  pub Unlinked-IsList :
      {s' : SkipList V}
      → Unlinked s s' t.cell prev
      → s'.head ≡ s.head
      → s'.len ≡ length (erase k xs)
      → s'.max_height ≡ s.max_height
      → IsList s' (erase k xs)
  Unlinked-IsList u same_head counted same_max =
      let head_ne : s.head ≢ t.cell.addr = rw t.here (target-ne k xs is.head_apart present) in
      let present' : target_at t.cell.key xs ≡ some t.cell.addr = rw (t.key, t.here) present in
      let tower : Tower s t.cell.addr t.cell.height (after t.cell.key xs) =
        rw (t.key, t.here) t.tower in
      let only : All (λ c. c.key ≡ t.cell.key → c.height ≡ t.cell.height) xs = rw t.key t.only in
      let found' : (l : ℕ) → l < max_levels → prev l ≡ pred_at l t.cell.key s.head xs =
        rw t.key found in
      record {
        head_ne_null = rw same_head is.head_ne_null;
        head_live = rw same_head (u.live s.head head_ne ∙ is.head_live);
        head_header = rw same_head (u.header s.head head_ne ∙ is.head_header);
        head_apart = rw same_head (All-erase _ k xs is.head_apart);
        head_tower = λ l lt. ground (
          arith,
          same_head,
          u.link s.head l head_ne lt,
          tower l,
          found' l lt,
          is.head_tower l lt,
          next_at-erase t.cell.key l s.head t.cell xs is.head_apart present' only,
          t.key,
        );
        nodes = rw t.key at (
            Nodes-erase t.cell prev u (λ _. s.head) xs is.nodes (λ _. is.head_apart) found' present'
              tower only);
        counted = counted;
        low = rw same_max (All-erase _ k xs is.low);
        some_level = rw same_max is.some_level;
        few_levels = rw same_max is.few_levels;
      }

module _ {V : Type 0} {s : SkipList V} {xs : List (Cell V)} (is : IsList s xs) (k : ℕ) {a : Ptr}
    (present : target_at k xs ≡ some a) (few : length xs < usize) (prev : Prevs)
    (found : (l : ℕ) → l < max_levels → prev l ≡ pred_at l k s.head xs) where
  pub counted_down : (s.len + usize - 1) % usize ≡ length (erase k xs)
  counted_down = ground (arith, is.counted, length-erase k xs present)

  abbrev erased : (Ptr → ℕ → Link) → SkipList V
  erased links = record s {
    live = update s.live a false;
    link = links;
    len = (s.len + usize - 1) % usize;
  }

  erased-IsList :
      (t : Target s k a xs) (links : Ptr → ℕ → Link)
      → ((b : Ptr) (l : ℕ)
          → links b l ≡ (
              if (leb 0 l && ltb l t.cell.height) && (b == prev l)
              then link_to (s.link a l).ptr 0
              else s.link b l))
      → IsList (erased links) (erase k xs)
  erased-IsList t links bridged =
      let u : Unlinked s (erased links) t.cell prev = record {
        live = λ b ne. ground (arith, t.here);
        key = λ b ne. refl;
        val = λ b ne. refl;
        header = λ b ne. refl;
        link = λ b l ne lt. ground (arith, bridged b l, t.here);
      } in
      Unlinked-IsList is k present prev found t u refl counted_down refl

  remove_found-delete :
      (s' : SkipList V) × (remove_found a prev s ≡ ok (with_key k (lookup k (entries xs))) s')
      × IsList s' (erase k xs)
      × (s'.live ≡ update s.live a false)
  unfolding remove_found unlink
  remove_found-delete =
      let t = target_at-Target s k xs is.nodes present in
      let at : At s a t.cell.height = rw t.here at (IsNode-At t.node) in
      let has_key : s.key a ≡ some k = rw (t.here, t.key) at t.node.key in
      let has_val : s.val a ≡ some t.cell.val = rw t.here at t.node.val in
      let apart : a ≢ s.head = λ e. target-ne k xs is.head_apart present (sym e) in
      let r =
        unlink_loop-Bridged a prev t.cell.height
          (λ l lt.
            rw (found l (omega (arith, t.node.short)))
              (pred_at-target s l k s.head xs is.nodes is.head_apart present))
          t.cell.height 0 s (omega arith) at
          (λ l ge lt.
            rw (found l (omega (arith, t.node.short)))
              (pred_at-At s l k xs is.nodes (head-At is) (omega (arith, t.node.short)))) in
      (
        erased r.links,
        rw (
          load_key-ok at has_key,
          load_val-ok at has_val,
          ne→not_eq apart,
          load_height-ok at,
          min-eq_right t.node.short,
          r.returns,
          dealloc-ok (At-links at r.links) t.node.tall t.node.short,
          t.got,
        ),
        erased-IsList t r.links (λ b l. r.bridged b l),
        refl,
      )

abbrev pub is_target : Ptr → Option Ptr → Bool
is_target b none = false
is_target b (some a) = b == a

pub delete-absent : {V : Type 0} (k : ℕ) (es : Entries V) → lookup k es ≡ none → delete k es ≡ es
unfolding lookup delete
delete-absent k [] e = refl
delete-absent k (x ∷ es) e = ground (arith, delete-absent k es)

module _ {V : Type 0} {s : SkipList V} {xs : List (Cell V)} (is : IsList s xs) where
  pub is_empty-ok : is_empty s ≡ ok (ltb (length xs) 1) s
  unfolding is_empty
  is_empty-ok = rw is.counted

module _ {V : Type 0} {s : SkipList V} {xs : List (Cell V)} (is : IsList s xs)
    (few : length xs < usize) where
  -- On a well-formed list with a length below 2^64 `remove` ends, takes the key out of the map and
  -- returns it with its value. It releases the node that had the key and no other memory.
  pub remove-delete :
      (k : ℕ)
      → (s' : SkipList V) × (ys : List (Cell V)) × (remove k s
          ≡ ok (with_key k (lookup k (entries xs))) s')
        × IsList s' ys
        × (entries ys ≡ delete k (entries xs))
        × ((b : Ptr) → s'.live b ≡ (if is_target b (target_at k xs) then false else s.live b))
  unfolding remove internal_remove remove_at
  remove-delete k =
      let (r, run, found) = find-IsFound k is in
      elim (Option-cases (target_at k xs)) [
        | inl absent ↦
            let gone = lookup-none s k xs is.nodes absent in
            (
              s,
              xs,
              absent_run k absent gone,
              is,
              sym (delete-absent k (entries xs) gone),
              λ b. rw absent,
            )
        | inr (a, present) ↦
            let (s', done, is', freed) = remove_found-delete is k present few r.prev found.prevs in
            let some_node = length-erase k xs present in
            (
              s',
              erase k xs,
              rw
                  (
                    is_empty-ok is,
                    le→not_ltb {a = length xs} {b = 1} (omega arith),
                    run,
                    found.target,
                    present,
                  )
                  done,
              is',
              entries-erase k xs,
              λ b. rw (freed, present),
            )
      ]
    where
      absent_run :
          (j : ℕ)
          → target_at j xs ≡ none
          → lookup j (entries xs) ≡ none
          → internal_remove j s ≡ ok (with_key j (lookup j (entries xs))) s
      absent_run j absent gone =
          let (r, run, found) = find-IsFound j is in
          elim (Bool-cases (ltb (length xs) 1)) [
            | inl e ↦ rw (is_empty-ok is, e, gone)
            | inr e ↦ rw (is_empty-ok is, e, run, found.target, absent, gone)
          ]
