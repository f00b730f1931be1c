-- ===== src/Sync/Taken.antt =====
-- How a node leaves the list of src/internal/sync/mod.rs: it is marked, its levels are tagged, `unlink`
-- takes it out and retires it, and the domain may free what is retired.
use skippy_rs.Base.{
  ℕ, ◌+◌, ◌-◌, ◌%◌, ◌≡◌, refl, sym, ◌∙◌, ◌≢◌, ◌<◌, arith, List, [], ◌∷◌, some, false, ok, length,
  ne→not_eq, eq_self, lt→ltb, eq→test, ◌==◌, ◌&&◌, ltb, if◌then◌else◌,
}
use native.Mathlib.Decide.{dec_lt}
use native.Mathlib.Nat.{min-eq_right}
use skippy_rs.Node.{max_levels, usize, right, set_removed}
use skippy_rs.Node.Header.{word}
use skippy_rs.Store.{Ptr, Link, SkipList, link_to, on_header}
use skippy_rs.Store.Access.{At}
use skippy_rs.Removal.{tag_levels}
use skippy_rs.Removal.Marks.{tagged, marked, flagged-At, set_removed-flagged, tag_levels-tagged}
use skippy_rs.Cells.{Cell, pred_at, succ_at, target_at, All, NotIn, Nodes}
use skippy_rs.Cells.Frame.{SameAt}
use skippy_rs.Cells.Entries.{target-ne}
use skippy_rs.Cells.Erase.{erase, All-erase, Target, Unlinked}
use skippy_rs.SkipList.Find.{IsNode-At, head-At}
use skippy_rs.SkipList.Insert.{pred_at-At}
use skippy_rs.SkipList.Delete.{pred_at-target, Unlinked-IsList, counted_down}
use skippy_rs.Sync.{Pairs}
use skippy_rs.Sync.Domain.{Absent, Domain, IsShared, freed-IsShared}
use skippy_rs.Sync.Find.{pred_at-succ_at}
use skippy_rs.Sync.Link.{before}
use skippy_rs.Sync.Unlink.{Joined, unlink_levels-parted}
use skippy_rs.Sync.Update.{unlink}

module _ {V : Type 0} where
  -- The node with the key is its successor at each of its levels.
  succ_at-target :
      (l k h : ℕ) {a : Ptr} (xs : List (Cell V))
      → target_at k xs ≡ some a
      → All (λ c. c.key ≡ k → c.height ≡ h) xs
      → l < h
      → succ_at l k xs ≡ a
  succ_at-target l k h [] e only lt = absurd cc
  succ_at-target l k h {a} (c ∷ xs) e only lt =
      ground (arith, only.0, succ_at-target l k h {a = a} xs)

  Absent-cons :
      (a : Ptr) (r : List Ptr) (xs : List (Cell V))
      → NotIn a xs
      → All (λ c. Absent c.addr r) xs
      → All (λ c. Absent c.addr (a ∷ r)) xs
  Absent-cons a r [] out all = tt
  Absent-cons a r (c ∷ xs) out all = (((λ e. out.0 (sym e)), all.0), Absent-cons a r xs out.1 all.1)

  NotIn-erase :
      (s : SkipList V) (k : ℕ) {a : Ptr} (xs : List (Cell V))
      → Nodes s xs
      → target_at k xs ≡ some a
      → NotIn a (erase k xs)
  NotIn-erase s k [] n e = tt
  NotIn-erase s k {a} (c ∷ xs) n e = elim (dec_lt c.key k) [
    | yes lt ↦
        let other : (c.key == k) ≡ false = ground arith in
        let present : target_at k xs ≡ some a = rw (lt→ltb lt) at e in
        rw other ((λ eq. target-ne k xs n.2 present (sym eq)), NotIn-erase s k xs n.4 present)
    | no ge ↦
        let eq : c.key ≡ k = ground arith in
        let here : c.addr ≡ a = ground arith in rw (eq→test eq) (rw here at n.2)
  ]

-- What is neither in the list nor retired stays as it is.
abbrev pub Spares : {V : Type 0} → SkipList V → List (Cell V) → SkipList V → List (Cell V) → Type 0
Spares s xs s' ys =
    (b : Ptr)
    → b ≢ s.head
    → NotIn b xs
    → Absent b s.retired
    → SameAt s s' b × Absent b s'.retired × NotIn b ys

-- A node of a well-formed list, with the predecessors that a search found.
module _ {V : Type 0} {s : SkipList V} {xs : List (Cell V)} (sh : IsShared s xs) (k : ℕ) {a : Ptr}
    (present : target_at k xs ≡ some a) (few : length xs < usize) (prev : Pairs)
    (found : (l : ℕ) → l < max_levels → prev l ≡ (pred_at l k s.head xs, succ_at l k xs))
    (t : Target s k a xs) where
  abbrev levels : ℕ
  levels = t.cell.height

  pub target-At : At s a levels
  target-At = rw t.here at (IsNode-At t.node)

  pub packed : s.header a ≡ word false levels levels
  packed = ground (arith, t.node.header, t.here)

  pub clear : (m : ℕ) → m < levels → (s.link a m).tag ≡ 0
  clear m lt = rw (t.tower m lt)

  abbrev pub flagged : (Ptr → ℕ → Link) → SkipList V
  flagged f =
      marked {s = s} target-At t.node.tall (omega (arith, t.node.short)) levels
        (omega (arith, t.node.short)) clear f

  pub flagged-At_self : (f : Ptr → ℕ → Link) → At (flagged f) a levels
  flagged-At_self f =
      flagged-At {s = s} target-At t.node.tall (omega (arith, t.node.short)) levels
        (omega (arith, t.node.short)) clear f

  flagged-At_away : (f : Ptr → ℕ → Link) (p m : ℕ) → p ≢ a → At s p m → At (flagged f) p m
  flagged-At_away f p m ne at = record {
    ne_null = at.ne_null;
    live = at.live;
    header = rw (ne→not_eq ne) at.header;
  }

  prev-apart : (l : ℕ) → l < max_levels → (prev l).0 ≢ a
  prev-apart l lt =
      rw (found l lt) (pred_at-target s l k s.head xs sh.list.nodes sh.list.head_apart present)

  flagged-Joined :
      (f : Ptr → ℕ → Link)
      → ((b : Ptr) (m : ℕ) → f b m ≡ tagged s.link a levels 1 b m)
      → Joined a prev levels t.node.short (flagged f) levels
  flagged-Joined f marks l lt =
      let room : l < max_levels = omega (arith, t.node.short) in
      let apart = prev-apart l room in
      let (m, at, tall) = pred_at-At s l k xs sh.list.nodes (head-At sh.list) room in
      let leads : s.link (prev l).0 l ≡ link_to a 0 = rw (found l room) (
        pred_at-succ_at s l k s.head xs sh.list.nodes (sh.list.head_tower l room)
        ∙ (rw (succ_at-target l k levels xs present t.only lt))) in
      (
        (m, flagged-At_away f (prev l).0 m apart (rw (found l room) at), tall),
        apart,
        marks (prev l).0 l ∙ (rw (ne→not_eq apart) leads),
      )

  -- The list after the node is unlinked, before anything is freed.
  abbrev parted : (Ptr → ℕ → Link) → (Ptr → ℕ) → SkipList V
  parted g hd = record s {
    link = g;
    header = hd;
    len = (s.len + usize - 1) % usize;
    retired = a ∷ s.retired;
  }

  parted-IsShared :
      (g : Ptr → ℕ → Link) (hd : Ptr → ℕ)
      → ((b : Ptr) → b ≢ a → hd b ≡ s.header b)
      → ((b : Ptr) (l : ℕ)
          → b ≢ a
          → g b l ≡ (
              if ltb l levels && (b == (prev l).0) then link_to (s.link a l).ptr 0 else s.link b l))
      → IsShared (parted g hd) (erase k xs)
  parted-IsShared g hd headers links =
      let u : Unlinked s (parted g hd) t.cell (before prev) = record {
        live = λ b ne. refl;
        key = λ b ne. refl;
        val = λ b ne. refl;
        header = λ b ne. headers b (rw t.here at ne);
        link = λ b l ne lt. ground (arith, links b l (rw t.here at ne), t.here);
      } in
      record {
        list =
            Unlinked-IsList sh.list k present (before prev) (λ l lt. rw (before, found l lt)) t u
              refl
              (counted_down sh.list k present few (before prev) (λ l lt. rw (before, found l lt)))
              refl;
        head_linked = (target-ne k xs sh.list.head_apart present, sh.head_linked);
        nodes_linked =
            Absent-cons a s.retired (erase k xs) (NotIn-erase s k xs sh.list.nodes present)
              (All-erase _ k xs sh.nodes_linked);
        retired_live = λ b dead. ((λ e. ground (arith, target-At.live)), sh.retired_live b dead);
      }

  -- `unlink` of the node once it is marked and tagged.
  pub unlink-IsShared :
      (d : Domain V) (f : Ptr → ℕ → Link)
      → ((b : Ptr) (m : ℕ) → f b m ≡ tagged s.link a levels 1 b m)
      → (s' : SkipList V) × (unlink d.eager_reclaim a levels prev (flagged f) ≡ ok (right tt) s')
        × IsShared s' (erase k xs)
        × (s'.head ≡ s.head)
        × ((b : Ptr) → s.live b ≡ false → s'.live b ≡ false)
        × (s'.max_height ≡ s.max_height)
        × ((b : Ptr)
            → b ≢ a
            → ((l : ℕ) → l < max_levels → b ≢ (prev l).0)
            → Absent b s.retired
            → SameAt s s' b × Absent b s'.retired)
  unfolding unlink
  unlink-IsShared d f marks =
      let (g, hd, run, headers, links) =
        unlink_levels-parted a prev levels t.node.short levels (flagged f) (flagged-At_self f)
          (omega arith) (rw (eq_self a)) (flagged-Joined f marks) in
      let sh' =
        parted-IsShared g hd (λ b ne. headers b ne ∙ (rw (ne→not_eq ne)))
          (λ b l ne. ground (arith, links b l, marks a l, marks b l)) in
      let (live, r, freed, reclaimed) = d.reclaims (parted g hd) in
      (
        record (parted g hd) { live = live; retired = r },
        rw (
          ne→not_eq {a = a} {b = s.head} (λ e. target-ne k xs sh.list.head_apart present (sym e)),
          min-eq_right t.node.short,
          run,
          ne→not_eq {a = levels} {b = 0} (omega (arith, t.node.tall)),
          freed,
        ),
        freed-IsShared sh' reclaimed,
        refl,
        λ b dead. reclaimed.only_frees b dead,
        refl,
        λ b ne off out. (
          record {
            live = reclaimed.kept b (ne, out);
            key = refl;
            val = refl;
            header = headers b ne ∙ (rw (ne→not_eq ne));
            link = λ l lt. ground (arith, links b l, marks b l, off l lt);
          },
          reclaimed.left b (ne, out),
        ),
      )

  -- The flag and the tags that go before `unlink`.
  pub marking :
      (f : Ptr → ℕ → Link) × (on_header a set_removed s
        ≡ ok (right (word false levels levels)) (flagged s.link))
      × (tag_levels a 1 (flagged s.link) ≡ ok (right (levels - 1)) (flagged f))
      × ((b : Ptr) (m : ℕ) → f b m ≡ tagged s.link a levels 1 b m)
  marking =
      let (f, run, marks) =
        tag_levels-tagged {s = flagged s.link} 1 (flagged-At_self s.link) t.node.tall
          (omega (arith, t.node.short)) clear in
      (
        f,
        set_removed-flagged {s = s} target-At t.node.tall (omega (arith, t.node.short)) levels
            (omega (arith, t.node.short)) clear packed,
        run,
        marks,
      )
