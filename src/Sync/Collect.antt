-- ===== src/Sync/Collect.antt =====
-- `from_iter` of src/internal/sync/iter.rs: a new list takes one pair after the other.
use skippy_rs.Base.{
  ℕ, ◌+◌, ◌≡◌, refl, ◌∙◌, ◌≢◌, ◌<◌, arith, List, [], ◌∷◌, false, ok, length, ap, sym,
}
use skippy_rs.Node.{usize}
use native.Mathlib.Decide.{ℕ_discrete}
use skippy_rs.Store.{Ptr, null, SkipList}
use skippy_rs.Basics.{new}
use skippy_rs.Basics.Drop.{new-IsList}
use skippy_rs.Cells.{Cell}
use skippy_rs.Spec.{Entries, entries, put}
use skippy_rs.Sync.Domain.{Absent, Domain, IsShared}
use skippy_rs.Sync.Put.{insert_alone-put}
use skippy_rs.Sync.Walk.{insert_all, from_iter}

module _ {V : Type 0} where
  abbrev pub puts : List (Ptr × ℕ × V) → Entries V → Entries V
  puts [] es = es
  puts ((fresh, k, v) ∷ rest) es = puts rest (put k v es)

  abbrev pub NotAmong : Ptr → List (Ptr × ℕ × V) → Type 0
  NotAmong p [] = Unit
  NotAmong p ((fresh, k, v) ∷ rest) = (p ≢ fresh) × NotAmong p rest

  -- The addresses of the pairs are free and distinct.
  abbrev pub Unused : SkipList V → List (Ptr × ℕ × V) → Type 0
  Unused s [] = Unit
  Unused s ((fresh, k, v) ∷ rest) =
      (fresh ≢ null) × (s.live fresh ≡ false) × NotAmong fresh rest × Unused s rest

  Unused-later :
      (s t : SkipList V) (p : Ptr) (pairs : List (Ptr × ℕ × V))
      → NotAmong p pairs
      → ((b : Ptr) → b ≢ p → s.live b ≡ false → t.live b ≡ false)
      → Unused s pairs
      → Unused t pairs
  Unused-later s t p [] out dead free = tt
  Unused-later s t p ((fresh, k, v) ∷ rest) out dead free = (
    free.0,
    dead fresh (λ e. out.0 (sym e)) free.1,
    free.2,
    Unused-later s t p rest out.1 dead free.3,
  )

  -- A new list is well formed and its head is not retired, where the allocator returns a free address and what
  -- is retired is still allocated.
  pub new-IsShared :
      (fresh seed : ℕ) (s : SkipList V)
      → fresh ≢ null
      → s.live fresh ≡ false
      → ((a : Ptr) → s.live a ≡ false → Absent a s.retired)
      → (t : SkipList V) × (new fresh seed s ≡ ok fresh t)
        × IsShared t []
        × ((b : Ptr) → b ≢ fresh → t.live b ≡ s.live b)
  new-IsShared fresh seed s ne free held =
      let (t, made, is, kept, at, live) = new-IsList fresh seed s ne in
      (
        t,
        made,
        record {
          list = is;
          head_linked = rw (kept, at) (held fresh free);
          nodes_linked = tt;
          retired_live = λ b dead. rw kept (elim (ℕ_discrete b fresh) [
            | yes e ↦ rw e (held fresh free)
            | no ne ↦ held b (sym (live b ne) ∙ dead)
          ]);
        },
        live,
      )

module _ {V : Type 0} (d : Domain V) where
  insert_all-puts :
      (pairs : List (Ptr × ℕ × V)) (s : SkipList V) (xs : List (Cell V))
      → IsShared s xs
      → length xs + length pairs < usize
      → Unused s pairs
      → (s' : SkipList V) × (ys : List (Cell V)) × (insert_all d.eager_reclaim pairs s ≡ ok tt s')
        × IsShared s' ys
        × (entries ys ≡ puts pairs (entries xs))
  unfolding insert_all
  insert_all-puts [] s xs sh room free = (s, xs, refl, sh, refl)
  insert_all-puts ((fresh, k, v) ∷ rest) s xs sh room free =
      let (t, ys, first, sh', same, longer, dead) =
        insert_alone-put d sh fresh k v free.0 free.1 (omega arith) in
      let (s', zs, run, after, all) =
        insert_all-puts rest t ys sh' (omega (arith, longer))
          (Unused-later s t fresh rest free.2 dead free.3) in
      (s', zs, rw first run, after, all ∙ ap (λ m. puts rest m) same)

  -- Given a free address for the head, and free ones for the pairs that are distinct and differ from it, with
  -- fewer than 2^64 pairs and no other thread, where what is retired is still allocated, and whatever the
  -- domain of hazard pointers frees of the nodes that are retired: `from_iter` ends with a well-formed list of
  -- nodes that are not retired, whose map is the pairs put one after the other into the empty map.
  pub from_iter-puts :
      (fresh seed : ℕ) (pairs : List (Ptr × ℕ × V)) (s : SkipList V)
      → fresh ≢ null
      → s.live fresh ≡ false
      → ((a : Ptr) → s.live a ≡ false → Absent a s.retired)
      → NotAmong fresh pairs
      → Unused s pairs
      → length pairs < usize
      → (s' : SkipList V) × (ys : List (Cell V)) × (from_iter d.eager_reclaim fresh seed pairs s
          ≡ ok fresh s')
        × IsShared s' ys
        × (entries ys ≡ puts pairs [])
  unfolding from_iter
  from_iter-puts fresh seed pairs s ne unused held out free few =
      let (t, made, sh, live) = new-IsShared fresh seed s ne unused held in
      let (s', ys, run, after, all) =
        insert_all-puts pairs t [] sh (omega arith)
          (Unused-later s t fresh pairs out (λ b away dead. live b away ∙ dead) free) in
      (s', ys, rw (made, run), after, all)
