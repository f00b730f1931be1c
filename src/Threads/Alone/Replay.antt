-- ===== src/Threads/Alone/Replay.antt =====
-- Calls of several threads that do not overlap: each thread runs its call to the end, one after the other.
use skippy_rs.Base.{
  ℕ, suc, ◌+◌, ◌*◌, ◌≡◌, refl, sym, ◌∙◌, ◌<◌, ◌≤◌, inl, inr, arith, ap, List, [], ◌∷◌, Option, none,
  some, ok, length, Option-cases,
}
use mathlib.Core.Path.{subst}
use skippy_rs.Node.{usize, max_levels}
use skippy_rs.Store.{Ptr, SkipList, load_val}
use skippy_rs.Cells.{Cell, target_at}
use skippy_rs.Cells.Entries.{lookup-none, lookup-some}
use skippy_rs.Spec.{entries, lookup}
use skippy_rs.SkipList.Walk.Order.{show_val}
use skippy_rs.Sync.Domain.{IsShared}
use skippy_rs.Sync.Remove.{remove_alone-Spares}
use skippy_rs.Threads.{System, Reach, here}
use skippy_rs.Threads.Methods.{remove}
use skippy_rs.Threads.Insert.{insert}
use skippy_rs.Threads.Alone.{alone}
use skippy_rs.Threads.Alone.Adding.{insert-alone}
use skippy_rs.Threads.Alone.Clearing.{enough-length}
use skippy_rs.Threads.Alone.Calls.{get-Ends}
use skippy_rs.Threads.Alone.Ending.{Ending-run, all_protected}
use skippy_rs.Threads.Alone.Removing.{remove-Ending}
use skippy_rs.Threads.Alone.Steps.{Ends, and_then-ok, alone-Ends, Reach-trans}
use skippy_rs.Threads.Alone.Waiting.{Waiting, Waiting-SameAt}
use skippy_rs.Threads.Alone.Turns.{
  Turn, insert_node, remove_key, get_key, has, turn_program, turn_key, turn_map, turns_map, Differs,
  WaitsFor, Ready, Starts, Answered, Starts-later, Ready-later,
}

-- What a call that runs alone leaves.
pub record Turned {V : Type 0} (s : SkipList V) (xs : List (Cell V)) (t : Turn V)
    (sys : System V (Option Ptr)) (i : ℕ) : Type 0 where
  pub answer : Option Ptr
  pub after : SkipList V
  pub cells : List (Cell V)
  pub ends : Ends sys i answer after
  pub shared : IsShared after cells
  pub map : entries cells ≡ turn_map t (entries xs)
  pub longer : length cells ≤ length xs + 1
  pub head : after.head ≡ s.head
  pub told : has answer ≡ has (lookup (turn_key t) (entries xs))
  pub waits : (d : Cell V) → Differs t d → Waiting s xs d → Waiting after cells d

module _ {V : Type 0} {s : SkipList V} {xs : List (Cell V)} (sh : IsShared s xs) where
  has-lookup : (k : ℕ) → has (target_at k xs) ≡ has (lookup k (entries xs))
  has-lookup k = elim (Option-cases (target_at k xs)) [
    | inl absent ↦ rw (absent, lookup-none s k xs sh.list.nodes absent) refl
    | inr (a, present) ↦
        let (c, at, same, node, found) = lookup-some s k xs sh.list.nodes present in
        rw (present, found) refl
  ]

  has-show : (r : Option Ptr) {v : Option V} → show_val r s ≡ ok v s → has r ≡ has v
  has-show none {v = v} shown = let e : none ≡ v = cc in ap has e
  has-show (some p) {v = v} shown =
      let (x, u, found, rest) = and_then-ok (load_val p s) _ shown in
      let e : some x ≡ v = cc in ap has e

  turned :
      (F i : ℕ) (t : Turn V) (sys : System V (Option Ptr))
      → length xs + 1 < usize
      → 3 * length xs + max_levels + 10 < F
      → WaitsFor s xs t
      → sys.store ≡ s
      → sys.pc i ≡ turn_program F s.head t
      → Turned s xs t sys i
  unfolding turn_program turn_map
  turned F i (insert_node c) sys room fuel w at ready =
      let (s', ys, run, after, same, longer, head, spares) = insert-alone sh w room F fuel in
      record {
        answer = target_at c.key xs;
        after = s';
        cells = ys;
        ends = alone-Ends (insert F s.head c.addr c.key) ready (
            subst (λ m. alone (insert F s.head c.addr c.key) m ≡ ok (target_at c.key xs) s')
              (sym at) run);
        shared = after;
        map = same;
        longer = longer;
        head = head;
        told = has-lookup c.key;
        waits = λ d ne w'.
            let (as_was, gone, out) = spares d.addr ne w'.ne_head w'.outside w'.unretired in
            Waiting-SameAt w' as_was gone out head;
      }
  turned F i (remove_key k) sys room fuel w at ready =
      let (s', ys, run, after, same, fewer, dead, head, spares) =
        remove_alone-Spares all_protected sh (omega (arith, room)) k in
      record {
        answer = target_at k xs;
        after = s';
        cells = ys;
        ends = alone-Ends (remove F s.head k) ready (
            subst (λ m. alone (remove F s.head k) m ≡ ok (target_at k xs) s') (sym at)
              (Ending-run (remove-Ending s k F (enough-length sh F (omega (arith, fuel)))) run));
        shared = after;
        map = same;
        longer = omega (arith, fewer);
        head = head;
        told = has-lookup k;
        waits = λ d ne w'.
            let (as_was, gone, out) = spares d.addr w'.ne_head w'.outside w'.unretired in
            Waiting-SameAt w' as_was gone out head;
      }
  turned F i (get_key k) sys room fuel w at ready =
      let (r, ends, shown) =
        get-Ends sh.list k F i sys (enough-length sh F (omega (arith, fuel))) at ready in
      record {
        answer = r;
        after = s;
        cells = xs;
        ends = ends;
        shared = sh;
        map = refl;
        longer = omega arith;
        head = refl;
        told = has-show r shown;
        waits = λ d ne w'. w';
      }

module _ {V : Type 0} (F : ℕ) where
  -- On a well-formed list of nodes that are not retired, with the nodes of the insertions allocated, distinct and
  -- in no list, with room in the length and enough fuel, while the hazard pointers keep every retired node:
  -- threads that are at the start of their calls have a run that brings each of them to its end. The list is
  -- then well formed, and its map is what the calls in their order make of the map. Each call has returned an
  -- entry just where the map of its time had its key, and the threads before the first of them have not moved.
  pub turns-replay :
      (ts : List (Turn V)) (i : ℕ) {s : SkipList V} {xs : List (Cell V)}
      (sys : System V (Option Ptr))
      → IsShared s xs
      → length xs + length ts < usize
      → 3 * (length xs + length ts) + max_levels + 10 < F
      → Ready s xs ts
      → sys.store ≡ s
      → Starts F s.head i ts sys
      → (last : System V (Option Ptr)) × (ys : List (Cell V)) × Reach sys last
        × IsShared last.store ys
        × (entries ys ≡ turns_map ts (entries xs))
        × Answered i ts (entries xs) last
        × ((j : ℕ) → j < i → last.pc j ≡ sys.pc j)
  unfolding turns_map
  turns-replay [] i {xs = xs} sys sh room fuel ready at starts =
      (sys, xs, here, subst (λ m. IsShared m xs) (sym at) sh, refl, tt, λ j lt. refl)
  turns-replay (t ∷ rest) i {xs = xs} sys sh room fuel ready at starts =
      let a = turned sh F i t sys (omega (arith, room)) (omega (arith, fuel)) ready.0 at starts.0 in
      let (last, ys, reach, shared, map, answered, before) =
        turns-replay rest (suc i) a.ends.last a.shared (omega (arith, room, a.longer))
          (omega (arith, fuel, a.longer)) (Ready-later t a.waits rest ready.1 ready.2) a.ends.store
          (Starts-later F (suc i) rest sys a.ends.last a.head
            (λ j le. a.ends.others j (omega (arith, le))) starts.1) in
      (
        last,
        ys,
        Reach-trans a.ends.reach reach,
        shared,
        map ∙ ap (turns_map rest) a.map,
        (
          (a.answer, before i (omega arith) ∙ a.ends.ended, a.told),
          subst (λ m. Answered (suc i) rest m last) a.map answered,
        ),
        λ j lt. before j (omega (arith, lt)) ∙ a.ends.others j (omega (arith, lt)),
      )
