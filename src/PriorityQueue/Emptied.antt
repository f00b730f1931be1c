-- ===== src/PriorityQueue/Emptied.antt =====
-- The queue of src/collections/priority_queue.rs over the concurrent list: what comes out of it.
use skippy_rs.Base.{
  ℕ, zero, suc, ◌+◌, ◌≡◌, refl, ◌∙◌, ◌<◌, arith, List, [], ◌∷◌, none, some, ok, out_of_fuel, length,
  pure, ◌>>=◌, inl,
}
use skippy_rs.Store.{SkipList, Op, load_key}
use skippy_rs.Store.Access.{load_key-ok}
use skippy_rs.Cells.{Cell, IsList}
use skippy_rs.Spec.{entries}
use skippy_rs.SkipList.Find.{head-At}
use skippy_rs.Sync.Order.{get_first_alone-addr}
use skippy_rs.PriorityQueue.Least.{values, Ascending, values-Ascending}
use skippy_rs.PriorityQueue.Popped.{Popped, get_first-Popped}
use skippy_rs.PriorityQueue.Taken.{entry_remove-Popped}
use skippy_rs.PriorityQueue.Shared.{pop}

-- `while let Some(e) = queue.pop()`, on fuel: the values of the entries that come out.
unfoldable pub empty_all : ℕ → Op (Unit {0}) (List ℕ)
empty_all zero = λ _. out_of_fuel
empty_all (suc f) = do
  first ← pop
  elim first [ none ↦ pure [] | some p ↦ (do v ← load_key p; vs ← empty_all f; pure (v ∷ vs)) ]

empty_all-Popped :
    (f : ℕ) (s : SkipList (Unit {0})) (xs : List (Cell (Unit {0})))
    → Popped s xs
    → length xs < f
    → (s' : SkipList (Unit {0})) × (empty_all f s ≡ ok (values (entries xs)) s') × (s'.len ≡ s.len)
unfolding empty_all pop
empty_all-Popped zero s xs p fuel = absurd (omega arith)
empty_all-Popped (suc f) s [] p fuel =
    let (s', run, q, direct, same) = get_first-Popped s [] p in (s', rw run, same)
empty_all-Popped (suc f) s (c ∷ xs) p fuel =
    let (t, run, q, direct, same) = get_first-Popped s (c ∷ xs) p in
    let (u, out, left, same', key, at) = entry_remove-Popped t c xs q direct in
    let (s', rest, same2) = empty_all-Popped f u xs left (omega arith) in
    (s', rw (run, out, load_key-ok at key, rest), same2 ∙ same' ∙ same)

-- On a well-formed queue over the concurrent list, with no other thread, popping until nothing comes
-- ends; the values of the entries come out in ascending order, each once. The length stays as it was.
pub empty_all-values :
    {s : SkipList (Unit {0})} {xs : List (Cell (Unit {0}))}
    → IsList s xs
    → (s' : SkipList (Unit {0})) × (empty_all (length xs + 1) s ≡ ok (values (entries xs)) s')
      × Ascending (values (entries xs))
      × (s'.len ≡ s.len)
unfolding empty_all pop
empty_all-values {s = s} {xs = []} is = (s, rw (get_first_alone-addr is), tt, refl)
empty_all-values {s = s} {xs = c ∷ xs} is =
    let (s', run, same) =
      empty_all-Popped (length (c ∷ xs) + 1) s (c ∷ xs)
        (record {
          head = head-At is;
          filled = omega (arith, is.counted);
          nodes = is.nodes;
          head_apart = is.head_apart;
          leads = inl (is.head_tower 0 (omega arith));
        })
        (omega arith) in
    (s', run, values-Ascending s (c ∷ xs) is.nodes, same)
