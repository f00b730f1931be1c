-- ===== src/PriorityQueue/Least.antt =====
-- The queue of src/collections/priority_queue.rs as the list of its values.
use skippy_rs.Base.{
  ℕ, zero, suc, ◌+◌, ◌≡◌, refl, ◌∙◌, ◌≢◌, ◌<◌, ◌≤◌, arith, List, [], ◌∷◌, Option, none, some, false,
  ok, length, out_of_fuel, pure, ltb, ◌==◌, if◌then◌else◌, ◌>>=◌, ◌>>◌, lt→ltb, le→not_ltb, eq_self,
  ne→not_eq, min, ap,
}
use native.Mathlib.Decide.{dec_lt, ℕ_discrete}
use skippy_rs.Node.{usize}
use skippy_rs.Store.{null, SkipList}
use skippy_rs.Store.Access.{load_key-ok}
use skippy_rs.Cells.{Cell, Nodes, IsList}
use skippy_rs.Spec.{Entries, entries, put}
use skippy_rs.SkipList.Find.{IsNode-At}
use skippy_rs.SkipList.Put.{insert-put}
use skippy_rs.SkipList.Walk.Results.{tail, get_first-addr, remove_first-tail}
use skippy_rs.PriorityQueue.{Queue, push, pop, peek}

-- The values of a queue.
abbrev pub values : Entries (Unit {0}) → List ℕ
values [] = []
values ((v, _) ∷ es) = v ∷ values es

-- A value put into a list in ascending order, unless it is there.
unfoldable pub add_value : ℕ → List ℕ → List ℕ
add_value v [] = v ∷ []
add_value v (w ∷ ws) = if ltb w v then w ∷ add_value v ws else if w == v then w ∷ ws else v ∷ w ∷ ws

abbrev pub least : List ℕ → Option ℕ
least [] = none
least (v ∷ vs) = some v

abbrev pub rest : List ℕ → List ℕ
rest [] = []
rest (v ∷ vs) = vs

values-put : (v : ℕ) (es : Entries Unit) → values (put v tt es) ≡ add_value v (values es)
unfolding put add_value
values-put v [] = refl
values-put v ((w, u) ∷ es) = elim (dec_lt w v) [
  | yes lt ↦ rw (lt→ltb lt, values-put v es)
  | no ge ↦ elim (ℕ_discrete w v) [
    | yes e ↦ rw (e, le→not_ltb {a = v} {b = v} (omega arith), eq_self v)
    | no ne ↦ rw (le→not_ltb {a = w} {b = v} (omega arith), ne→not_eq ne)
  ]
]

values-tail : (es : Entries Unit) → values (tail es) ≡ rest (values es)
values-tail [] = refl
values-tail (e ∷ es) = refl

module _ {s : SkipList Unit} {xs : List (Cell Unit)} (is : IsList s xs) where
  -- On a well-formed queue, given a free address, with room in the length: `push` adds a value to the
  -- queue, which stays in ascending order; a value that is queued already is not added again.
  pub push-add_value :
      (fresh v : ℕ)
      → fresh ≢ null
      → s.live fresh ≡ false
      → length xs + 1 < usize
      → (s' : SkipList Unit) × (ys : List (Cell Unit)) × (push fresh v s ≡ ok tt s')
        × IsList s' ys
        × (values (entries ys) ≡ add_value v (values (entries xs)))
  unfolding push
  push-add_value fresh v ne dead room =
      let (s', ys, run, is', same) = insert-put is fresh v tt ne dead room in
      (s', ys, rw run, is', ap values same ∙ values-put v (entries xs))

-- On a well-formed queue with a length below 2^64 `pop` returns the least value, if there is one, and
-- takes it out.
pub pop-least :
    {s : SkipList Unit} (xs : List (Cell Unit))
    → IsList s xs
    → length xs < usize
    → (s' : SkipList Unit) × (ys : List (Cell Unit)) × (pop s ≡ ok (least (values (entries xs))) s')
      × IsList s' ys
      × (values (entries ys) ≡ rest (values (entries xs)))
unfolding pop
pop-least [] is few =
    let (s', ys, run, is', same) = remove_first-tail [] is few in
    (s', ys, rw run, is', ap values same)
pop-least (c ∷ xs) is few =
    let (s', ys, run, is', same) = remove_first-tail (c ∷ xs) is few in
    (s', ys, rw run, is', ap values same)

-- On a well-formed queue `peek` returns the least value, if there is one, and changes nothing.
pub peek-least :
    {s : SkipList Unit} (xs : List (Cell Unit))
    → IsList s xs
    → peek s ≡ ok (least (values (entries xs))) s
unfolding peek
peek-least [] is = rw (get_first-addr is)
peek-least (c ∷ xs) is = rw (get_first-addr is, load_key-ok (IsNode-At is.nodes.0) is.nodes.0.key)

abbrev pub least_of : ℕ → List ℕ → ℕ
least_of v [] = v
least_of v (w ∷ ws) = min v w

least-add_value : (v : ℕ) (ws : List ℕ) → least (add_value v ws) ≡ some (least_of v ws)
unfolding add_value
least-add_value v [] = refl
least-add_value v (w ∷ ws) = ground arith

length-add_value : (v : ℕ) (ws : List ℕ) → length (add_value v ws) ≤ length ws + 1
unfolding add_value
length-add_value v [] = omega arith
length-add_value v (w ∷ ws) = ground (arith, length-add_value v ws)

length-values : (xs : List (Cell Unit)) → length (values (entries xs)) ≡ length xs
length-values [] = refl
length-values (c ∷ xs) = ap suc (length-values xs)

nil_of_values : (xs : List (Cell Unit)) → values (entries xs) ≡ [] → xs ≡ []
nil_of_values [] e = refl
nil_of_values (c ∷ xs) e = absurd cc

module _ {s : SkipList Unit} {xs : List (Cell Unit)} (is : IsList s xs) where
  -- A `push` and a `pop` after it on a well-formed queue, given a free address, with room in the length:
  -- the pop returns the smaller of the value pushed and the least of the queue as it was.
  pub push-pop :
      (fresh v : ℕ)
      → fresh ≢ null
      → s.live fresh ≡ false
      → length xs + 1 < usize
      → (s' : SkipList Unit) × (ys : List (Cell Unit)) × ((do push fresh v; pop) s
          ≡ ok (some (least_of v (values (entries xs)))) s')
        × IsList s' ys
  push-pop fresh v ne dead room =
      let (s1, ys, pushed, is1, same) = push-add_value is fresh v ne dead room in
      let few : length ys < usize = omega (
        arith,
        ap length same,
        length-values ys,
        length-values xs,
        length-add_value v (values (entries xs)),
      ) in
      let (s2, zs, popped, is2, same2) = pop-least ys is1 few in
      (
        s2,
        zs,
        rw (pushed, popped, same) (ap (λ o. ok o s2) (least-add_value v (values (entries xs)))),
        is2,
      )

-- `while let Some(v) = queue.pop()`, on fuel: the values that come out.
unfoldable pub pop_all : ℕ → Queue (List ℕ)
pop_all zero = λ _. out_of_fuel
pop_all (suc f) = do
  first ← pop
  elim first [ none ↦ pure [] | some v ↦ (do vs ← pop_all f; pure (v ∷ vs)) ]

-- Each value is smaller than those behind it.
abbrev pub Ascending : List ℕ → Type 0
Ascending [] = Unit
Ascending (v ∷ []) = Unit
Ascending (v ∷ w ∷ ws) = (v < w) × Ascending (w ∷ ws)

pub values-Ascending :
    (s : SkipList Unit) (xs : List (Cell Unit)) → Nodes s xs → Ascending (values (entries xs))
values-Ascending s [] n = tt
values-Ascending s (c ∷ []) n = tt
values-Ascending s (c ∷ d ∷ xs) n = (n.3.0, values-Ascending s (d ∷ xs) n.4)

pop_all-values :
    (f : ℕ) {s : SkipList Unit} (xs : List (Cell Unit)) (vs : List ℕ)
    → IsList s xs
    → values (entries xs) ≡ vs
    → length xs < usize
    → length vs < f
    → (s' : SkipList Unit) × (pop_all f s ≡ ok vs s') × IsList s' []
unfolding pop_all
pop_all-values zero xs vs is e few fuel = absurd (omega arith)
pop_all-values (suc f) xs [] is e few fuel =
    let (s', ys, run, is', same) = pop-least xs is few in
    (s', rw (run, e), rw (nil_of_values ys (same ∙ ap rest e)) at is')
pop_all-values (suc f) xs (v ∷ vs) is e few fuel =
    let (s', ys, run, is', same) = pop-least xs is few in
    let same' : values (entries ys) ≡ vs = same ∙ ap rest e in
    let (s2, all, is2) =
      pop_all-values f ys vs is' same'
        (omega (arith, length-values ys, length-values xs, ap length same', ap length e))
        (omega arith) in
    (s2, rw (run, e, all), is2)

-- On a well-formed queue with a length below 2^64 popping until nothing comes ends; the values come out
-- in ascending order, each once, and the queue is empty.
pub pop_all-Ascending :
    {s : SkipList Unit} {xs : List (Cell Unit)}
    → IsList s xs
    → length xs < usize
    → (s' : SkipList Unit) × (pop_all (length xs + 1) s ≡ ok (values (entries xs)) s')
      × Ascending (values (entries xs))
      × IsList s' []
pop_all-Ascending {xs} is few =
    let (s', run, is') =
      pop_all-values (length xs + 1) xs (values (entries xs)) is refl few
        (omega (arith, length-values xs)) in
    (s', run, values-Ascending _ xs is.nodes, is')
