-- ===== src/Sync/Trace.antt =====
-- Any sequence of calls that change the concurrent list, with no other thread, against the ordered map.
use skippy_rs.Base.{
  ℕ, ◌+◌, ◌≡◌, refl, ◌∙◌, ◌≢◌, ◌<◌, arith, List, [], ◌∷◌, false, ok, length, ap, sym, pure, ◌>>=◌,
}
use skippy_rs.Node.{usize}
use skippy_rs.Store.{Ptr, null, SkipList, Op}
use skippy_rs.Cells.{Cell}
use skippy_rs.Spec.{Entries, entries, put, delete}
use skippy_rs.Sync.Domain.{Domain, IsShared}
use skippy_rs.Sync.Put.{insert_alone-put}
use skippy_rs.Sync.Remove.{remove_alone-delete}
use skippy_rs.Sync.Update.{insert, remove}

-- A call, with the address that the allocator gives for a node.
pub data Change (V : Type 0) : Type 0 where
  insert_at : (fresh : Ptr) → ℕ → V → Change V
  remove_key : ℕ → Change V

module _ {V : Type 0} where
  unfoldable pub change_all : Op V (Unit {0}) → List (Change V) → Op V (Unit {0})
  change_all eager [] = pure tt
  change_all eager (insert_at fresh k v ∷ rest) = do
    _ ← insert eager fresh k v
    change_all eager rest
  change_all eager (remove_key k ∷ rest) = do _ ← remove eager k; change_all eager rest

  unfoldable pub replay : List (Change V) → Entries V → Entries V
  replay [] es = es
  replay (insert_at fresh k v ∷ rest) es = replay rest (put k v es)
  replay (remove_key k ∷ rest) es = replay rest (delete k es)

  abbrev pub Apart : Ptr → List (Change V) → Type 0
  Apart p [] = Unit
  Apart p (insert_at fresh k v ∷ rest) = (p ≢ fresh) × Apart p rest
  Apart p (remove_key k ∷ rest) = Apart p rest

  -- The addresses of the insertions are free and distinct.
  abbrev pub Free : SkipList V → List (Change V) → Type 0
  Free s [] = Unit
  Free s (insert_at fresh k v ∷ rest) =
      (fresh ≢ null) × (s.live fresh ≡ false) × Apart fresh rest × Free s rest
  Free s (remove_key k ∷ rest) = Free s rest

  pub Free-later :
      (s t : SkipList V) (p : Ptr) (changes : List (Change V))
      → Apart p changes
      → ((b : Ptr) → b ≢ p → s.live b ≡ false → t.live b ≡ false)
      → Free s changes
      → Free t changes
  Free-later s t p [] out dead free = tt
  Free-later s t p (insert_at fresh k v ∷ rest) out dead free = (
    free.0,
    dead fresh (λ e. out.0 (sym e)) free.1,
    free.2,
    Free-later s t p rest out.1 dead free.3,
  )
  Free-later s t p (remove_key k ∷ rest) out dead free = Free-later s t p rest out dead free

  Free-still :
      (s t : SkipList V) (changes : List (Change V))
      → ((b : Ptr) → s.live b ≡ false → t.live b ≡ false)
      → Free s changes
      → Free t changes
  Free-still s t [] dead free = tt
  Free-still s t (insert_at fresh k v ∷ rest) dead free =
      (free.0, dead fresh free.1, free.2, Free-still s t rest dead free.3)
  Free-still s t (remove_key k ∷ rest) dead free = Free-still s t rest dead free

module _ {V : Type 0} (d : Domain V) where
  -- On a well-formed list of nodes that are not retired, with addresses that are free and distinct, with room
  -- in the length and no other thread, whatever the domain of hazard pointers frees of the nodes that are
  -- retired: any sequence of insertions and removals ends, with a well-formed list of nodes that are not
  -- retired, whose map is what the same sequence makes of the map.
  pub change_all-replay :
      (changes : List (Change V)) (s : SkipList V) (xs : List (Cell V))
      → IsShared s xs
      → length xs + length changes < usize
      → Free s changes
      → (s' : SkipList V) × (ys : List (Cell V)) × (change_all d.eager_reclaim changes s ≡ ok tt s')
        × IsShared s' ys
        × (entries ys ≡ replay changes (entries xs))
  unfolding change_all replay
  change_all-replay [] s xs sh room free = (s, xs, refl, sh, refl)
  change_all-replay (insert_at fresh k v ∷ rest) s xs sh room free =
      let (t, ys, first, sh', same, longer, dead) =
        insert_alone-put d sh fresh k v free.0 free.1 (omega arith) in
      let (s', zs, run, after, all) =
        change_all-replay rest t ys sh' (omega (arith, longer))
          (Free-later s t fresh rest free.2 dead free.3) in
      (s', zs, rw first run, after, all ∙ ap (replay rest) same)
  change_all-replay (remove_key k ∷ rest) s xs sh room free =
      let (t, ys, first, sh', same, shorter, dead) = remove_alone-delete d sh (omega arith) k in
      let (s', zs, run, after, all) =
        change_all-replay rest t ys sh' (omega (arith, shorter)) (Free-still s t rest dead free) in
      (s', zs, rw first run, after, all ∙ ap (replay rest) same)
