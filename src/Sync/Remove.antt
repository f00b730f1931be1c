-- ===== src/Sync/Remove.antt =====
-- `remove` of src/internal/sync/mod.rs on a well-formed list against the ordered map.
use skippy_rs.Base.{
  ℕ, ◌≡◌, ◌∙◌, ap, refl, sym, ◌<◌, ◌≤◌, arith, List, false, ok, length, inl, inr, Option-cases,
}
use skippy_rs.Node.{usize}
use skippy_rs.Store.{Ptr, SkipList}
use skippy_rs.Store.Access.{load_height-ok}
use skippy_rs.Cells.{Cell, target_at}
use skippy_rs.Cells.Entries.{lookup-none, target-ne}
use skippy_rs.Cells.Frame.{pred_at-ne}
use skippy_rs.Cells.Erase.{erase, All-erase, length-erase, entries-erase, target_at-Target}
use skippy_rs.Spec.{entries, delete}
use skippy_rs.SkipList.Delete.{delete-absent}
use skippy_rs.Sync.Domain.{Domain, IsShared}
use skippy_rs.Sync.Find.{find_alone-IsFound}
use skippy_rs.Sync.Update.{remove_target, remove_at, remove}
use skippy_rs.Sync.Taken.{Spares, flagged-At_self, marking, unlink-IsShared}

module _ {V : Type 0} (d : Domain V) {s : SkipList V} {xs : List (Cell V)} (sh : IsShared s xs)
    (few : length xs < usize) (k : ℕ) where
  pub remove_alone-Spares :
      (s' : SkipList V) × (ys : List (Cell V)) × (remove d.eager_reclaim k s
        ≡ ok (target_at k xs) s')
      × IsShared s' ys
      × (entries ys ≡ delete k (entries xs))
      × (length ys ≤ length xs)
      × ((b : Ptr) → s.live b ≡ false → s'.live b ≡ false)
      × (s'.head ≡ s.head)
      × Spares s xs s' ys
  unfolding remove remove_at remove_target
  remove_alone-Spares =
      let (r, search, at) = find_alone-IsFound k sh.list in
      elim (Option-cases (target_at k xs)) [
        | inl absent ↦ (
          s,
          xs,
          rw (search, at.target, absent),
          sh,
          sym (delete-absent k (entries xs) (lookup-none s k xs sh.list.nodes absent)),
          omega arith,
          λ b free. free,
          refl,
          λ b ne out gone. (
            record { live = refl; key = refl; val = refl; header = refl; link = λ l lt. refl },
            gone,
            out,
          ),
        )
        | inr (a, present) ↦
            let t = target_at-Target s k xs sh.list.nodes present in
            let (f, flag, tag, marks) = marking sh k present few r.prev at.prevs t in
            let (s', out, sh', same, dead, max, away) =
              unlink-IsShared sh k present few r.prev at.prevs t d f marks in
            (
              s',
              erase k xs,
              rw (
                search,
                at.target,
                present,
                flag,
                load_height-ok (flagged-At_self sh k present few r.prev at.prevs t s.link),
                tag,
                out,
              ),
              sh',
              entries-erase k xs,
              omega (arith, length-erase k xs present),
              dead,
              same,
              λ b ne others gone_b.
                  let (same_b, left) =
                    away b (λ e. target-ne k xs others present e)
                      (λ l lt e.
                        pred_at-ne l k b s.head xs others ne (e ∙ ap (λ p. p.0) (at.prevs l lt)))
                      gone_b in
                  (same_b, left, All-erase _ k xs others),
            )
      ]

  -- On a well-formed list of nodes that are not retired, with a length below 2^64 and no other thread in
  -- between, whatever the domain of hazard pointers frees of the nodes that are retired: `remove` ends
  -- and returns the entry of the key, if there is one. It takes the key out of the map, and leaves a
  -- well-formed list of nodes that are not retired, with no more nodes. It allocates no address.
  pub remove_alone-delete :
      (s' : SkipList V) × (ys : List (Cell V)) × (remove d.eager_reclaim k s
        ≡ ok (target_at k xs) s')
      × IsShared s' ys
      × (entries ys ≡ delete k (entries xs))
      × (length ys ≤ length xs)
      × ((b : Ptr) → s.live b ≡ false → s'.live b ≡ false)
  remove_alone-delete =
      let (s', ys, run, sh', map, fewer, dead, head, spares) = remove_alone-Spares in
      (s', ys, run, sh', map, fewer, dead)
