-- ===== src/Sync/Clear.antt =====
-- `insert` of src/internal/sync/mod.rs first removes the node that has the key: what is left to search.
use skippy_rs.Base.{
  ℕ, ◌≡◌, refl, ◌<◌, ◌≤◌, arith, List, [], ◌∷◌, Option, none, some, false, ok, length, inl, inr,
  Option-cases, suc, ◌∙◌, ap,
}
use skippy_rs.Node.{max_levels, usize, Result, right}
use skippy_rs.Store.{Ptr, SkipList, Op, load_height}
use skippy_rs.Store.Access.{load_height-ok}
use skippy_rs.Removal.{try_remove_and_tag}
use skippy_rs.Cells.{Cell, pred_at, succ_at, target_at, Above, Nodes}
use skippy_rs.Cells.Frame.{All-mono, pred_at-ne}
use skippy_rs.Cells.Entries.{target-ne}
use skippy_rs.Cells.Erase.{erase, All-erase, length-erase, target_at-Target}
use skippy_rs.Spec.{entries, put}
use skippy_rs.Sync.{Pairs, SearchResult, find}
use skippy_rs.Sync.Domain.{Domain, IsShared}
use skippy_rs.Sync.Find.{IsFound, find_alone-IsFound}
use skippy_rs.Sync.Taken.{Spares, marking, unlink-IsShared, flagged-At_self}
use skippy_rs.Sync.Update.{clear_key, unlink}

module _ {V : Type 0} where
  target_at-Above : (k : ℕ) (xs : List (Cell V)) → Above k xs → target_at k xs ≡ none
  target_at-Above k [] up = refl
  target_at-Above k (c ∷ xs) up = ground (arith, up.0)

  erase-Above : (k : ℕ) (xs : List (Cell V)) → Above k xs → erase k xs ≡ xs
  erase-Above k [] up = refl
  erase-Above k (c ∷ xs) up = ground (arith, up.0, erase-Above k xs up.1)

  put-Above :
      (k : ℕ) (v : V) (xs : List (Cell V)) → Above k xs → put k v (entries xs) ≡ (k, v) ∷ entries xs
  unfolding put
  put-Above k v [] up = refl
  put-Above k v (c ∷ xs) up = ground (arith, up.0)

  -- Once its node is gone the key is absent.
  target_at-erase :
      (s : SkipList V) (k : ℕ) (xs : List (Cell V)) → Nodes s xs → target_at k (erase k xs) ≡ none
  target_at-erase s k [] n = refl
  target_at-erase s k (c ∷ xs) n = ground (
    arith,
    target_at-erase s k xs n.4,
    λ (le : k ≤ c.key). target_at-Above k xs (All-mono (λ d above. omega arith) xs n.3),
  )

  -- Taking the key out first makes no difference to what is put there.
  put-erase :
      (s : SkipList V) (k : ℕ) (v : V) (xs : List (Cell V))
      → Nodes s xs
      → put k v (entries (erase k xs)) ≡ put k v (entries xs)
  unfolding put
  put-erase s k v [] n = refl
  put-erase s k v (c ∷ xs) n = ground (
    arith,
    put-erase s k v xs n.4,
    λ (le : k ≤ c.key). put-Above k v xs (All-mono (λ d above. omega arith) xs n.3),
    λ (le : k ≤ c.key). erase-Above k xs (All-mono (λ d above. omega arith) xs n.3),
  )

module _ {V : Type 0} (eager : Op V (Unit {0})) (f k : ℕ) (prev : Pairs)
    (existing : Option Ptr) where
  clear_none :
      (s : SkipList V) → clear_key eager (suc f) k prev none existing s ≡ ok (prev, existing) s
  unfolding clear_key
  clear_none s = refl

  -- A round that removes the node.
  clear_some :
      (s t s' : SkipList V) (a : Ptr) {h : ℕ} {u : Result (Unit {0}) ℕ} {r : SearchResult}
      → try_remove_and_tag a s ≡ ok (right tt) t
      → load_height a t ≡ ok h t
      → unlink eager a h prev t ≡ ok u s'
      → find k false s' ≡ ok r s'
      → clear_key eager (suc f) k prev (some a) existing s
        ≡ clear_key eager f k r.prev r.target (some a) s'
  unfolding clear_key
  clear_some s t s' a removed height out again = rw (removed, height, out, again)

-- The key is gone: the list of `ys` is left, and `prev` are the predecessors in it.
pub record Cleared {V : Type 0} (s : SkipList V) (k : ℕ) (xs : List (Cell V)) (s' : SkipList V)
    (ys : List (Cell V)) (prev : Pairs) : Type 0 where
  pub shared : IsShared s' ys
  pub found : (l : ℕ) → l < max_levels → prev l ≡ (pred_at l k s'.head ys, succ_at l k ys)
  pub absent : target_at k ys ≡ none
  pub same : (v : V) → put k v (entries ys) ≡ put k v (entries xs)
  pub le : length ys ≤ length xs
  pub stays_dead : (b : Ptr) → s.live b ≡ false → s'.live b ≡ false
  pub same_max : s'.max_height ≡ s.max_height
  pub same_head : s'.head ≡ s.head
  pub apart : Spares s xs s' ys

-- The calls of a round that takes the node at `a` out: what it leaves is the list without the key.
pub record Taking {V : Type 0} (eager : Op V (Unit {0})) (s : SkipList V) (k : ℕ)
    (xs : List (Cell V)) (prev : Pairs) (a : Ptr) : Type 0 where
  pub flagged : SkipList V
  pub left : SkipList V
  pub tower : ℕ
  pub end : Result (Unit {0}) ℕ
  pub next : SearchResult
  pub removed : try_remove_and_tag a s ≡ ok (right tt) flagged
  pub tall : load_height a flagged ≡ ok tower flagged
  pub out : unlink eager a tower prev flagged ≡ ok end left
  pub again : find k false left ≡ ok next left
  pub found_none : next.target ≡ none
  pub head : flagged.head ≡ s.head
  pub cleared : Cleared s k xs left (erase k xs) next.prev

module _ {V : Type 0} (d : Domain V) {s : SkipList V} {xs : List (Cell V)} (sh : IsShared s xs)
    (few : length xs < usize) (k : ℕ) (r : SearchResult) (at : IsFound s k xs r) where
  pub taken : {a : Ptr} → target_at k xs ≡ some a → Taking d.eager_reclaim s k xs r.prev a
  unfolding try_remove_and_tag
  taken {a = a} present =
      let t = target_at-Target s k xs sh.list.nodes present in
      let (g, flag, tag, marks) = marking sh k present few r.prev at.prevs t in
      let (s', out, sh', head, dead, max, away) =
        unlink-IsShared sh k present few r.prev at.prevs t d g marks in
      let (r', search, at') = find_alone-IsFound k sh'.list in
      let gone = target_at-erase s k xs sh.list.nodes in
      record {
        flagged = _;
        left = s';
        tower = _;
        end = right tt;
        next = r';
        removed = rw (flag, tag) refl;
        tall = load_height-ok (flagged-At_self sh k present few r.prev at.prevs t g);
        out = out;
        again = search;
        found_none = at'.target ∙ gone;
        head = refl;
        cleared = record {
          shared = sh';
          found = at'.prevs;
          absent = gone;
          same = λ v. put-erase s k v xs sh.list.nodes;
          le = omega (arith, length-erase k xs present);
          stays_dead = dead;
          same_max = max;
          same_head = head;
          apart = λ b ne others gone_b.
              let (same_b, left) =
                away b (λ e. target-ne k xs others present e)
                  (λ l lt e.
                    pred_at-ne l k b s.head xs others ne (e ∙ ap (λ p. p.0) (at.prevs l lt)))
                  gone_b in
              (same_b, left, All-erase _ k xs others);
        };
      }

  -- Nothing to take out.
  pub Cleared-absent : target_at k xs ≡ none → Cleared s k xs s xs r.prev
  Cleared-absent absent = record {
    shared = sh;
    found = at.prevs;
    absent = absent;
    same = λ v. refl;
    le = omega arith;
    stays_dead = λ b dead. dead;
    same_max = refl;
    same_head = refl;
    apart = λ b ne out gone. (
      record { live = refl; key = refl; val = refl; header = refl; link = λ l lt. refl },
      gone,
      out,
    );
  }

  pub clear_key-Cleared :
      (f : ℕ)
      → (s' : SkipList V) × (ys : List (Cell V)) × (prev : Pairs) × (clear_key d.eager_reclaim
            (suc (suc f))
            k
            r.prev
            (target_at k xs)
            none
            s
          ≡ ok (prev, target_at k xs) s')
        × Cleared s k xs s' ys prev
  clear_key-Cleared f = elim (Option-cases (target_at k xs)) [
    | inl absent ↦ (
      s,
      xs,
      r.prev,
      rw absent (clear_none d.eager_reclaim (suc f) k r.prev none s),
      Cleared-absent absent,
    )
    | inr (a, present) ↦
        let t = taken present in
        (
          t.left,
          erase k xs,
          t.next.prev,
          rw present (
              clear_some d.eager_reclaim (suc f) k r.prev none s t.flagged t.left a t.removed t.tall
                t.out t.again
              ∙ (rw t.found_none (clear_none d.eager_reclaim f k t.next.prev (some a) t.left))),
          t.cleared,
        )
  ]
