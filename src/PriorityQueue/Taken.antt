-- ===== src/PriorityQueue/Taken.antt =====
-- `pop` of the queue of src/collections/priority_queue.rs over the concurrent list marks the first entry.
use skippy_rs.Base.{
  ◌≡◌, refl, sym, ◌∙◌, ◌≢◌, inr, arith, List, ◌∷◌, some, true, false, ok, ne→not_eq, eq_self,
}
use skippy_rs.Node.Header.{word, fields}
use skippy_rs.Store.{SkipList, link_to, update}
use skippy_rs.Store.Access.{At}
use skippy_rs.Cells.{Cell, next_at}
use skippy_rs.Cells.Frame.{Same-away, Nodes-Same}
use skippy_rs.SkipList.Find.{IsNode-At}
use skippy_rs.Removal.{entry_remove}
use skippy_rs.Removal.Marks.{entry_remove-marked}
use skippy_rs.PriorityQueue.Popped.{Popped}

-- The queue after the first of `xs`, untagged, is marked.
module _ {V : Type 0} (s : SkipList V) (c : Cell V) (xs : List (Cell V)) (p : Popped s (c ∷ xs))
    (direct : s.link s.head 0 ≡ link_to (next_at 0 (c ∷ xs)) 0) where
  pub entry_remove-Popped :
      (s' : SkipList V) × (entry_remove c.addr s ≡ ok (some c.addr) s')
      × Popped s' xs
      × (s'.len ≡ s.len)
      × (s'.key c.addr ≡ some c.key)
      × At s' c.addr c.height
  entry_remove-Popped =
      let n = p.nodes in
      let at = IsNode-At n.0 in
      let head_ne : s.head ≢ c.addr = p.head_apart.0 in
      let packed : s.header c.addr ≡ word false c.height c.height = ground (arith, n.0.header) in
      let (f, run, marks) =
        entry_remove-marked at n.0.tall (omega (arith, n.0.short)) c.height
          (omega (arith, n.0.short)) (λ l lt. rw (n.1 l lt)) packed in
      let t : SkipList V = record s {
        header = update s.header c.addr (word true c.height c.height);
        link = f;
      } in
      let still : At t c.addr c.height = record {
        ne_null = n.0.ne_null;
        live = n.0.live;
        header =
            rw (eq_self c.addr)
              (fields true c.height c.height (omega (arith, n.0.short))
                (omega (arith, n.0.short))).0;
      } in
      (
        t,
        run,
        record {
          head = record {
            ne_null = p.head.ne_null;
            live = p.head.live;
            header = rw (ne→not_eq head_ne) p.head.header;
          };
          filled = p.filled;
          nodes =
              Nodes-Same s t xs
                (Same-away c.addr (λ _. c.addr)
                  (λ a away far. record {
                    live = refl;
                    key = refl;
                    val = refl;
                    header = rw (ne→not_eq away);
                    link = λ l lt. marks a l ∙ (rw (ne→not_eq away));
                  })
                  xs n.2 (λ _. n.2))
                n.4;
          head_apart = p.head_apart.1;
          leads = inr (record {
            addr = c.addr;
            height = c.height;
            count = c.height;
            at = still;
            tall = n.0.tall;
            short = n.0.short;
            packed = rw (eq_self c.addr);
            some_ref = n.0.tall;
            few = omega (arith, n.0.short);
            from = ground (arith, marks s.head 0, direct, n.0.tall);
            to = ground (arith, marks c.addr 0, n.1 0 n.0.tall, n.0.tall);
            apart = λ e. head_ne (sym e);
            out = n.2;
          });
        },
        refl,
        n.0.key,
        still,
      )
