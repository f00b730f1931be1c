-- ===== src/Sync/Unlink.antt =====
-- The loop of `unlink` in src/internal/sync/mod.rs: what it leaves at each address and level.
use skippy_rs.Base.{
  ℕ, zero, suc, ◌-◌, ◌≡◌, refl, ◌∙◌, ◌≢◌, ◌<◌, ◌≤◌, arith, ok, ltb, ◌==◌, ◌&&◌, if◌then◌else◌, ◌∷◌,
  true, none, some, ne→not_eq, eq→test, eq_self,
}
use native.Mathlib.Decide.{ℕ_discrete}
use skippy_rs.Node.{right, max_levels}
use skippy_rs.Node.Header.{word, fields}
use skippy_rs.Store.{Ptr, Link, SkipList, link_to, update, update_link}
use skippy_rs.Store.Access.{At, At-links, load_ptr-link}
use skippy_rs.Unlinking.{sub_ref, retire_node}
use skippy_rs.Unlinking.Retired.{exchange_ptr-ok, try_sub_ref-ok}
use skippy_rs.Sync.{Pairs}
use skippy_rs.Sync.Update.{unlink_levels}

module _ {V : Type 0} {s : SkipList V} {a h : ℕ} (n : ℕ) (at : At s a h)
    (packed : s.header a ≡ word true (suc n) h) (few : suc n ≤ max_levels)
    (short : h ≤ max_levels) where
  sub_ref-last :
      n ≡ 0
      → sub_ref a s
        ≡ ok none (record s { header = update s.header a (word true n h); retired = a ∷ s.retired })
  unfolding sub_ref retire_node
  sub_ref-last last =
      let one : suc n - 1 ≡ n = omega arith in
      rw (
        try_sub_ref-ok true (suc n) at packed (omega arith) (omega arith) (omega arith),
        one,
        eq→test last,
      )

  sub_ref-more :
      n ≢ 0 → sub_ref a s ≡ ok (some tt) (record s { header = update s.header a (word true n h) })
  unfolding sub_ref
  sub_ref-more more =
      let one : suc n - 1 ≡ n = omega arith in
      rw (
        try_sub_ref-ok true (suc n) at packed (omega arith) (omega arith) (omega arith),
        one,
        ne→not_eq more,
      )

module _ {V : Type 0} (a : Ptr) (prev : Pairs) (h : ℕ) (short : h ≤ max_levels) where
  -- Each predecessor below level `n` reaches its level and points at the node.
  abbrev pub Joined : SkipList V → ℕ → Type 0
  Joined s n =
      (l : ℕ)
      → l < n
      → ((m : ℕ) × At s (prev l).0 m × (l < m))
        × ((prev l).0 ≢ a)
        × (s.link (prev l).0 l ≡ link_to a 0)

  -- The list after one round.
  abbrev parted : SkipList V → ℕ → SkipList V
  parted s i = record s {
    link = update_link s.link (prev i).0 i (link_to (s.link a i).ptr 0);
    header = update s.header a (word true i h);
  }

  parted-At : (s : SkipList V) (i p m : ℕ) → p ≢ a → At s p m → At (parted s i) p m
  parted-At s i p m ne at = record {
    ne_null = at.ne_null;
    live = at.live;
    header = rw (ne→not_eq ne) at.header;
  }

  parted-At-self : (s : SkipList V) (i : ℕ) → i < h → At s a h → At (parted s i) a h
  parted-At-self s i lt at = record {
    ne_null = at.ne_null;
    live = at.live;
    header = rw (eq_self a) (fields true i h (omega arith) (omega arith)).0;
  }

  parted-Joined : (s : SkipList V) (i : ℕ) → Joined s (suc i) → Joined (parted s i) i
  parted-Joined s i joined l lt =
      let ((m, at, room), apart, linked) = joined l (omega arith) in
      ((m, parted-At s i (prev l).0 m apart at, room), apart, ground arith)

  -- A removed node that counts `n` references: its levels below `n` are unlinked, and it is retired with
  -- the last of them.
  pub unlink_levels-parted :
      (n : ℕ) (s : SkipList V)
      → At s a h
      → n ≤ h
      → s.header a ≡ word true n h
      → Joined s n
      → (f : Ptr → ℕ → Link) × (hd : Ptr → ℕ) × (unlink_levels a prev n s
          ≡ ok (right tt) (record s {
            link = f;
            header = hd;
            retired = if n == 0 then s.retired else a ∷ s.retired;
          }))
        × ((b : Ptr) → b ≢ a → hd b ≡ s.header b)
        × ((b : Ptr) (l : ℕ)
            → f b l
              ≡ (if ltb l n && (b == (prev l).0) then link_to (s.link a l).ptr 0 else s.link b l))
  unfolding unlink_levels
  unlink_levels-parted zero s at le packed joined =
      (s.link, s.header, refl, λ b ne. refl, λ b l. ground arith)
  unlink_levels-parted (suc i) s at le packed joined =
      let ((m, at_i, room), apart, linked) = joined i (omega arith) in
      let next : Ptr = (s.link a i).ptr in
      let cut : Ptr → ℕ → Link = update_link s.link (prev i).0 i (link_to next 0) in
      let t : SkipList V = record s { link = cut } in
      elim (ℕ_discrete i 0) [
        | yes last ↦ (
          cut,
          update s.header a (word true i h),
          rw (
            load_ptr-link at {l = i} (omega arith),
            exchange_ptr-ok a next at_i room linked,
            sub_ref-last {s = t} i (At-links at cut) packed (omega arith) short last,
            ne→not_eq {a = suc i} {b = 0} (omega arith),
          ),
          λ b ne. rw (ne→not_eq ne),
          λ b l. ground arith,
        )
        | no more ↦
            let (f, hd, run, headers, links) =
              unlink_levels-parted i (parted s i) (parted-At-self s i (omega arith) at)
                (omega arith) (rw (eq_self a)) (parted-Joined s i joined) in
            (
              f,
              hd,
              rw (
                load_ptr-link at {l = i} (omega arith),
                exchange_ptr-ok a next at_i room linked,
                sub_ref-more {s = t} i (At-links at cut) packed (omega arith) short more,
                run,
                ne→not_eq more,
                ne→not_eq {a = suc i} {b = 0} (omega arith),
              ),
              λ b ne. headers b ne ∙ (rw (ne→not_eq ne)),
              λ b l. ground (arith, links b l, joined l),
            )
      ]
