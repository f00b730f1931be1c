-- ===== src/Threads/Searching.antt =====
-- What `find` answers while other threads change the list.
use skippy_rs.Base.{
  ℕ, zero, suc, ◌+◌, ◌≡◌, refl, ◌≢◌, ◌<◌, ◌≤◌, inl, inr, arith, Bool, true, false, Bool-cases, ◌==◌,
  if◌then◌else◌, eq→test, ne→not_eq, lt→ltb, le→not_ltb,
}
use native.Mathlib.Decide.{dec_lt, ℕ_discrete}
use skippy_rs.Node.{Result, right, wrong, max_levels, removed}
use skippy_rs.Store.{Ptr, null}
use skippy_rs.Sync.{Pairs, set_pair}
use skippy_rs.Threads.{Prog}
use skippy_rs.Threads.Find.{
  protect, from_maybe_tagged, sub_ref, unlink_level, skip_marked, precedes, search_levels,
  match_live, top_level, init_prev, search, find,
}
use skippy_rs.Threads.Safe.{
  Always, World, Room, IsEntry, Leads, Safe, Safe-bind, Before, Around, Holds, Found, Above,
  Between, Leads-through,
}

module _ (w : World) where
  abbrev pub ToNext : Ptr → ℕ → Result Ptr (Unit {0}) → Type 0
  ToNext p l (right n) = Leads w p l n
  ToNext p l (wrong e) = Unit

  -- A pointer that may be null.
  pub Safe-null :
      {A : Type 0} (Q : A → Type 0) (p : Ptr) (l : ℕ) (q : Ptr) (a b : Prog A)
      → Leads w p l q
      → (q ≡ null → Safe w Q a)
      → (IsEntry w l q → Safe w Q b)
      → Safe w Q (if q == null then a else b)
  Safe-null Q p l q a b leads empty node = elim (ℕ_discrete q null) [
    | yes e ↦ rw (eq→test e) (empty e)
    | no n ↦ rw (ne→not_eq n) (elim leads [ inl e ↦ absurd (n e) | inr entry ↦ node entry.0 ])
  ]

  protect-Safe :
      (f : ℕ) (p : Ptr) (l : ℕ) (a b : Ptr)
      → Room w p l
      → Leads w p l a
      → Leads w p l b
      → Safe w (Leads w p l) (protect f p l a b)
  unfolding protect Safe
  protect-Safe zero p l a b room la lb = tt
  protect-Safe (suc f) p l a b room la lb = elim (ℕ_discrete a b) [
    | yes e ↦ rw (eq→test e) la
    | no n ↦ rw (ne→not_eq n) (room, λ q leads. protect-Safe f p l b q.ptr room lb leads)
  ]

  pub from_maybe_tagged-Safe :
      (f : ℕ) (p : Ptr) (l : ℕ) → Room w p l → Safe w (Leads w p l) (from_maybe_tagged f p l)
  unfolding from_maybe_tagged Safe
  from_maybe_tagged-Safe f p l room =
      (room, λ a la. (room, λ b lb. protect-Safe f p l a.ptr b.ptr room la lb))

  pub sub_ref-Safe : (p : Ptr) → w.known p ≡ true → Safe w Always (sub_ref p)
  unfolding sub_ref Safe
  sub_ref-Safe p known = (
    known,
    elim [
      | wrong n ↦ tt
      | right n ↦ elim (ℕ_discrete n 0) [ yes e ↦ rw (eq→test e) tt | no e ↦ rw (ne→not_eq e) tt ]
    ],
  )

  unlink_level-Safe :
      (prev curr next : Ptr) (l : ℕ)
      → Room w prev l
      → w.known curr ≡ true
      → Leads w curr l next
      → Safe w (ToNext prev l) (unlink_level prev curr next l)
  unfolding unlink_level Safe
  unlink_level-Safe prev curr next l room known leads = (
    room,
    λ e. Leads-through w prev curr next l e known leads,
    elim [
      | wrong k ↦ λ e. tt
      | right k ↦ λ e.
          Safe-bind w _ _ _ (sub_ref-Safe curr known)
            (λ a u. Leads-through w prev curr next l e known leads)
    ],
  )

  skip_marked-Safe :
      (f : ℕ) (curr next : Ptr) (l : ℕ)
      → Room w curr l
      → Leads w curr l next
      → Safe w (ToNext curr l) (skip_marked f curr next l)
  unfolding skip_marked Safe
  skip_marked-Safe zero curr next l room leads = tt
  skip_marked-Safe (suc f) curr next l room leads =
      Safe-null (ToNext curr l) curr l next _ _ leads (λ e. leads)
        (λ entry. (
          entry.0,
          λ k lk. elim (ℕ_discrete k.tag 0) [
            | yes e ↦ rw (eq→test e) leads
            | no n ↦ rw (ne→not_eq n) (
                Safe-bind w _ _ _ (from_maybe_tagged-Safe f next l entry.0) (λ new_next ln.
                  Safe-bind w _ _ _ (unlink_level-Safe curr next new_next l room entry.0.0 ln)
                    (elim [
                      | right n' ↦ λ to. skip_marked-Safe f curr n' l room to
                      | wrong e ↦ λ u. tt
                    ])))
          ],
        ))

  abbrev Lower : ℕ → ℕ → Ptr → Bool → Type 0
  Lower k l next false = Above w k next
  Lower k l next true = IsEntry w l next × (w.key next < k)

  precedes-Safe :
      (k : ℕ) (p : Ptr) (l : ℕ) (next : Ptr)
      → Leads w p l next
      → Safe w (Lower k l next) (precedes k next)
  unfolding precedes Safe
  precedes-Safe k p l next leads =
      Safe-null (Lower k l next) p l next _ _ leads (λ e. inl e)
        (λ entry. (
          entry.0.0,
          entry.1,
          elim (dec_lt (w.key next) k) [
            | yes lt ↦ rw (lt→ltb lt) (entry, lt)
            | no ge ↦ rw (le→not_ltb {a = w.key next} {b = k} (omega arith)) (inr (omega arith))
          ],
        ))

  match_live-Safe :
      (k : ℕ) (p next : Ptr) → Leads w p 0 next → Safe w (Holds w k) (match_live k next)
  unfolding match_live Safe
  match_live-Safe k p next leads =
      Safe-null (Holds w k) p 0 next _ _ leads (λ e. tt)
        (λ entry. (
          entry.0.0,
          entry.1,
          elim (ℕ_discrete (w.key next) k) [
            | yes e ↦ rw (eq→test e) (
              entry.0.0,
              λ v tall. elim (Bool-cases (removed v)) [ inl t ↦ rw t tt | inr t ↦ rw t (entry, e) ],
            )
            | no n ↦ rw (ne→not_eq n) tt
          ],
        ))

  abbrev Upto : ℕ → ℕ → Pairs → Type 0
  Upto k i prev =
      (l : ℕ)
      → l < i
      → Room w (prev l).0 l × Before w k (prev l).0 × Leads w (prev l).0 l (prev l).1

  Upto-set :
      (k i l : ℕ) (prev : Pairs) (p n : Ptr)
      → ((m : ℕ)
          → m < i
          → m ≢ l
          → Room w (prev m).0 m × Before w k (prev m).0 × Leads w (prev m).0 m (prev m).1)
      → Room w p l
      → Before w k p
      → Leads w p l n
      → Upto k i (set_pair prev l (p, n))
  unfolding set_pair
  Upto-set k i l prev p n old room before leads m lt = elim (ℕ_discrete m l) [
    | yes e ↦ rw (eq→test e, e) (room, before, leads)
    | no ne ↦ rw (ne→not_eq ne) (old m lt ne)
  ]

  abbrev ToPairs : ℕ → Result (Ptr × Pairs) Pairs → Type 0
  ToPairs k (right found) = Between w k found.1
  ToPairs k (wrong prev) = Around w k prev

  lowest :
      (k l : ℕ) (prev : Pairs) (p n : Ptr)
      → l ≡ 0
      → Above w k n
      → Above w k (set_pair prev l (p, n) 0).1
  unfolding set_pair
  lowest k l prev p n z above = rw z above

  search_levels-Safe :
      (f k : ℕ) (curr : Ptr) (prev : Pairs) (level : ℕ)
      → w.known curr ≡ true
      → level ≤ w.tall curr
      → Before w k curr
      → Around w k prev
      → (level ≡ 0 → Above w k (prev 0).1)
      → Safe w (ToPairs k) (search_levels f k curr prev level)
  unfolding search_levels Safe
  search_levels-Safe zero k curr prev level known short before around low = tt
  search_levels-Safe (suc f) k curr prev zero known short before around low = (around, low refl)
  search_levels-Safe (suc f) k curr prev (suc l) known short before around low =
      let room : Room w curr l = (known, omega arith) in
      let set : (n : Ptr) → Leads w curr l n → Around w k (set_pair prev l (curr, n)) =
        λ n leads. Upto-set k max_levels l prev curr n (λ m lt ne. around m lt) room before leads in
      Safe-bind w _ _ _ (from_maybe_tagged-Safe f curr l room) (λ first lf.
        Safe-bind w _ _ _ (skip_marked-Safe f curr first l room lf) (elim [
          | wrong e ↦ λ u. around
          | right next ↦ λ ln. Safe-bind w _ _ _ (precedes-Safe k curr l next ln) (elim [
            | true ↦ λ lower.
                search_levels-Safe f k next _ (suc l) lower.0.0.0 (omega (arith, lower.0.0.1))
                  (inr lower.1) (set next ln) (λ z. absurd (omega arith))
            | false ↦ λ u.
                search_levels-Safe f k curr _ l known (omega arith) before (set next ln)
                  (λ z. lowest k l prev curr next z u)
          ])
        ]))

  top_level-Safe :
      (n : ℕ)
      → 0 < n
      → n ≤ max_levels
      → Safe w (λ v. (0 < v) × (v ≤ max_levels)) (top_level w.head n)
  unfolding top_level Safe
  top_level-Safe zero pos le = (pos, le)
  top_level-Safe (suc n) pos le = elim (dec_lt 1 (suc n)) [
    | yes lt ↦ rw (lt→ltb lt) (
      (w.head_known, rw w.head_tall (omega arith)),
      λ q lq. elim (ℕ_discrete q.ptr null) [
        | yes e ↦ rw (eq→test e) (top_level-Safe n (omega arith) (omega arith))
        | no ne ↦ rw (ne→not_eq ne) (pos, le)
      ],
    )
    | no ge ↦ rw (le→not_ltb {a = 1} {b = suc n} (omega arith)) (pos, le)
  ]

  init_prev-Safe :
      (f k n i : ℕ) (prev : Pairs)
      → n + i ≡ max_levels
      → Upto k i prev
      → Safe w (Around w k) (init_prev f w.head n i prev)
  unfolding init_prev Safe
  init_prev-Safe f k zero i prev e upto = λ l lt. upto l (omega arith)
  init_prev-Safe f k (suc n) i prev e upto =
      let room : Room w w.head i = (w.head_known, rw w.head_tall (omega arith)) in
      Safe-bind w _ _ _ (from_maybe_tagged-Safe f w.head i room) (λ next leads.
        init_prev-Safe f k n (i + 1) _ (omega arith) (
          Upto-set k (i + 1) i prev w.head next (λ m lt ne. upto m (omega arith)) room (inl refl)
            leads))

  search-Safe :
      (f k : ℕ) (prev : Pairs) → Around w k prev → Safe w (Found w k) (search f w.head k prev)
  unfolding search Safe
  search-Safe zero k prev around = tt
  search-Safe (suc f) k prev around = λ n pos le.
      Safe-bind w _ _ _ (top_level-Safe n pos le) (λ level short.
        Safe-bind w _ _ _
          (search_levels-Safe f k w.head prev level w.head_known (rw w.head_tall short.1) (inl refl)
            around (λ z. absurd (omega (arith, short.0))))
          (elim [
            | wrong prev' ↦ λ around'. search-Safe f k prev' around'
            | right found ↦ λ around'.
                Safe-bind w _ _ _ (from_maybe_tagged-Safe f _ 0 (around'.0 0 (omega arith)).0)
                  (λ next leads.
                    Safe-bind w _ _ _ (match_live-Safe k _ next leads)
                      (λ t holds. (around', holds)))
          ]))

  pub find-Safe : (f k : ℕ) → Safe w (Found w k) (find f w.head k)
  unfolding find Safe
  find-Safe f k =
      Safe-bind w _ _ _ (init_prev-Safe f k max_levels 0 _ refl (λ l lt. absurd (omega arith)))
        (λ prev around. search-Safe f k prev around)
