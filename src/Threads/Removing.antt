-- ===== src/Threads/Removing.antt =====
-- What the removing methods and `get` answer while other threads change the list.
use skippy_rs.Base.{
  ℕ, zero, suc, ◌≡◌, ◌≤◌, arith, true, Option, none, some, eq→test, ne→not_eq, lt→ltb, le→not_ltb,
}
use native.Mathlib.Decide.{dec_lt, ℕ_discrete}
use skippy_rs.Node.{right, wrong, max_levels}
use skippy_rs.Store.{Ptr}
use skippy_rs.Race.{set_flag}
use skippy_rs.Sync.{Pairs}
use skippy_rs.Threads.{done}
use skippy_rs.Threads.Methods.{
  set_removed, tag_loop, exchange_tag, tag_down, tag_levels, try_remove_and_tag, unlink_levels,
  unlink, remove_target, remove, get, entry_remove,
}
use skippy_rs.Threads.Safe.{Always, World, Room, Safe, Safe-bind, Around, Holds, Leads-through}
use skippy_rs.Threads.Searching.{sub_ref-Safe, find-Safe}

module _ (w : World) where
  pub set_removed-Safe : (p : Ptr) → w.known p ≡ true → Safe w Always (set_removed p)
  unfolding set_removed Safe
  set_removed-Safe p known = (
    known,
    λ v tall. elim (ℕ_discrete (set_flag v) v) [
      | yes e ↦ rw (eq→test e) tt
      | no n ↦ rw (ne→not_eq n) (known, elim [ right n' ↦ tt | wrong n' ↦ tt ])
    ],
  )

  tag_loop-Safe :
      (f : ℕ) (p : Ptr) (l e_tag tag : ℕ) (ptr : Ptr)
      → Room w p l
      → Safe w Always (tag_loop f p l e_tag tag ptr)
  unfolding tag_loop Safe
  tag_loop-Safe zero p l e_tag tag ptr room = tt
  tag_loop-Safe (suc f) p l e_tag tag ptr room = (
    room,
    λ leads. leads,
    elim [
      | right old ↦ λ leads. tt
      | wrong now ↦ λ leads. elim (ℕ_discrete now.tag e_tag) [
        | yes e ↦ rw (eq→test e) (tag_loop-Safe f p l e_tag tag now.ptr room)
        | no n ↦ rw (ne→not_eq n) tt
      ]
    ],
  )

  tag_down-Safe :
      (f : ℕ) (p : Ptr) (tag n : ℕ)
      → w.known p ≡ true
      → n ≤ w.tall p
      → Safe w Always (tag_down f p tag n)
  unfolding tag_down exchange_tag Safe
  tag_down-Safe f p tag zero known short = tt
  tag_down-Safe f p tag (suc l) known short =
      let room : Room w p l = (known, omega arith) in
      Safe-bind w {P = Always} _ (exchange_tag f p l 0 tag) _
        (room, λ k leads. tag_loop-Safe f p l 0 tag k.ptr room)
        (elim [
          | right old ↦ λ u. tag_down-Safe f p tag l known (omega arith)
          | wrong other ↦ λ u. tt
        ])

  pub tag_levels-Safe :
      (f : ℕ) (p : Ptr) (tag : ℕ) → w.known p ≡ true → Safe w Always (tag_levels f p tag)
  unfolding tag_levels Safe
  tag_levels-Safe f p tag known = (
    known,
    λ v tall.
        Safe-bind w _ _ _ (tag_down-Safe f p tag _ known (omega arith))
          (elim [ right all ↦ λ u. (known, λ v' tall'. tt) | wrong other ↦ λ u. tt ]),
  )

  pub try_remove_and_tag-Safe :
      (f : ℕ) (p : Ptr) → w.known p ≡ true → Safe w Always (try_remove_and_tag f p)
  unfolding try_remove_and_tag Safe
  try_remove_and_tag-Safe f p known = Safe-bind w _ _ _ (set_removed-Safe p known) (elim [
    | wrong e ↦ λ u. tt
    | right old ↦ λ u.
        Safe-bind w _ _ _ (tag_levels-Safe f p 1 known)
          (elim [ right n ↦ λ a. tt | wrong other ↦ λ a. tt ])
  ])

  unlink_levels-Safe :
      (k : ℕ) (node : Ptr) (prev : Pairs) (i : ℕ)
      → w.known node ≡ true
      → i ≤ w.tall node
      → i ≤ max_levels
      → Around w k prev
      → Safe w Always (unlink_levels node prev i)
  unfolding unlink_levels Safe
  unlink_levels-Safe k node prev zero known short le around = tt
  unlink_levels-Safe k node prev (suc i) known short le around = (
    (known, omega arith),
    λ q leads. (
      (around i (omega arith)).0,
      λ e. Leads-through w (prev i).0 node q.ptr i e known leads,
      elim [
        | wrong now ↦ λ a. tt
        | right old ↦ λ a. Safe-bind w _ _ _ (sub_ref-Safe w node known) (elim [
          | none ↦ λ u. tt
          | some u ↦ λ u'. unlink_levels-Safe k node prev i known (omega arith) (omega arith) around
        ])
      ],
    ),
  )

  pub unlink_alone-Safe :
      (k : ℕ) (node : Ptr) (h : ℕ) (prev : Pairs)
      → w.known node ≡ true
      → h ≡ w.tall node
      → Around w k prev
      → Safe w Always (unlink w.head node h prev)
  unfolding unlink Safe
  unlink_alone-Safe k node h prev known e around = elim (ℕ_discrete node w.head) [
    | yes same ↦ rw (eq→test same) tt
    | no other ↦ rw (ne→not_eq other) (
        Safe-bind w _ _ _
          (unlink_levels-Safe k node prev _ known (omega arith) (omega arith) around)
          (elim [ wrong i ↦ λ u. tt | right all ↦ λ u. tt ]))
  ]

  remove_target-Safe :
      (f k : ℕ) (target : Ptr) (prev : Pairs)
      → Holds w k (some target)
      → Around w k prev
      → Safe w (Holds w k) (remove_target f w.head k target prev)
  unfolding remove_target Safe
  remove_target-Safe f k target prev holds around =
      let known : w.known target ≡ true = holds.0.0.0 in
      Safe-bind w _ _ _ (set_removed-Safe target known) (elim [
        | wrong e ↦ λ u. tt
        | right old ↦ λ u. (
          known,
          λ v tall. Safe-bind w _ _ _ (tag_levels-Safe f target 1 known) (elim [
            | wrong other ↦ λ a. tt
            | right top ↦ λ a.
                Safe-bind w _ _ _ (unlink_alone-Safe k target _ prev known tall around) (elim [
                  | right all ↦ λ b. holds
                  | wrong i ↦ λ b. Safe-bind w _ _ _ (find-Safe w f k) (λ at found. holds)
                ])
          ]),
        )
      ])

  pub remove_alone-Safe : (f k : ℕ) → Safe w (Holds w k) (remove f w.head k)
  unfolding remove Safe
  remove_alone-Safe f k =
      Safe-bind w _ _ _ (find-Safe w f k) (λ at found. from at.target at.prev (found.0.0, found.1))
    where
      from :
          (target : Option Ptr) (prev : Pairs)
          → Around w k prev × Holds w k target
          → Safe w
              (Holds w k)
              (elim target [ none ↦ done none | some t ↦ remove_target f w.head k t prev ])
      from none prev found = tt
      from (some t) prev found = remove_target-Safe f k t prev found.1 found.0

  pub get_alone-Safe : (f k : ℕ) → Safe w (Holds w k) (get f w.head k)
  unfolding get Safe
  get_alone-Safe f k = λ n. elim (dec_lt n 1) [
    | yes lt ↦ rw (lt→ltb lt) tt
    | no ge ↦
        rw (le→not_ltb {a = n} {b = 1} (omega arith))
          (Safe-bind w _ _ _ (find-Safe w f k) (λ at found. found.1))
  ]

  pub entry_remove-Safe :
      (f k : ℕ) (p : Ptr) → Holds w k (some p) → Safe w (Holds w k) (entry_remove f p)
  unfolding entry_remove Safe
  entry_remove-Safe f k p holds = Safe-bind w _ _ _ (set_removed-Safe p holds.0.0.0) (elim [
    | wrong e ↦ λ u. tt
    | right old ↦ λ u.
        Safe-bind w _ _ _ (tag_levels-Safe f p 1 holds.0.0.0)
          (elim [ right n ↦ λ a. holds | wrong other ↦ λ a. tt ])
  ])
