-- ===== src/Threads/Inserting.antt =====
-- What `insert` answers while other threads change the list.
use skippy_rs.Base.{
  ℕ, zero, suc, ◌+◌, ◌≡◌, ◌≤◌, ◌⊎◌, inl, inr, arith, true, false, Bool-cases, Option, none, some,
  ltb, leb, if◌then◌else◌, eq→test, ne→not_eq,
}
use native.Mathlib.Decide.{dec_lt, ℕ_discrete}
use skippy_rs.Node.{Result, right, wrong, max_levels, height, removed}
use skippy_rs.Store.{Ptr, null}
use skippy_rs.Sync.{Pairs}
use skippy_rs.Threads.{done, write_max}
use skippy_rs.Threads.Insert.{
  overtaken, count_level, link_levels, link_nodes, clear_key, link_retry, insert,
}
use skippy_rs.Threads.Safe.{
  Always, World, Room, IsEntry, Leads, Safe, Safe-bind, Before, Between, Holds,
}
use skippy_rs.Threads.Searching.{Safe-null, find-Safe}
use skippy_rs.Threads.Removing.{try_remove_and_tag-Safe, unlink_alone-Safe}

module _ (w : World) where
  -- The level at which the linking goes on.
  abbrev AtLevel : Ptr → Result (Unit {0}) ℕ → Type 0
  AtLevel p (right all) = Unit
  AtLevel p (wrong i) = i ≤ w.tall p

  overtaken-Safe :
      (i : ℕ) (new next : Ptr)
      → (p : Ptr) → IsEntry w 0 new
      → Leads w p i next
      → Safe w Always (overtaken new next)
  unfolding overtaken Safe
  overtaken-Safe i new next p entry leads =
      Safe-null w Always p i next _ _ leads (λ e. tt)
        (λ after. (
          after.0.0,
          after.1,
          (
            entry.0.0,
            entry.1,
            elim (Bool-cases (leb (w.key next) (w.key new))) [
              | inl t ↦ rw t (entry.0.0, λ v tall. tt)
              | inr t ↦ rw t tt
            ],
          ),
        ))

  count_level-Safe : (new : Ptr) (i : ℕ) → w.known new ≡ true → Safe w Always (count_level new i)
  unfolding count_level Safe
  count_level-Safe new i known = elim (ℕ_discrete i 0) [
    | yes e ↦ rw (eq→test e) (known, λ r. tt)
    | no n ↦ rw (ne→not_eq n) (known, elim [ right m ↦ tt | wrong m ↦ tt ])
  ]

  link_levels-Safe :
      (k : ℕ) (new : Ptr) (prev : Pairs) (n i : ℕ)
      → IsEntry w 0 new
      → (n ≡ 0) ⊎ (n + i ≤ w.tall new)
      → w.tall new ≤ max_levels
      → w.key new ≡ k
      → Between w k prev
      → Safe w (AtLevel new) (link_levels new prev n i)
  unfolding link_levels Safe
  link_levels-Safe k new prev zero i entry fits short keyed between = tt
  link_levels-Safe k new prev (suc n) i entry fits short keyed between =
      let above : suc n + i ≤ w.tall new = elim fits [
        | inl z ↦ absurd (omega arith)
        | inr le ↦ le
      ] in
      let room : Room w new i = (entry.0.0, omega arith) in
      let pair : Room w (prev i).0 i × Before w k (prev i).0 × Leads w (prev i).0 i (prev i).1 =
        between.0 i (omega arith) in
      (
        room,
        λ curr_next lc. (
          entry.0.0,
          λ v tall. elim (Bool-cases (removed v)) [
            | inl t ↦ rw t tt
            | inr t ↦ rw t (
                Safe-bind w _ _ _ (overtaken-Safe i new _ _ entry pair.2) (elim [
                  | true ↦ λ u. tt
                  | false ↦ λ u. (
                    room,
                    λ e. ahead i pair.2,
                    elim [
                      | wrong now ↦ λ a. omega arith
                      | right old ↦ λ a.
                          Safe-bind w _ _ _ (count_level-Safe new i entry.0.0) (elim [
                            | false ↦ λ b. tt
                            | true ↦ λ b. (
                              pair.0,
                              λ e. inr ((room, entry.1), λ z. after (prev i).0 pair.1),
                              elim [
                                | wrong now ↦ λ c. (entry.0.0, λ r. omega arith)
                                | right before ↦ λ c.
                                    link_levels-Safe k new prev n (i + 1) entry (inr (omega arith))
                                      short keyed between
                              ],
                            )
                          ])
                    ],
                  )
                ]))
          ],
        ),
      )
    where
      ahead : (l : ℕ) → Leads w (prev l).0 l (prev l).1 → Leads w new l (prev l).1
      ahead l (inl e) = inl e
      ahead l (inr (next, order)) = inr (
        next,
        λ z. elim between.1 [
          | inl e ↦ absurd (w.ne_null _ next.0.0 (rw z e))
          | inr le ↦ inr (rw (keyed, z) le)
        ],
      )

      after : (p : Ptr) → Before w k p → (p ≡ w.head) ⊎ (w.key p ≤ w.key new)
      after p (inl e) = inl e
      after p (inr lt) = inr (omega (arith, keyed))

  link_nodes-Safe :
      (f k : ℕ) (new : Ptr) (prev : Pairs) (start : ℕ)
      → IsEntry w 0 new
      → w.key new ≡ k
      → Between w k prev
      → Safe w (AtLevel new) (link_nodes f w.head new prev start)
  unfolding link_nodes Safe
  link_nodes-Safe f k new prev start entry keyed between = (
    entry.0.0,
    λ v tall.
        Safe-bind w _ _ _
          (link_levels-Safe k new prev _ start entry
            (elim (dec_lt start (w.tall new)) [
              | yes lt ↦ inr (omega arith)
              | no ge ↦ inl (omega arith)
            ])
            (w.few_levels new entry.0.0) keyed between)
          (elim [
            | wrong i ↦ λ le. le
            | right all ↦ λ u. (
              entry.0.0,
              λ v' tall'. elim (Bool-cases (removed v')) [
                | inl t ↦
                    rw t (entry.0.0, entry.1, Safe-bind w _ _ _ (find-Safe w f _) (λ at found. tt))
                | inr t ↦ rw t tt
              ],
            )
          ]),
  )

  abbrev Cleared : ℕ → Pairs × Option Ptr → Type 0
  Cleared k c = Between w k c.0 × Holds w k c.1

  clear_key-Safe :
      (f : ℕ) (stop : Ptr) (k : ℕ) (prev : Pairs) (target existing : Option Ptr)
      → Between w k prev
      → Holds w k target
      → Holds w k existing
      → Safe w (Cleared k) (clear_key f w.head stop k prev target existing)
  unfolding clear_key Safe
  clear_key-Safe zero stop k prev target existing around holds before = tt
  clear_key-Safe (suc f) stop k prev none existing around holds before = (around, before)
  clear_key-Safe (suc f) stop k prev (some target) existing around holds before =
      elim (ℕ_discrete target stop) [
        | yes e ↦ rw (eq→test e) (around, before)
        | no n ↦ rw (ne→not_eq n) (
            Safe-bind w _ _ _ (try_remove_and_tag-Safe w f target holds.0.0.0) (elim [
              | wrong e ↦ λ u. clear_key-Safe f stop k prev none existing around tt before
              | right all ↦ λ u. (
                holds.0.0.0,
                λ v tall.
                    Safe-bind w _ _ _
                      (unlink_alone-Safe w k target _ prev holds.0.0.0 tall around.0)
                      (λ r a. Safe-bind w _ _ _ (find-Safe w f k) (λ at found.
                        clear_key-Safe f stop k at.prev at.target (some target) found.0 found.1
                          holds)),
              )
            ]))
      ]

  link_retry-Safe :
      (f k : ℕ) (new : Ptr) (prev : Pairs) (start : ℕ) (existing : Option Ptr)
      → Holds w k (some new)
      → Between w k prev
      → Holds w k existing
      → Safe w (Holds w k) (link_retry f w.head new prev start existing)
  unfolding link_retry Safe
  link_retry-Safe zero k new prev start existing here around before = tt
  link_retry-Safe (suc f) k new prev start existing here around before =
      Safe-bind w _ _ _ (link_nodes-Safe f k new prev start here.0 here.1 around) (elim [
        | right all ↦ λ u. before
        | wrong i ↦ λ le. (
          here.0.0.0,
          here.0.1,
          rw here.1 (
              Safe-bind w _ _ _ (find-Safe w f k) (λ at found.
                Safe-bind w _ _ _
                  (clear_key-Safe f new k at.prev at.target existing found.0 found.1 before)
                  (λ c cleared. link_retry-Safe f k new c.0 i c.1 here cleared.0 cleared.1))),
        )
      ])

  pub insert_alone-Safe :
      (f k : ℕ) (new : Ptr) → Holds w k (some new) → Safe w (Holds w k) (insert f w.head new k)
  unfolding insert Safe
  insert_alone-Safe f k new here = Safe-bind w _ _ _ (find-Safe w f k) (λ at found.
      Safe-bind w _ _ _ (clear_key-Safe f null k at.prev at.target none found.0 found.1 tt)
        (λ c cleared. (
          here.0.0.0,
          λ v tall max pos le.
              Safe-bind w {P = Always} _ _ _ (raise v max tall)
                (λ u a. link_retry-Safe f k new c.0 0 c.1 here cleared.0 cleared.1),
        )))
    where
      raise :
          (v max : ℕ)
          → height v ≡ w.tall new
          → Safe w Always (if ltb max (height v) then write_max (height v) (done tt) else done tt)
      raise v max tall = elim (Bool-cases (ltb max (height v))) [
        | inl t ↦
            rw t (rw tall (w.some_level new here.0.0.0), rw tall (w.few_levels new here.0.0.0), tt)
        | inr t ↦ rw t tt
      ]
