-- ===== src/Race/Frozen.antt =====
-- The links of the list of src/internal/sync/mod.rs among any number of threads. A write of a link that
-- is shared is the `compare_exchange` that expects no tag, or that of `tag_levels`, both of
-- src/internal/sync/tagged.rs; a header is written by the methods of src/internal/utils/node.rs.
use skippy_rs.Base.{
  ℕ, ◌≡◌, refl, ◌∙◌, ◌≢◌, arith, ◌&&◌, ◌==◌, Run, ok, fault, panic, abort, out_of_fuel, Bool-cases,
  inl, inr, not, Cmd, Option,
}
use skippy_rs.Node.{Result, height, add_ref, try_add_ref, set_removed, try_sub_ref}
use skippy_rs.Node
use skippy_rs.Store.{
  Ptr, null, Link, SkipList, load_link, load_height, deref, store_link, on_header, in_header,
}
use skippy_rs.Removal.{exchange_tag}
use skippy_rs.Unlinking.{exchange_ptr, sub_ref, retire_node}

-- One write of the links or headers by some thread.
pub data LinkStep {V : Type 0} (s : SkipList V) : SkipList V → Type 0 where
  exchanges :
      {t : SkipList V} {r : Result Link Link} (q : Ptr) (m : ℕ) (expected new : Ptr)
      → exchange_ptr q m expected new s ≡ ok r t
      → LinkStep s t
  tags :
      {t : SkipList V} {r : Result ℕ ℕ} (q : Ptr) (m tag : ℕ)
      → exchange_tag q m 0 tag s ≡ ok r t
      → LinkStep s t
  adds : {t : SkipList V} {n : ℕ} (q : Ptr) → on_header q add_ref s ≡ ok n t → LinkStep s t
  tries_add :
      {t : SkipList V} {r : Result ℕ ℕ} (q : Ptr)
      → on_header q try_add_ref s ≡ ok r t
      → LinkStep s t
  subtracts :
      {t : SkipList V} {n : ℕ} (q : Ptr) → on_header q Node.sub_ref s ≡ ok n t → LinkStep s t
  marks :
      {t : SkipList V} {r : Result ℕ (Unit {0})} (q : Ptr)
      → on_header q set_removed s ≡ ok r t
      → LinkStep s t
  drops : {t : SkipList V} {o : Option (Unit {0})} (q : Ptr) → sub_ref q s ≡ ok o t → LinkStep s t

pub data LinkReach {V : Type 0} (s : SkipList V) : SkipList V → Type 0 where
  begin : LinkReach s s
  step : {t u : SkipList V} → LinkReach s t → LinkStep t u → LinkReach s u

module _ {V : Type 0} (s : SkipList V) (p : Ptr) (l : ℕ) (tagged : (s.link p l).tag ≢ 0) where
  -- The link is the same after the run, if it ends.
  abbrev Keeps : {A : Type 0} → Run (SkipList V) A → Type 0
  Keeps (ok a t) = t.link p l ≡ s.link p l
  Keeps fault = Unit
  Keeps panic = Unit
  Keeps abort = Unit
  Keeps out_of_fuel = Unit

  exchange_ptr-Keeps :
      (q : Ptr) (m : ℕ) (expected new : Ptr) → Keeps (exchange_ptr q m expected new s)
  unfolding exchange_ptr load_link load_height deref store_link
  exchange_ptr-Keeps q m expected new = ground arith

  exchange_tag-Keeps : (q : Ptr) (m tag : ℕ) → Keeps (exchange_tag q m 0 tag s)
  unfolding exchange_tag load_link load_height deref store_link
  exchange_tag-Keeps q m tag = ground arith

  in_header-Keeps : {A : Type 0} (q : Ptr) (r : Run ℕ A) → Keeps (in_header q s r)
  in_header-Keeps q (ok a w) = refl
  in_header-Keeps q fault = tt
  in_header-Keeps q panic = tt
  in_header-Keeps q abort = tt
  in_header-Keeps q out_of_fuel = tt

  on_header-Keeps : {A : Type 0} (q : Ptr) (c : Cmd ℕ A) → Keeps (on_header q c s)
  unfolding on_header deref
  on_header-Keeps q c = elim (Bool-cases (not (q == null) && s.live q)) [
    | inl e ↦ rw e (in_header-Keeps q (c (s.header q)))
    | inr e ↦ rw e tt
  ]

  sub_ref-Keeps : (q : Ptr) → Keeps (sub_ref q s)
  unfolding sub_ref on_header deref retire_node try_sub_ref
  sub_ref-Keeps q = ground arith

  LinkStep-Keeps : {t : SkipList V} → LinkStep s t → t.link p l ≡ s.link p l
  LinkStep-Keeps (exchanges q m expected new run) = rw run at (exchange_ptr-Keeps q m expected new)
  LinkStep-Keeps (tags q m tag run) = rw run at (exchange_tag-Keeps q m tag)
  LinkStep-Keeps (adds q run) = rw run at (on_header-Keeps q add_ref)
  LinkStep-Keeps (tries_add q run) = rw run at (on_header-Keeps q try_add_ref)
  LinkStep-Keeps (subtracts q run) = rw run at (on_header-Keeps q Node.sub_ref)
  LinkStep-Keeps (marks q run) = rw run at (on_header-Keeps q set_removed)
  LinkStep-Keeps (drops q run) = rw run at (sub_ref-Keeps q)

-- Once a level of a node has a tag, no exchange of links by any thread and no call that counts references,
-- retires a node or marks it as removed changes its link any more, in any order: nothing is linked behind
-- a node that is tagged.
pub LinkReach-frozen :
    {V : Type 0} {s t : SkipList V} (p : Ptr) (l : ℕ)
    → (s.link p l).tag ≢ 0
    → LinkReach s t
    → t.link p l ≡ s.link p l
LinkReach-frozen p l tagged begin = refl
LinkReach-frozen {s = s} p l tagged (step {t = t} r st) =
    let same = LinkReach-frozen p l tagged r in
    LinkStep-Keeps t p l (λ e. tagged (rw same at e)) st ∙ same
