-- ===== src/Tagged/Words.antt =====
-- The word of a `MaybeTagged` as an aligned pointer plus a tag.
use skippy_rs.Base.{
  ℕ, suc, ◌+◌, ◌-◌, ◌%◌, ◌^◌, ◌≡◌, ◌∙◌, sym, ◌&&◌, ◌≤◌, ◌<◌, arith, ok, ◌==◌, if◌then◌else◌,
  eq_self, ap, ne→not_eq, bit_and,
}
use skippy_rs.Base.Bits.{bit_and_mask}
use skippy_rs.Base.Masks.{bit_and_high, bit_or_apart, room_above}
use native.Mathlib.Nat.{one-le-pow, mod-lt, mod-le}
use native.Mathlib.Decide.{ℕ_discrete}
use skippy_rs.Node.{usize, right, wrong, bit_not}
use skippy_rs.Store.{Ptr, link_to}
use skippy_rs.Tagged.{
  unused_bits, decompose_raw, compose_raw, load_decomposed, load_ptr, load_tag,
  compare_exchange_with_tag, try_tag, compare_exchange_tag, exchange_tag_loop, set_tag, tag_loop,
}

module _ (j : ℕ) (fits : j ≤ 64) where
  -- A pointer to an aligned node.
  abbrev pub Aligned : Ptr → Type 0
  Aligned p = (p < usize) × (p % 2 ^ j ≡ 0)

  high_bits : (x : ℕ) → x < usize → bit_and x (bit_not (unused_bits (2 ^ j))) ≡ x - x % 2 ^ j
  high_bits x lt =
      let high : bit_and x (2 ^ 64 - 2 ^ j) ≡ x - x % 2 ^ j = bit_and_high j 64 x fits lt in
      let mask : bit_not (unused_bits (2 ^ j)) ≡ 2 ^ 64 - 2 ^ j = omega (arith, one-le-pow j 2) in
      rw mask high

  tag_kept : (t : ℕ) → t < 2 ^ j → t % 2 ^ j ≡ t
  tag_kept t small = grind arith

  -- Composing an aligned pointer and a tag that fits adds them up.
  compose_raw-sum : (p t : ℕ) → Aligned p → t < 2 ^ j → compose_raw (2 ^ j) p t ≡ p + t
  unfolding compose_raw
  compose_raw-sum p t (lt, low) small =
      let whole : p - p % 2 ^ j ≡ p = omega arith in
      rw (high_bits p lt, bit_and_mask j t, whole, tag_kept t small) (bit_or_apart j p t low small)

  sum-split : (p t : ℕ) → Aligned p → t < 2 ^ j → (p + t) % 2 ^ j ≡ t
  sum-split p t (lt, low) small = grind arith

  sum-lt : (p t : ℕ) → Aligned p → t < 2 ^ j → p + t < usize
  sum-lt p t (lt, low) small = omega (arith, room_above j 64 p fits low lt)

  -- Decomposing what was composed gives back the pointer and the tag, if the pointer is aligned and the
  -- tag fits below the alignment.
  pub decompose_raw-compose_raw :
      (p t : ℕ)
      → Aligned p
      → t < 2 ^ j
      → decompose_raw (2 ^ j) (compose_raw (2 ^ j) p t) ≡ link_to p t
  unfolding decompose_raw
  decompose_raw-compose_raw p t aligned small =
      let split = sum-split p t aligned small in
      let whole : p + t - t ≡ p = omega arith in
      rw (
        compose_raw-sum p t aligned small,
        high_bits (p + t) (sum-lt p t aligned small),
        bit_and_mask j (p + t),
        split,
        whole,
      )

  -- Composing what was decomposed gives back the word.
  pub compose_raw-decompose_raw :
      (raw : ℕ)
      → raw < usize
      → compose_raw (2 ^ j) (decompose_raw (2 ^ j) raw).ptr (decompose_raw (2 ^ j) raw).tag ≡ raw
  unfolding decompose_raw
  compose_raw-decompose_raw raw lt =
      let pos : 0 < 2 ^ j = one-le-pow j 2 (omega arith) in
      let low : (raw - raw % 2 ^ j) % 2 ^ j ≡ 0 = grind arith in
      rw (high_bits raw lt, bit_and_mask j raw)
        (compose_raw-sum (raw - raw % 2 ^ j) (raw % 2 ^ j) (omega arith, low) (mod-lt raw pos)
          ∙ omega (arith, mod-le raw (2 ^ j)))

module _ (j : ℕ) (fits : j ≤ 64) (p t : ℕ) (aligned : Aligned j fits p) (small : t < 2 ^ j) where
  abbrev word : ℕ
  word = compose_raw (2 ^ j) p t

  same_word :
      (q u : ℕ)
      → Aligned j fits q
      → u < 2 ^ j
      → (word == compose_raw (2 ^ j) q u) ≡ ((p == q) && (t == u))
  same_word q u aligned' small' =
      let mine = compose_raw-sum j fits p t aligned small in
      let theirs = compose_raw-sum j fits q u aligned' small' in
      let split = sum-split j fits p t aligned small in
      let split' = sum-split j fits q u aligned' small' in
      elim (ℕ_discrete (p + t) (q + u)) [
        | yes e ↦
            let tags : t ≡ u = sym split ∙ ap (λ n. n % 2 ^ j) e ∙ split' in
            rw (mine, theirs) (ground arith)
        | no ne ↦ rw (mine, theirs) (ground arith)
      ]

  -- The exchange succeeds exactly when both the pointer and the tag are those expected; in either case
  -- it returns the pointer and the tag that it met. All pointers are aligned and all tags fit.
  pub compare_exchange_with_tag_lem :
      (q u new n_tag : ℕ)
      → Aligned j fits q
      → u < 2 ^ j
      → compare_exchange_with_tag (2 ^ j) q u new n_tag word ≡ (
          if (p == q) && (t == u)
          then ok (right (link_to p t)) (compose_raw (2 ^ j) new n_tag)
          else ok (wrong (link_to p t)) word)
  unfolding compare_exchange_with_tag
  compare_exchange_with_tag_lem q u new n_tag aligned' small' =
      let met = decompose_raw-compose_raw j fits p t aligned small in
      rw (same_word q u aligned' small', met)

  load_decomposed-word : load_decomposed (2 ^ j) word ≡ ok (link_to p t) word
  unfolding load_decomposed
  load_decomposed-word = rw (decompose_raw-compose_raw j fits p t aligned small)

  load_ptr-word : load_ptr (2 ^ j) word ≡ ok p word
  unfolding load_ptr
  load_ptr-word = rw load_decomposed-word

  load_tag-word : load_tag (2 ^ j) word ≡ ok t word
  unfolding load_tag
  load_tag-word = rw load_decomposed-word

  exchanged :
      (new n_tag : ℕ)
      → compare_exchange_with_tag (2 ^ j) p t new n_tag word
        ≡ ok (right (link_to p t)) (compose_raw (2 ^ j) new n_tag)
  exchanged new n_tag =
      rw (compare_exchange_with_tag_lem p t new n_tag aligned small, eq_self p, eq_self t)

  -- With no other access in between, `tag` ends after one round and leaves the pointer with the new tag.
  pub set_tag_lem :
      (f tag : ℕ) → set_tag (2 ^ j) (suc f) tag word ≡ ok tt (compose_raw (2 ^ j) p tag)
  unfolding set_tag tag_loop
  set_tag_lem f tag = rw (load_decomposed-word, exchanged p tag)

  -- With no other access in between, `try_tag` sets the tag exactly when the pointer is the one expected,
  -- and returns the pointer that it met. The pointer expected is aligned.
  pub try_tag_lem :
      (expected tag : ℕ)
      → Aligned j fits expected
      → try_tag (2 ^ j) expected tag word ≡ (
          if p == expected
          then ok (right p) (compose_raw (2 ^ j) expected tag)
          else ok (wrong p) word)
  unfolding try_tag
  try_tag_lem expected tag aligned' =
      let exchange = compare_exchange_with_tag_lem expected t expected tag aligned' small in
      elim (ℕ_discrete p expected) [
        | yes e ↦ rw (load_tag-word, exchange, e, eq_self expected, eq_self t)
        | no ne ↦ rw (load_tag-word, exchange, ne→not_eq ne)
      ]

  -- With no other access in between, `compare_exchange_tag` ends after one round: it sets the tag exactly
  -- when the tag that it met is the one expected, and otherwise returns the tag that it met. The tags fit.
  pub compare_exchange_tag_lem :
      (f e_tag tag : ℕ)
      → e_tag < 2 ^ j
      → compare_exchange_tag (2 ^ j) (suc f) e_tag tag word
        ≡ (if t == e_tag then ok (right tag) (compose_raw (2 ^ j) p tag) else ok (wrong t) word)
  unfolding compare_exchange_tag exchange_tag_loop
  compare_exchange_tag_lem f e_tag tag small' =
      let exchange = compare_exchange_with_tag_lem p e_tag p tag aligned small' in
      elim (ℕ_discrete t e_tag) [
        | yes e ↦ rw (load_ptr-word, exchange, e, eq_self p, eq_self e_tag)
        | no ne ↦ rw (load_ptr-word, exchange, eq_self p, ne→not_eq ne, ne→not_eq ne)
      ]
