-- ===== src/Basics/Height.antt =====
-- `gen_height` of `skiplist_basics!`: the heights that it draws.
use skippy_rs.Base.{
  ℕ, zero, suc, ◌+◌, ◌-◌, ◌*◌, ◌/◌, ◌%◌, ◌^◌, ◌≡◌, ap, bit_xor, ◌≢◌, ◌≤◌, ◌<◌, inl, inr, Bool-cases,
  arith, ltb, lt→ltb, le→not_ltb, ne→not_eq, ok, min, if◌then◌else◌,
}
use skippy_rs.Base.Bits.{bit_xor-lt}
use native.Mathlib.Decide.{dec_lt, ℕ_discrete}
use skippy_rs.Node.{max_levels, usize}
use skippy_rs.Store.{null, SkipList}
use skippy_rs.Store.Access.{At, load_ptr-link}
use skippy_rs.Basics.{next_seed, trailing_zeros, lower_height, gen_height}

-- From a 64-bit seed the generator makes a 64-bit seed.
pub next_seed-lt : (seed : ℕ) → seed < usize → next_seed seed < usize
unfolding next_seed
next_seed-lt seed h =
    let a = bit_xor seed (seed * 2 ^ 13 % usize) in
    let a-lt : a < usize = bit_xor-lt 64 seed _ h (omega arith) in
    let b = bit_xor a (a / 2 ^ 17) in
    let b-lt : b < usize = bit_xor-lt 64 a _ a-lt (omega arith) in
    bit_xor-lt 64 b (b * 2 ^ 5 % usize) b-lt (omega arith)

-- The height that the loop settles on: no taller than asked, and at most one level above the tallest
-- level in use unless it is 3 or less.
pub record Drawn {V : Type 0} (s : SkipList V) (top h : ℕ) : Type 0 where
  pub pos : 0 < h
  pub le : h ≤ top
  pub used : 4 ≤ h → (s.link s.head (h - 2)).ptr ≢ null
  pub blocked : h < top → (3 ≤ h) × ((s.link s.head (h - 1)).ptr ≡ null)

module _ {V : Type 0} {s : SkipList V} (at : At s s.head max_levels) where
  lower_height-Drawn :
      (top : ℕ)
      → 0 < top
      → top ≤ max_levels
      → (h : ℕ) × (lower_height top s ≡ ok h s) × Drawn s top h
  unfolding lower_height
  lower_height-Drawn zero pos le = absurd (omega arith)
  lower_height-Drawn (suc l) pos le = elim (dec_lt (suc l) 4) [
    | yes small ↦ (suc l, rw (lt→ltb small), ground arith)
    | no tall ↦
        let loaded = load_ptr-link at {l = suc l - 2} (omega arith) in
        elim (ℕ_discrete (s.link s.head (suc l - 2)).ptr null) [
          | yes unused ↦
              let (h, e, d) = lower_height-Drawn l (omega arith) (omega arith) in
              (
                h,
                rw (le→not_ltb {a = suc l} {b = 4} (omega arith), loaded, unused, e),
                record {
                  pos = d.pos;
                  le = omega (arith, d.le);
                  used = d.used;
                  blocked = λ lt. elim (dec_lt h l) [
                    | yes below ↦ d.blocked below
                    | no top ↦ (omega (arith, d.le), ground (arith, d.le))
                  ];
                },
              )
          | no used ↦ (
            suc l,
            rw (le→not_ltb {a = suc l} {b = 4} (omega arith), loaded, ne→not_eq used),
            record {
              pos = pos;
              le = omega arith;
              used = λ _. used;
              blocked = λ lt. absurd (omega arith);
            },
          )
        ]
  ]

module _ {V : Type 0} (s : SkipList V) where
  -- The list after a height `h` is drawn.
  abbrev pub grown : ℕ → SkipList V
  grown h = record s {
    seed = next_seed s.seed;
    max_height = if ltb s.max_height h then h else s.max_height;
  }

module _ {V : Type 0} {s : SkipList V} (at : At s s.head max_levels) where
  grown-cases :
      (h : ℕ)
      → (if ltb s.max_height h
          then record s { max_height = h; seed = next_seed s.seed }
          else record s { seed = next_seed s.seed })
        ≡ grown s h
  grown-cases h = elim (Bool-cases (ltb s.max_height h)) [ inl e ↦ rw e | inr e ↦ rw e ]

  -- At a head of 32 levels `gen_height` ends and moves the seed on by one round. The height that it
  -- returns is at least 1 and at most what the seed's trailing zeros give, from 4 on at most one more
  -- than a level in use, and less than the zeros give only where the head's level below is empty. It
  -- raises `max_height` to the height and writes nothing else.
  pub gen_height-Drawn :
      (h : ℕ) × (gen_height s ≡ ok h (grown s h))
      × Drawn s (min max_levels (trailing_zeros 64 (next_seed s.seed) + 1)) h
  unfolding gen_height
  gen_height-Drawn =
      let seeded : SkipList V = record s { seed = next_seed s.seed } in
      let at' : At seeded s.head max_levels = record {
        ne_null = at.ne_null;
        live = at.live;
        header = at.header;
      } in
      let (h, e, d) =
        lower_height-Drawn at' (min max_levels (trailing_zeros 64 (next_seed s.seed) + 1))
          (omega arith) (omega arith) in
      (
        h,
        rw e (ap (ok h) (grown-cases h)),
        record { pos = d.pos; le = d.le; used = d.used; blocked = d.blocked },
      )
