-- ===== src/Kernel/Racing/Growth.antt =====
-- What each step on the packet count of the interval and `int_bits` keeps of the bound on the count.
use native.Mathlib.Nat.{pow-le-pow_right}
use native.Mathlib.Decide.{dec_lt}
use mathlib.Core.Path.{subst}
use fide.Base.{
  ℕ, suc, ◌+◌, ◌-◌, ◌*◌, ◌^◌, ◌≤◌, ◌<◌, ◌≡◌, refl, ap, ◌∙◌, arith, List, [], ◌∷◌, ◌++◌, false,
  Option, none, some, Option-cases, Bool-cases, inl, inr, sub32, Every, or_done, pow_suc, pow_pos,
}
use fide.Kernel.Types.{DataValue}
use fide.Kernel.Racing.{
  Task, to_read, to_grow, to_compare, to_keep, to_store, to_clear, to_narrow, exceeds, act,
}

-- The sum over the tasks.
unfoldable pub tally : (Task → ℕ) → List Task → ℕ
tally f [] = 0
tally f (t ∷ ts) = f t + tally f ts

pub tally-split :
    (f : Task → ℕ) (a : List Task) (t : Task) (b : List Task)
    → tally f (a ++ t ∷ b) ≡ f t + tally f (a ++ b)
unfolding tally
tally-split f [] t b = refl
tally-split f (x ∷ a) t b = omega (arith, tally-split f a t b)

pub tally-or_done :
    (f : Task → ℕ) (a : List Task) (o : Option Task) (b : List Task)
    → tally f (a ++ or_done o b) ≡ tally f (or_done o []) + tally f (a ++ b)
unfolding tally
tally-or_done f a none b = omega arith
tally-or_done f a (some t) b = omega (arith, tally-split f a t b)

-- Who is about to add to `int_bits`, and who may yet find that it has to.
abbrev pub growing : Task → ℕ
growing to_read = 0
growing to_grow = 1
growing (to_compare bits) = 0
growing to_keep = 0
growing (to_store count) = 0
growing to_clear = 0
growing to_narrow = 0

abbrev pub pending : Task → ℕ
pending to_read = 1
pending to_grow = 0
pending (to_compare bits) = 1
pending to_keep = 0
pending (to_store count) = 0
pending to_clear = 0
pending to_narrow = 0

-- What was read of `int_bits` is not above what it is now.
abbrev pub Seen : ℕ → Task → Type 0
Seen now to_read = Unit
Seen now to_grow = Unit
Seen now (to_compare bits) = (1 ≤ bits) × (bits ≤ now)
Seen now to_keep = Unit
Seen now (to_store count) = Unit
Seen now to_clear = Unit
Seen now to_narrow = Unit

Seen-later : (now next : ℕ) → now ≤ next → (t : Task) → Seen now t → Seen next t
Seen-later now next h to_read s = tt
Seen-later now next h to_grow s = tt
Seen-later now next h (to_compare bits) (low, s) = (low, omega (arith, s))
Seen-later now next h to_keep s = tt
Seen-later now next h (to_store count) s = tt
Seen-later now next h to_clear s = tt
Seen-later now next h to_narrow s = tt

pub all_later :
    (now next : ℕ) → now ≤ next → (ts : List Task) → Every (Seen now) ts → Every (Seen next) ts
unfolding Every
all_later now next h [] s = tt
all_later now next h (t ∷ ts) (s, ss) = (Seen-later now next h t s, all_later now next h ts ss)

pub same_pow : (i j : ℕ) → i ≡ j → 2 ^ i ≡ 2 ^ j
same_pow i j h = ap (λ k. 2 ^ k) h

pub double : (k : ℕ) → 1 ≤ k → 2 ^ k ≡ 2 * 2 ^ (k - 1)
double k h = same_pow k (suc (k - 1)) (omega arith) ∙ pow_suc (k - 1)

-- Where the comparison answers no, the count fits the bits that were read.
exceeds-false :
    (bits cur : ℕ)
    → 1 ≤ bits
    → bits < 2 ^ 32
    → cur < 2 ^ 31
    → exceeds bits cur ≡ some false
    → 2 * (cur + 1) ≤ 2 ^ bits
unfolding exceeds
exceeds-false bits cur low high small e =
    let less_one : sub32 bits 1 ≡ bits - 1 = omega arith in
    let twice = double bits low in
    elim (dec_lt (bits - 1) 32) [
      | no h ↦ absurd (ground (arith, e, less_one))
      | yes h ↦
          let bound =
            pow-le-pow_right {n = 2} (omega arith) {i = bits - 1} {j = 31} (omega arith) in
          ground (arith, e, less_one, twice, bound, pow_pos (bits - 1))
    ]

-- A step that does not raise the count: what it does to the bits and for the packet of the task.
pub record Kept (d d' : DataValue) (t : Task) (o : Option Task) : Type 0 where
  pub lower : d'.cur_interval_pkt ≤ d.cur_interval_pkt
  pub more : d.int_bits ≤ d'.int_bits
  pub bounded : d'.int_bits < 2 ^ 32
  pub next_seen : Every (Seen d'.int_bits) (or_done o [])
  pub still :
      (g p : ℕ)
      → 2 * (d.cur_interval_pkt + 1) ≤ 2 ^ (d.int_bits + (growing t + g)) + 2 * (pending t + p)
      → 2 * (d'.cur_interval_pkt + 1)
        ≤ 2 ^ (d'.int_bits + (tally growing (or_done o []) + g))
          + 2 * (tally pending (or_done o []) + p)

-- One more bit makes room for one packet more.
one_bit : (bits g : ℕ) → 1 ≤ bits → 2 ^ (bits + (0 + g)) + 2 ≤ 2 ^ (bits + (1 + g))
one_bit bits g h = omega (
  arith,
  pow_suc (bits + g),
  same_pow (bits + (1 + g)) (suc (bits + g)) (omega arith),
  same_pow (bits + (0 + g)) (bits + g) (omega arith),
  pow_suc (bits - 1 + g),
  pow_pos (bits - 1 + g),
  same_pow (bits + g) (suc (bits - 1 + g)) (omega arith),
)

module _ (d : DataValue) (low : 1 ≤ d.int_bits) (high : d.int_bits + 1 < 2 ^ 32) where
  read-Kept : Kept d d to_read (some (to_compare d.int_bits))
  unfolding Every tally
  read-Kept = record {
    lower = omega arith;
    more = omega arith;
    bounded = omega arith;
    next_seen = ((low, omega arith), tt);
    still = λ g p h. h;
  }

  grow-Kept : Kept d (record d { int_bits = d.int_bits + 1 }) to_grow none
  unfolding Every tally
  grow-Kept = record {
    lower = omega arith;
    more = omega arith;
    bounded = omega arith;
    next_seen = tt;
    still = λ g p h.
        omega (arith, h, same_pow (d.int_bits + (1 + g)) (d.int_bits + 1 + (0 + g)) (omega arith));
  }

  more-Kept : (bits : ℕ) → Kept d d (to_compare bits) (some to_grow)
  unfolding Every tally
  more-Kept bits = record {
    lower = omega arith;
    more = omega arith;
    bounded = omega arith;
    next_seen = (tt, tt);
    still = λ g p h. omega (arith, h, one_bit d.int_bits g low);
  }

  enough-Kept :
      (bits : ℕ)
      → bits ≤ d.int_bits
      → 2 * (d.cur_interval_pkt + 1) ≤ 2 ^ bits
      → Kept d d (to_compare bits) none
  unfolding Every tally
  enough-Kept bits seen enough = record {
    lower = omega arith;
    more = omega arith;
    bounded = omega arith;
    next_seen = tt;
    still = λ g p h. omega (
      arith,
      enough,
      pow-le-pow_right {n = 2} (omega arith) {i = bits} {j = d.int_bits + (0 + g)} (omega arith),
    );
  }

  -- The steps at the end of an interval, but for the last one.
  keep-Kept : Kept d d to_keep (some (to_store d.cur_interval_pkt))
  unfolding Every tally
  keep-Kept = record {
    lower = omega arith;
    more = omega arith;
    bounded = omega arith;
    next_seen = (tt, tt);
    still = λ g p h. h;
  }

  store-Kept :
      (count : ℕ) → Kept d (record d { prev_interval_pkt = count }) (to_store count) (some to_clear)
  unfolding Every tally
  store-Kept count = record {
    lower = omega arith;
    more = omega arith;
    bounded = omega arith;
    next_seen = (tt, tt);
    still = λ g p h. h;
  }

  clear-Kept : Kept d (record d { cur_interval_pkt = 0 }) to_clear (some to_narrow)
  unfolding Every tally
  clear-Kept = record {
    lower = omega arith;
    more = omega arith;
    bounded = omega arith;
    next_seen = (tt, tt);
    still = λ g p h. omega (arith, h);
  }

  pub act-Kept :
      (t : Task) (d' : DataValue) (o : Option Task)
      → ¬ (t ≡ to_narrow)
      → d.cur_interval_pkt < 2 ^ 31
      → Seen d.int_bits t
      → act t d ≡ some (o, d')
      → Kept d d' t o
  unfolding act
  act-Kept to_read d' o wide small s e =
      let same : (some (to_compare d.int_bits), d) ≡ (o, d') = ground (arith, e) in
      subst (λ (r : Option Task × DataValue). Kept d r.1 to_read r.0) same read-Kept
  act-Kept to_grow d' o wide small s e =
      let same : (none, record d { int_bits = d.int_bits + 1 }) ≡ (o, d') = ground (arith, e) in
      subst (λ (r : Option Task × DataValue). Kept d r.1 to_grow r.0) same grow-Kept
  act-Kept (to_compare bits) d' o wide small (one, s) e =
      elim (Option-cases (exceeds bits d.cur_interval_pkt)) [
        | inl none_there ↦ absurd (ground (arith, e, none_there))
        | inr (more, f) ↦ elim (Bool-cases more) [
          | inl yes_more ↦
              let same : (some to_grow, d) ≡ (o, d') = ground (arith, e, f, yes_more) in
              subst (λ (r : Option Task × DataValue). Kept d r.1 (to_compare bits) r.0) same
                (more-Kept bits)
          | inr no_more ↦
              let same : ◌≡◌ {A = Option Task × DataValue} (none, d) (o, d') =
                ground (arith, e, f, no_more) in
              subst (λ (r : Option Task × DataValue). Kept d r.1 (to_compare bits) r.0) same
                (enough-Kept bits s (
                  exceeds-false bits d.cur_interval_pkt one (omega arith) small
                    (f ∙ ap some no_more)))
        ]
      ]
  act-Kept to_keep d' o wide small s e =
      let same : (some (to_store d.cur_interval_pkt), d) ≡ (o, d') = ground (arith, e) in
      subst (λ (r : Option Task × DataValue). Kept d r.1 to_keep r.0) same keep-Kept
  act-Kept (to_store count) d' o wide small s e =
      let same : (some to_clear, record d { prev_interval_pkt = count }) ≡ (o, d') =
        ground (arith, e) in
      subst (λ (r : Option Task × DataValue). Kept d r.1 (to_store count) r.0) same
        (store-Kept count)
  act-Kept to_clear d' o wide small s e =
      let same : (some to_narrow, record d { cur_interval_pkt = 0 }) ≡ (o, d') =
        ground (arith, e) in
      subst (λ (r : Option Task × DataValue). Kept d r.1 to_clear r.0) same clear-Kept
  act-Kept to_narrow d' o wide small s e = absurd (wide refl)
