-- ===== src/Kernel/Racing/Fits.antt =====
-- In any order of the steps the packet count of the interval fits `int_bits` in the end, where
-- nothing comes in between when it is set.
use native.Mathlib.Nat.{pow-le-pow_right}
use mathlib.Core.Path.{subst}
use fide.Base.{
  ℕ, ◌⊎◌, inl, inr, refl, ◌+◌, ◌-◌, ◌*◌, ◌^◌, ◌≤◌, ◌<◌, ◌≡◌, sym, arith, List, [], ◌∷◌, ◌++◌,
  Option, none, some, Every, Every-split, Every-join, or_done,
}
use fide.Kernel.Types.{DataValue}
use fide.Kernel.Racing.{
  Task, to_read, to_grow, to_compare, to_keep, to_store, to_clear, to_narrow, IsLast, act, Machine,
  Moves, arrive, advance, claim, Runs, begin, continue,
}
use fide.Kernel.Racing.Growth.{
  tally, growing, pending, Seen, tally-split, tally-or_done, all_later, same_pow, double, Kept,
  act-Kept,
}

-- With the bits that will be added, the count fits but for those who may yet add one.
record Fits (m : Machine) : Type 0 where
  low : 1 ≤ m.counts.int_bits
  high : m.counts.int_bits < 2 ^ 32
  small : m.counts.cur_interval_pkt < 2 ^ 31
  seen : Every (Seen m.counts.int_bits) m.tasks
  fits :
      2 * (m.counts.cur_interval_pkt + 1)
      ≤ 2 ^ (m.counts.int_bits + tally growing m.tasks) + 2 * tally pending m.tasks

or_done-Every :
    {A : Type 0} (P : A → Type 0) (o : Option A) (b : List A)
    → Every P (or_done o [])
    → Every P b
    → Every P (or_done o b)
unfolding Every
or_done-Every P none b h k = k
or_done-Every P (some t) b (h, _) k = (h, k)

Kept-Fits :
    (m : Machine) (a b : List Task) (t : Task) (o : Option Task) (d : DataValue)
    → m.tasks ≡ a ++ t ∷ b
    → Kept m.counts d t o
    → Fits m
    → Fits (record { counts = d; tasks = a ++ or_done o b })
Kept-Fits m a b t o d e k w =
    let (before, _, after) =
      Every-split (Seen m.counts.int_bits) a t b
        (subst (Every (Seen m.counts.int_bits)) e w.seen) in
    let later = all_later m.counts.int_bits d.int_bits k.more in
    let g = tally growing (a ++ b) in
    let p = tally pending (a ++ b) in
    let old : 2 * (m.counts.cur_interval_pkt + 1)
        ≤ 2 ^ (m.counts.int_bits + (growing t + g)) + 2 * (pending t + p) =
      rw (sym (tally-split growing a t b), sym (tally-split pending a t b), sym e) w.fits in
    record {
      low = omega (arith, w.low, k.more);
      high = k.bounded;
      small = omega (arith, k.lower, w.small);
      seen =
          Every-join (Seen d.int_bits) a (or_done o b) (later a before)
            (or_done-Every (Seen d.int_bits) o b k.next_seen (later b after));
      fits = rw (tally-or_done growing a o b, tally-or_done pending a o b) (k.still g p old);
    }

-- The task has read nothing of `int_bits`.
abbrev pub Unread : Task → Type 0
Unread (to_compare bits) = ⊥
Unread to_read = Unit
Unread to_grow = Unit
Unread to_keep = Unit
Unread (to_store count) = Unit
Unread to_clear = Unit
Unread to_narrow = Unit

-- Where `int_bits` is set at the end of an interval, four bits hold the packets that have come
-- since the count was set to zero, and no packet is between the read of `int_bits` and the
-- comparison.
abbrev pub Undisturbed : Task → ℕ → List Task → Type 0
Undisturbed to_narrow count others = (count < 8) × Every Unread others
Undisturbed to_read count others = Unit
Undisturbed to_grow count others = Unit
Undisturbed (to_compare bits) count others = Unit
Undisturbed to_keep count others = Unit
Undisturbed (to_store n) count others = Unit
Undisturbed to_clear count others = Unit

unfoldable pub IsCalm : {m n : Machine} → Moves m n → Type 0
IsCalm (arrive m room) = Unit
IsCalm (claim m a b t d e last room h) = Unit
IsCalm (advance m a b t o d e room h) = Undisturbed t m.counts.cur_interval_pkt (a ++ b)

unfoldable pub AllCalm : {m n : Machine} → Runs m n → Type 0
AllCalm (begin m) = Unit
AllCalm (continue m n k r x) = AllCalm r × IsCalm x

Unread-Seen : (now : ℕ) (t : Task) → Unread t → Seen now t
Unread-Seen now to_read h = tt
Unread-Seen now to_grow h = tt
Unread-Seen now (to_compare bits) h = elim h [ ]
Unread-Seen now to_keep h = tt
Unread-Seen now (to_store count) h = tt
Unread-Seen now to_clear h = tt
Unread-Seen now to_narrow h = tt

all_seen : (now : ℕ) (ts : List Task) → Every Unread ts → Every (Seen now) ts
unfolding Every
all_seen now [] h = tt
all_seen now (t ∷ ts) (h, hs) = (Unread-Seen now t h, all_seen now ts hs)

-- The step that sets `int_bits` at the end of an interval.
narrow-Fits :
    (d : DataValue) (ts : List Task)
    → d.cur_interval_pkt < 8
    → Every Unread ts
    → Fits (record { counts = record d { int_bits = 4 }; tasks = ts })
narrow-Fits d ts h u =
    let wide =
      pow-le-pow_right {n = 2} (omega arith) {i = 4} {j = 4 + tally growing ts} (omega arith) in
    record {
      low = omega arith;
      high = omega arith;
      small = omega arith;
      seen = all_seen 4 ts u;
      fits = omega (arith, wide, h);
    }

-- Whether a task is the one that sets `int_bits`.
narrow-cases : (t : Task) → (t ≡ to_narrow) ⊎ ¬ (t ≡ to_narrow)
narrow-cases to_narrow = inl refl
narrow-cases to_read = inr (λ e. ground (arith, e))
narrow-cases to_grow = inr (λ e. ground (arith, e))
narrow-cases to_keep = inr (λ e. ground (arith, e))
narrow-cases to_clear = inr (λ e. ground (arith, e))
narrow-cases (to_compare bits) = inr (λ e. ground (arith, e))
narrow-cases (to_store count) = inr (λ e. ground (arith, e))

advance-Fits :
    (m : Machine) (a b : List Task) (t : Task) (o : Option Task) (d : DataValue)
    → m.tasks ≡ a ++ t ∷ b
    → m.counts.int_bits + 1 < 2 ^ 32
    → act t m.counts ≡ some (o, d)
    → Undisturbed t m.counts.cur_interval_pkt (a ++ b)
    → Fits m
    → Fits (record { counts = d; tasks = a ++ or_done o b })
unfolding act
advance-Fits m a b t o d e room h calm w = elim (narrow-cases t) [
  | inr other ↦
      let (_, here, _) =
        Every-split (Seen m.counts.int_bits) a t b
          (subst (Every (Seen m.counts.int_bits)) e w.seen) in
      Kept-Fits m a b t o d e (act-Kept m.counts w.low room t d o other w.small here h) w
  | inl is_narrow ↦
      let (few, unread) =
        subst (λ x. Undisturbed x m.counts.cur_interval_pkt (a ++ b)) is_narrow calm in
      let same : ◌≡◌ {A = Option Task × DataValue} (none, record (m.counts) { int_bits = 4 })
          (o, d) =
        ground (arith, h, is_narrow) in
      subst
        (λ (r : Option Task × DataValue).
          Fits (record { counts = r.1; tasks = a ++ or_done r.0 b }))
        same (narrow-Fits m.counts (a ++ b) few unread)
]

-- A packet that goes on to end the interval counts no more than one that is done.
claim-Kept : (d d' : DataValue) (t : Task) → Kept d d' t none → Kept d d' t (some to_keep)
unfolding Every tally
claim-Kept d d' t k = record {
  lower = k.lower;
  more = k.more;
  bounded = k.bounded;
  next_seen = (tt, tt);
  still = k.still;
}

last-other : (t : Task) → IsLast t → ¬ (t ≡ to_narrow)
last-other t h e = elim (subst IsLast e h) [ ]

Moves-Fits : (m n : Machine) (x : Moves m n) → IsCalm x → Fits m → Fits n
unfolding Every tally IsCalm
Moves-Fits m n (arrive _ room) calm w = record {
  low = w.low;
  high = w.high;
  small = omega arith;
  seen = (tt, w.seen);
  fits = omega (
    arith,
    w.fits,
    same_pow (m.counts.int_bits + tally growing m.tasks)
        (m.counts.int_bits + (0 + tally growing m.tasks)) (omega arith),
  );
}
Moves-Fits m n (advance _ a b t o d e room h) calm w = advance-Fits m a b t o d e room h calm w
Moves-Fits m n (claim _ a b t d e last room h) calm w =
    let (_, here, _) =
      Every-split (Seen m.counts.int_bits) a t b
        (subst (Every (Seen m.counts.int_bits)) e w.seen) in
    let kept = act-Kept m.counts w.low room t d none (last-other t last) w.small here h in
    Kept-Fits m a b t (some to_keep) d e (claim-Kept m.counts d t kept) w

Runs-Fits : (m n : Machine) (r : Runs m n) → AllCalm r → Fits m → Fits n
unfolding AllCalm
Runs-Fits m n (begin _) calm w = w
Runs-Fits m n (continue _ k _ r x) (before, calm) w =
    Moves-Fits k n x calm (Runs-Fits m k r before w)

-- In whatever order the processors take their steps for the packets that come and for the ends of
-- intervals, once no packet is being counted the packet count of the interval fits its bits below
-- the sign, if it did before; where neither count overflows, and whenever the end of an interval
-- sets `int_bits`, less than eight packets have come since it set the count to zero, and no packet
-- is between its read of `int_bits` and the comparison.
pub Runs-fit :
    (d e : DataValue)
    → 1 ≤ d.int_bits
    → d.int_bits < 2 ^ 32
    → d.cur_interval_pkt < 2 ^ 31
    → d.cur_interval_pkt < 2 ^ (d.int_bits - 1)
    → (r : Runs (record { counts = d; tasks = [] }) (record { counts = e; tasks = [] })) → AllCalm r
    → e.cur_interval_pkt < 2 ^ (e.int_bits - 1)
unfolding Every tally
Runs-fit d e low high small h r calm =
    let start : Fits (record { counts = d; tasks = [] }) = record {
      low = low;
      high = high;
      small = small;
      seen = tt;
      fits =
          omega (arith, double d.int_bits low, same_pow d.int_bits (d.int_bits + 0) (omega arith));
    } in
    let w : Fits (record { counts = e; tasks = [] }) =
      Runs-Fits (record { counts = d; tasks = [] }) (record { counts = e; tasks = [] }) r calm
        start in
    omega
      (arith, w.fits, double e.int_bits w.low, same_pow e.int_bits (e.int_bits + 0) (omega arith))
