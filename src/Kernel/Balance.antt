-- ===== src/Kernel/Balance.antt =====
-- The packet counts of the sources against those of the interval, in `xdp_filter_func` of
-- fully_in-kernel/main/xdp_prog_kern.c.
use fide.Base.{
  ℕ, ◌+◌, ◌^◌, ◌≤◌, ◌<◌, ◌≡◌, refl, ◌∙◌, inl, inr, Option, none, some, [], ◌∷◌, arith, length,
  Option-cases, add32,
}
use fide.FixedPoint.{to_fixed_point, divide}
use fide.Kernel.Types.{DataValue, LoggerValue, Logger, logger_map_size, Globals, for_each}
use fide.HashMap.{lookup, store, add_entry, total, total-store, total-add_entry, length-store}
use fide.Kernel.Entropy.{calc_entropy, detection}
use fide.Kernel.Interval.{new_value, record_source, end_interval}

abbrev pub cur_of : LoggerValue → ℕ
cur_of v = v.cur

abbrev pub prev_of : LoggerValue → ℕ
prev_of v = v.prev

abbrev bumped : LoggerValue → LoggerValue
bumped v = record v { cur = add32 v.cur 1 }

known_source :
    (k : ℕ) (v : LoggerValue) (m : Logger)
    → lookup k m ≡ some v
    → record_source k m ≡ store k (bumped v) m
unfolding record_source
known_source k v m e = ground arith

new_source :
    (k : ℕ) (m : Logger)
    → lookup k m ≡ none
    → record_source k m ≡ add_entry logger_map_size k new_value m
unfolding record_source
new_source k m e = ground arith

-- One more packet of a source: the sum of the counts grows by one, unless the source is new and
-- the map is full; the counts of the interval before stay.
pub record_source-total :
    (k : ℕ) (m : Logger)
    → total cur_of m + 1 < 2 ^ 32
    → (total cur_of (record_source k m) ≤ total cur_of m + 1)
      × (length m < logger_map_size → total cur_of (record_source k m) ≡ total cur_of m + 1)
      × (total prev_of (record_source k m) ≡ total prev_of m)
record_source-total k m room = elim (Option-cases (lookup k m)) [
  | inl e ↦ rw (new_source k m e) (
      ground (
        arith,
        total-add_entry cur_of logger_map_size k new_value m,
        total-add_entry prev_of logger_map_size k new_value m,
      ))
  | inr (v, e) ↦ rw (known_source k v m e) (
      ground (arith, total-store cur_of k v (bumped v) m e, total-store prev_of k v (bumped v) m e))
]

pub length-record_source :
    (k : ℕ) (m : Logger) → length m ≤ logger_map_size → length (record_source k m) ≤ logger_map_size
unfolding add_entry
length-record_source k m h = elim (Option-cases (lookup k m)) [
  | inl e ↦ rw (new_source k m e) (ground arith)
  | inr (v, e) ↦ rw (known_source k v m e, length-store) h
]

-- A walk whose callback turns the count `h` of each value into the count `f` of what it keeps.
module _ {G : Type 0} (callback : LoggerValue → G → Option (Option LoggerValue × G))
    (f h : LoggerValue → ℕ)
    (turns : (v : LoggerValue) (g g' : G) (kept : Option LoggerValue)
      → callback v g ≡ some (kept, g')
      → elim kept [ none ↦ 0 | some w ↦ f w ] ≡ h v) where
  for_each-total :
      (m m' : Logger) (g g' : G)
      → for_each callback m g ≡ some (m', g')
      → (total f m' ≡ total h m) × (length m' ≤ length m)
  unfolding for_each total
  for_each-total [] m' g g' e = ground arith
  for_each-total ((k, v) ∷ m) m' g g' e = elim (Option-cases (callback v g)) [
    | inl n ↦ absurd (ground arith)
    | inr (r, c) ↦ elim (Option-cases (for_each callback m r.1)) [
      | inl n ↦ absurd (ground arith)
      | inr (q, d) ↦ ground (arith, turns v g r.1 r.0 c, for_each-total m q.0 r.1 q.1 d)
    ]
  ]

abbrev kept_count : (LoggerValue → ℕ) → Option LoggerValue → ℕ
kept_count f kept = elim kept [ none ↦ 0 | some w ↦ f w ]

calc_entropy-counts :
    (d : DataValue) (v : LoggerValue) (g g' : Globals) (kept : Option LoggerValue)
    → calc_entropy d v g ≡ some (kept, g')
    → (kept_count cur_of kept ≡ v.cur) × (kept_count prev_of kept ≡ v.prev)
unfolding calc_entropy
calc_entropy-counts d v g g' kept e = ground arith

detection-counts :
    (d : DataValue) (v : LoggerValue) (g g' : Globals) (kept : Option LoggerValue)
    → detection d v g ≡ some (kept, g')
    → (kept_count cur_of kept ≡ 0) × (kept_count prev_of kept ≡ v.cur)
unfolding detection
detection-counts d v g g' kept e = ground arith

total-zero : (m : Logger) → total (λ v. 0) m ≡ 0
unfolding total
total-zero [] = refl
total-zero ((k, v) ∷ m) = omega (arith, total-zero m)

entropy_walk :
    (d : DataValue) (m m' : Logger) (g g' : Globals)
    → for_each (calc_entropy d) m g ≡ some (m', g')
    → (total cur_of m' ≡ total cur_of m) × (length m' ≤ length m)
entropy_walk d m m' g g' e =
    for_each-total (calc_entropy d) cur_of cur_of
      (λ v a b kept c. (calc_entropy-counts d v a b kept c).0) m m' g g' e

detection_walk :
    (d : DataValue) (m m' : Logger) (g g' : Globals)
    → for_each (detection d) m g ≡ some (m', g')
    → (total prev_of m' ≡ total cur_of m) × (total cur_of m' ≡ 0) × (length m' ≤ length m)
detection_walk d m m' g g' e =
    let prevs =
      for_each-total (detection d) prev_of cur_of
        (λ v a b kept c. (detection-counts d v a b kept c).1) m m' g g' e in
    let curs =
      for_each-total (detection d) cur_of (λ v. 0)
        (λ v a b kept c. (detection-counts d v a b kept c).0) m m' g g' e in
    (prevs.0, curs.0 ∙ total-zero m, prevs.1)

-- The two walks of an interval's end.
pub record Walks (d d' : DataValue) (m m' : Logger) (g : Globals) : Type 0 where
  pub between : Logger
  pub after_first : Globals
  pub before_second : Globals
  pub after_second : Globals
  pub first_walk : for_each (calc_entropy d) m g ≡ some (between, after_first)
  pub second_walk : for_each (detection d) between before_second ≡ some (m', after_second)
  pub counts_moved :
      d' ≡ record d { prev_interval_pkt = d.cur_interval_pkt; cur_interval_pkt = 0; int_bits = 4 }

pub end_interval-Walks :
    (d d' : DataValue) (m m' : Logger) (g g' : Globals)
    → end_interval d m g ≡ some (d', m', g')
    → Walks d d' m m' g
unfolding end_interval
end_interval-Walks d d' m m' g g' e = elim (Option-cases (for_each (calc_entropy d) m g)) [
  | inl n ↦ absurd (ground arith)
  | inr (a, p) ↦ elim (Option-cases (to_fixed_point a.1.count d.int_bits)) [
    | inl n ↦ absurd (ground arith)
    | inr (cnt, q) ↦ elim (Option-cases (divide a.1.entropy_all cnt)) [
      | inl n ↦ absurd (ground arith)
      | inr (r, t) ↦
          let start = record (a.1) { avg = r.0; entropy_all = r.1 } in
          elim (Option-cases (for_each (detection d) a.0 start)) [
            | inl n ↦ absurd (ground arith)
            | inr (b, u) ↦ record {
              between = a.0;
              after_first = a.1;
              before_second = start;
              after_second = b.1;
              first_walk = p;
              second_walk = ground arith;
              counts_moved = ground arith;
            }
          ]
    ]
  ]
]

-- The end of an interval makes the counts of this interval those of the one before, source by
-- source in sum and for the interval, and starts all counts at zero. It adds no entry.
pub end_interval-totals :
    (d d' : DataValue) (m m' : Logger) (g g' : Globals)
    → end_interval d m g ≡ some (d', m', g')
    → (total prev_of m' ≡ total cur_of m)
      × (total cur_of m' ≡ 0)
      × (d'.prev_interval_pkt ≡ d.cur_interval_pkt)
      × (d'.cur_interval_pkt ≡ 0)
      × (length m' ≤ length m)
end_interval-totals d d' m m' g g' e =
    let w = end_interval-Walks d d' m m' g g' e in
    ground (
      arith,
      entropy_walk d m w.between g w.after_first w.first_walk,
      detection_walk d w.between m' w.before_second w.after_second w.second_walk,
      w.counts_moved,
    )
