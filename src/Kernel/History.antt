-- ===== src/Kernel/History.antt =====
-- What fully_in-kernel/main/xdp_prog_kern.c keeps of each source, against the history of the packets
-- and of the ends of intervals. Packets: over one packet. Runs: over any.
pub mod Packets
pub mod Runs
mod Tests
use native.Mathlib.Decide.{ℕ_discrete}
use mathlib.Core.Path.{subst}
use fide.Base.{
  ℕ, zero, suc, ◌+◌, ◌^◌, ◌<◌, ◌≤◌, ◌≡◌, ◌≢◌, refl, sym, ap, ◌∙◌, arith, List, [], ◌∷◌, Option,
  none, some, length, ◌==◌, ltb, if◌then◌else◌, Bool, true, false, Option-cases, Bool-cases, inl,
  inr, add32,
}
use fide.Packet.{Bytes}
use fide.HashMap.{lookup, store}
use fide.HashMap.Walk.{Distinct}
use fide.HashMap.Laws.{
  upsert, upsert-Distinct, upsert-found, upsert-missing, lookup-store, lookup-upsert-other,
}
use fide.Kernel.Types.{
  LoggerValue, DataValue, Logger, logger_map_size, Globals, State, Verdict, for_each,
}
use fide.Kernel.Balance.{Walks, end_interval-Walks}
use fide.Kernel.Entropy.{calc_entropy, detection}
use fide.Kernel.Interval.{new_value, record_source, claim_interval, end_interval}
use fide.Kernel.Handler.{check_interval, xdp_filter_func}

-- The packets of a source in the interval before and in this one, none where it has no entry.
unfoldable pub numbers : Option LoggerValue → ℕ × ℕ
numbers none = (0, 0)
numbers (some v) = (v.prev, v.cur)

-- The walked entries, with what the callback kept of the first one.
abbrev with_kept : Option LoggerValue → ℕ → Logger → Logger
with_kept none k m = m
with_kept (some w) k m = (k, w) ∷ m

with_kept-Distinct :
    (o : Option LoggerValue) (k : ℕ) (m : Logger)
    → lookup k m ≡ none
    → Distinct m
    → Distinct (with_kept o k m)
unfolding Distinct
with_kept-Distinct none k m h u = u
with_kept-Distinct (some w) k m h u = (h, u)

module _ {G : Type 0} (callback : LoggerValue → G → Option (Option LoggerValue × G)) where
  for_each-none :
      (j : ℕ) (m m' : Logger) (g g' : G)
      → for_each callback m g ≡ some (m', g')
      → lookup j m ≡ none
      → lookup j m' ≡ none
  unfolding for_each lookup
  for_each-none j [] m' g g' e h = ground arith
  for_each-none j ((k, v) ∷ m) m' g g' e h = elim (Option-cases (callback v g)) [
    | inl n ↦ absurd (ground arith)
    | inr (r, c) ↦ elim (Option-cases (for_each callback m r.1)) [
      | inl n ↦ absurd (ground arith)
      | inr (q, d) ↦ ground (arith, for_each-none j m q.0 r.1 q.1 d)
    ]
  ]

  for_each-Distinct :
      (m m' : Logger) (g g' : G) → for_each callback m g ≡ some (m', g') → Distinct m → Distinct m'
  unfolding for_each Distinct
  for_each-Distinct [] m' g g' e h =
      let same : [] ≡ m' = ground (arith, e) in subst Distinct same tt
  for_each-Distinct ((k, v) ∷ m) m' g g' e (once, u) = elim (Option-cases (callback v g)) [
    | inl n ↦ absurd (ground arith)
    | inr (r, c) ↦ elim (Option-cases (for_each callback m r.1)) [
      | inl n ↦ absurd (ground arith)
      | inr (q, d) ↦
          let same : with_kept r.0 k q.0 ≡ m' = ground (arith, e, c, d) in
          subst Distinct same (
            with_kept-Distinct r.0 k q.0 (for_each-none k m q.0 r.1 q.1 d once)
              (for_each-Distinct m q.0 r.1 q.1 d u))
    ]
  ]

  -- A walk whose callback turns the numbers of each value by `turn` does so for each source.
  for_each-numbers :
      (turn : ℕ × ℕ → ℕ × ℕ) (m m' : Logger) (g g' : G)
      → turn (0, 0) ≡ (0, 0)
      → ((v : LoggerValue) (a b : G) (kept : Option LoggerValue)
          → callback v a ≡ some (kept, b)
          → numbers kept ≡ turn (numbers (some v)))
      → Distinct m
      → for_each callback m g ≡ some (m', g')
      → (j : ℕ) → numbers (lookup j m') ≡ turn (numbers (lookup j m))
  unfolding for_each Distinct lookup numbers
  for_each-numbers turn [] m' g g' z turns u e j = ground (arith, z)
  for_each-numbers turn ((k, v) ∷ m) m' g g' z turns (once, u) e j =
      elim (Option-cases (callback v g)) [
        | inl n ↦ absurd (ground arith)
        | inr (r, c) ↦ elim (Option-cases (for_each callback m r.1)) [
          | inl n ↦ absurd (ground arith)
          | inr (q, d) ↦ ground (
            arith,
            turns v g r.1 r.0 c,
            z,
            for_each-none k m q.0 r.1 q.1 d once,
            for_each-numbers turn m q.0 r.1 q.1 z turns u d j,
          )
        ]
      ]

calc_entropy-numbers :
    (d : DataValue) (v : LoggerValue) (g g' : Globals) (kept : Option LoggerValue)
    → calc_entropy d v g ≡ some (kept, g')
    → numbers kept ≡ numbers (some v)
unfolding calc_entropy numbers
calc_entropy-numbers d v g g' kept e = ground (arith, e)

detection-numbers :
    (d : DataValue) (v : LoggerValue) (g g' : Globals) (kept : Option LoggerValue)
    → detection d v g ≡ some (kept, g')
    → numbers kept ≡ ((numbers (some v)).1, 0)
unfolding detection numbers
detection-numbers d v g g' kept e = ground (arith, e)

-- The end of an interval makes the packets of each source those of the interval before.
pub end_interval-numbers :
    (d d' : DataValue) (m m' : Logger) (g g' : Globals)
    → Distinct m
    → end_interval d m g ≡ some (d', m', g')
    → Distinct m'
      × ((j : ℕ) → numbers (lookup j m') ≡ ((numbers (lookup j m)).1, 0))
      × (d'
          ≡ record d { prev_interval_pkt = d.cur_interval_pkt; cur_interval_pkt = 0; int_bits = 4 })
end_interval-numbers d d' m m' g g' u e =
    let w = end_interval-Walks d d' m m' g g' e in
    let mid = for_each-Distinct (calc_entropy d) m w.between g w.after_first w.first_walk u in
    (
      for_each-Distinct (detection d) w.between m' w.before_second w.after_second w.second_walk mid,
      λ j.
          for_each-numbers (detection d) (λ r. (r.1, 0)) w.between m' w.before_second w.after_second
            refl (detection-numbers d) mid w.second_walk j
          ∙ ap (λ (r : ℕ × ℕ). (r.1, 0))
              (for_each-numbers (calc_entropy d) (λ r. r) m w.between g w.after_first refl
                (calc_entropy-numbers d) u w.first_walk j),
      w.counts_moved,
    )

pub record_source-upsert :
    (k : ℕ) (m : Logger)
    → record_source k m
      ≡ upsert (λ (v : LoggerValue). record v { cur = add32 v.cur 1 }) new_value logger_map_size k m
unfolding record_source upsert
record_source-upsert k m = refl

-- A packet of a source adds one to its packets of this interval.
pub record_source-numbers :
    (k : ℕ) (m : Logger)
    → (numbers (lookup k m)).1 + 1 < 2 ^ 32
    → length m < logger_map_size
    → numbers (lookup k (record_source k m))
      ≡ ((numbers (lookup k m)).0, (numbers (lookup k m)).1 + 1)
unfolding numbers
record_source-numbers k m room slot = elim (Option-cases (lookup k m)) [
  | inl e ↦
      rw (record_source-upsert k m, upsert-missing _ new_value logger_map_size k m e)
        (unfold lookup in ground (arith, e))
  | inr (v, e) ↦
      let u = record v { cur = add32 v.cur 1 } in
      rw
        (
          record_source-upsert k m,
          upsert-found (λ (v : LoggerValue). record v { cur = add32 v.cur 1 }) new_value
              logger_map_size k v m e,
        )
        (ground (arith, e, lookup-store k u v m e))
]
