-- ===== src/Kernel/Overflow.antt =====
-- Counts for which the end of an interval in fully_in-kernel/main/xdp_prog_kern.c has no meaning.
use fide.Base.{ℕ, ◌≤◌, ◌≡◌, none, [], ◌∷◌, ◌++◌, arith, Option-cases, inl, inr}
use fide.FixedPoint.{to_fixed_point}
use fide.Kernel.Types.{DataValue, LoggerValue, Logger, Globals, for_each}
use fide.Kernel.Entropy.{calc_entropy}
use fide.Kernel.Interval.{end_interval}

-- The first argument of `to_fixed_point` is the shift count, so it must be below the width.
pub to_fixed_point_wide :
    (fixed_point q : ℕ) → 32 ≤ fixed_point → to_fixed_point fixed_point q ≡ none
unfolding to_fixed_point
to_fixed_point_wide fixed_point q h = ground arith

calc_entropy_wide :
    (d : DataValue) (v : LoggerValue) (g : Globals) → 32 ≤ v.cur → calc_entropy d v g ≡ none
unfolding calc_entropy
calc_entropy_wide d v g h = ground (arith, to_fixed_point_wide v.cur d.int_bits h)

walk_wide :
    (d : DataValue) (k : ℕ) (v : LoggerValue) (before after : Logger) (g : Globals)
    → 32 ≤ v.cur
    → for_each (calc_entropy d) (before ++ (k, v) ∷ after) g ≡ none
unfolding for_each
walk_wide d k v [] after g h = ground (arith, calc_entropy_wide d v g h)
walk_wide d k v ((j, w) ∷ m) after g h = elim (Option-cases (calc_entropy d w g)) [
  | inl e ↦ ground arith
  | inr (r, e) ↦ ground (arith, walk_wide d k v m after r.1 h)
]

-- One source with 32 packets or more in the interval is enough: the end of the interval then
-- shifts an `int32_t` by its packet count, which is not below the width.
pub end_interval_wide :
    (d : DataValue) (k : ℕ) (v : LoggerValue) (before after : Logger) (g : Globals)
    → 32 ≤ v.cur
    → end_interval d (before ++ (k, v) ∷ after) g ≡ none
unfolding end_interval
end_interval_wide d k v before after g h = ground (arith, walk_wide d k v before after g h)
