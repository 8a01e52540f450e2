-- ===== src/FixedPoint/Sum.antt =====
-- `add` and `subtract` of fixed-point.h.
use native.Mathlib.Nat.{pow-le-pow_right}
use fide.Base.{ℕ, ◌+◌, ◌-◌, ◌*◌, ◌^◌, ◌≤◌, ◌<◌, ◌≡◌, some, arith, add32, sub32}
use fide.FixedPoint.{FixedPoint, check_bit, add, subtract}
use fide.FixedPoint.Align.{IsFormed, check_bit_lem}
use fide.FixedPoint.Fit.{rounded, fit_small, fit_exact, rounded_bounds, rounded_vanishes}

module _ (first second : FixedPoint) (p : IsFormed first) (r : IsFormed second)
    (same : first.q ≡ second.q) where
  aligned : check_bit first second ≡ some (first, second)
  aligned = ground (arith, check_bit_lem first second p r)

  pub add_small :
      first.number + second.number < 2 ^ 31
      → add first second ≡ some (rounded (first.number + second.number) first.q, first, second)
  unfolding add
  add_small h = rw aligned (ground (arith, fit_small (first.number + second.number) first.q))

  -- The sum of two numbers of one format that are not negative and do not overflow: the result
  -- has at most their fraction bits, and is off by less than one unit of its own last place.
  -- The arguments are left as they were.
  pub add_bounds :
      first.number + second.number < 2 ^ 31
      → (result : FixedPoint) × (add first second ≡ some (result, first, second))
        × (result.q ≤ first.q)
        × (result.number * 2 ^ (first.q - result.q) ≤ first.number + second.number)
        × (first.number + second.number < (result.number + 1) * 2 ^ (first.q - result.q))
  add_bounds h =
      let b = rounded_bounds (first.number + second.number) first.q in
      (rounded (first.number + second.number) first.q, add_small h, b.0, b.1, b.2)

  -- For all signs: where the two's-complement sum has a bit at or above the first fraction bit,
  -- which a negative one always has, `add` is that sum.
  pub add_exact :
      2 ^ first.q ≤ 2 * add32 first.number second.number
      → add first second
        ≡ some (record { number = add32 first.number second.number; q = first.q }, first, second)
  unfolding add
  add_exact h = rw aligned (ground (arith, fit_exact (add32 first.number second.number) first.q))

  pub subtract_exact :
      2 ^ first.q ≤ 2 * sub32 first.number second.number
      → subtract first second
        ≡ some (record { number = sub32 first.number second.number; q = first.q }, first, second)
  unfolding subtract
  subtract_exact h =
      rw aligned (ground (arith, fit_exact (sub32 first.number second.number) first.q))

  -- A sum below 2 ^ k in units of the last place is lost when the format has 2 k fraction bits or
  -- more: the result is zero although the sum need not be.
  pub add_vanishes :
      (k : ℕ)
      → first.number + second.number < 2 ^ k
      → k + k ≤ first.q
      → (result : FixedPoint) × (add first second ≡ some (result, first, second))
        × (result.number ≡ 0)
  add_vanishes k h deep = (
    rounded (first.number + second.number) first.q,
    add_small (
        let low : 2 ^ k ≤ 2 ^ 16 =
          pow-le-pow_right {n = 2} (omega arith) {i = k} {j = 16} (omega arith) in
        omega arith),
    rounded_vanishes (first.number + second.number) first.q k h deep,
  )
