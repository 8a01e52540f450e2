-- ===== src/FixedPoint/Quotient.antt =====
-- `divide` of fixed-point.h.
use native.Mathlib.Nat.{
  div-div-eq-div-mul, mul-div-mul_right, le-div_iff_mul-le, div-lt_iff_lt-mul, mul_assoc, zero-div,
}
use fide.Base.{
  ℕ, ◌+◌, ◌-◌, ◌*◌, ◌/◌, ◌^◌, ◌≤◌, ◌<◌, ◌≡◌, ap, sym, ◌∙◌, none, some, arith, pow-add, pow_pos,
  sext64,
}
use fide.FixedPoint.{FixedPoint, check_bit, divide}
use fide.FixedPoint.Align.{IsFormed, check_bit_lem}
use fide.FixedPoint.Fit.{rounded, fit_small, fit_zero, rounded_bounds}

-- Dividing in 32 fraction bits and cutting to `q` of them is dividing in `q` fraction bits.
pub nested : (a b q : ℕ) → q ≤ 32 → a * 2 ^ 32 / b / 2 ^ (32 - q) ≡ a * 2 ^ q / b
nested a b q h =
    let d = 2 ^ (32 - q) in
    let whole : a * 2 ^ 32 ≡ a * 2 ^ q * d =
      ap (λ k. a * 2 ^ k) {x = 32} {y = q + (32 - q)} (omega arith)
      ∙ ap (λ t. a * t) (pow-add q (32 - q))
      ∙ sym (mul_assoc a (2 ^ q) d) in
    div-div-eq-div-mul (a * 2 ^ 32) b d
    ∙ ap (λ t. t / (b * d)) whole
    ∙ mul-div-mul_right (a * 2 ^ q) b (pow_pos (32 - q))

small_quotient : (a b : ℕ) → a < b → a / b ≡ 0
small_quotient a b h =
    omega (arith, (div-lt_iff_lt-mul {k = b} {x = a} {y = 1} (omega arith)).1 (omega arith))

module _ (first second : FixedPoint) (p : IsFormed first) (r : IsFormed second)
    (same : first.q ≡ second.q) where
  aligned : check_bit first second ≡ some (first, second)
  aligned = ground (arith, check_bit_lem first second p r)

  -- Division by a number with no digit set has no value, whatever its count of fraction bits.
  pub divide_zero : second.number ≡ 0 → divide first second ≡ none
  unfolding divide
  divide_zero h = rw aligned (ground arith)

  module _ (pos_first : first.number < 2 ^ 31) (pos_second : 0 < second.number)
      (low_second : second.number < 2 ^ 31)
      (fits : first.number * 2 ^ first.q / second.number < 2 ^ 31) where
    divide_small :
        divide first second
        ≡ some (rounded (first.number * 2 ^ first.q / second.number) first.q, first, second)
    unfolding divide
    divide_small = rw aligned (
        ground (
          arith,
          nested first.number second.number first.q p.q_fits,
          fit_small (first.number * 2 ^ first.q / second.number) first.q,
        ))

    -- The quotient of two numbers of one format that are not negative, by one that is not zero,
    -- where it fits: the result is the exact quotient to within one unit of its own last place,
    -- with at most the fraction bits of the format. The arguments are left as they were.
    pub divide_bounds :
        (result : FixedPoint) × (divide first second ≡ some (result, first, second))
        × (result.q ≤ first.q)
        × (result.number * 2 ^ (first.q - result.q) * second.number ≤ first.number * 2 ^ first.q)
        × (first.number * 2 ^ first.q
            < (result.number + 1) * 2 ^ (first.q - result.q) * second.number)
    divide_bounds =
        let exact = first.number * 2 ^ first.q in
        let out = rounded (exact / second.number) first.q in
        let b = rounded_bounds (exact / second.number) first.q in
        (
          out,
          divide_small,
          b.0,
          (le-div_iff_mul-le {y = exact} pos_second).0 b.1,
          (div-lt_iff_lt-mul {x = exact} pos_second).0 b.2,
        )

  -- A negative divisor is read as a large unsigned number, so the quotient is zero whatever the
  -- dividend, if that is not negative.
  pub divide_negative :
      first.number < 2 ^ 31
      → 2 ^ 31 ≤ second.number
      → divide first second ≡ some (record { number = 0; q = 0 }, first, second)
  unfolding divide
  divide_negative pos neg = rw aligned (
      ground (
        arith,
        small_quotient (first.number * 2 ^ 32) (sext64 second.number),
        zero-div (2 ^ (32 - first.q)),
        fit_zero first.q p.q_fits,
      ))
