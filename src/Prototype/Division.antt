-- ===== src/Prototype/Division.antt =====
-- divide of dynamic-fix.c against that of fixed-point.h, and its result for a negative divisor.
use native.Mathlib.Nat.{div-le_self, div-lt_iff_lt-mul, lt-div-mul-add, le-div_iff_mul-le}
use fide.Base.{
  div_mono, ℕ, ◌+◌, ◌-◌, ◌*◌, ◌/◌, ◌%◌, ◌^◌, ◌≤◌, ◌<◌, ◌≡◌, ap, ◌∙◌, some, arith, u32, sext64,
  shr64, pow_pos,
}
use fide.FixedPoint.{FixedPoint, check_bit, fit}
use fide.FixedPoint as Header
use fide.FixedPoint.Align.{IsFormed, check_bit_lem}
use fide.FixedPoint.Quotient.{nested}
use fide.FixedPoint.Fit.{fit_large}
use fide.Prototype.{sdiv64, asr64, neg64, divide}

-- Two operands without the sign bit.
sdiv64-div64 : (a b : ℕ) → a < 2 ^ 63 → b < 2 ^ 63 → 0 < b → sdiv64 a b ≡ some (a / b)
unfolding sdiv64
sdiv64-div64 a b h k z = ground arith

asr64-shr64 : (a k : ℕ) → a < 2 ^ 63 → asr64 a k ≡ shr64 a k
asr64-shr64 a k h = ground arith

-- The divisor with the sign bit.
sdiv64-neg :
    (a b : ℕ) → a < 2 ^ 63 → 2 ^ 63 ≤ b → b < 2 ^ 64 → sdiv64 a b ≡ some (neg64 (a / (2 ^ 64 - b)))
unfolding sdiv64
sdiv64-neg a b h k z = ground arith

asr64-neg :
    (m k : ℕ)
    → 0 < m
    → m < 2 ^ 63
    → k < 64
    → asr64 (neg64 m) k ≡ some (2 ^ 64 - 1 - (m - 1) / 2 ^ k)
asr64-neg m k z h l = ground arith

-- Rounding a quotient down after taking one from the dividend loses at most one.
div-pred : (m d : ℕ) → 0 < m → 0 < d → ((m - 1) / d ≤ m / d) × (m / d ≤ (m - 1) / d + 1)
div-pred m d z pos = (
  div_mono d pos (omega arith),
  omega (
    arith,
    (div-lt_iff_lt-mul {k = d} {x = m} {y = (m - 1) / d + 2} pos).1
        (omega (arith, lt-div-mul-add {a = m - 1} {b = d} pos)),
  ),
)

module _ (first second : FixedPoint) (p : IsFormed first) (r : IsFormed second)
    (same : first.q ≡ second.q) where
  aligned : check_bit first second ≡ some (first, second)
  aligned = ground (arith, check_bit_lem first second p r)

  -- On numbers of one format that are not negative, the second positive, both versions of divide
  -- give the same.
  pub divide_same :
      first.number < 2 ^ 31
      → 0 < second.number
      → second.number < 2 ^ 31
      → divide first second ≡ Header.divide first second
  unfolding divide Header.divide
  divide_same h z k =
      let dividend = first.number * 2 ^ 32 in
      rw aligned (
        ground (
          arith,
          sdiv64-div64 dividend second.number,
          asr64-shr64 (dividend / second.number) (32 - first.q),
          div-le_self dividend second.number,
        ))

  module _ (low : first.number < 2 ^ 31) (pos : 0 < first.number)
      (neg : 2 ^ 31 ≤ second.number) where
    -- The divisor without its sign, and the quotient with 32 fraction bits.
    abbrev beta : ℕ
    beta = 2 ^ 32 - second.number

    abbrev wide : ℕ
    wide = first.number * 2 ^ 32 / beta

    wide_pos : 0 < wide
    wide_pos = omega (
      arith,
      (le-div_iff_mul-le {k = beta} {x = 1} {y = first.number * 2 ^ 32}
            (omega (arith, r.number_fits))).1
          (omega arith),
    )

    wide_small : wide < 2 ^ 63
    wide_small = omega (arith, div-le_self (first.number * 2 ^ 32) beta)

    -- The quotient, rounded away from 0, without its sign.
    abbrev steps : ℕ
    steps = (wide - 1) / 2 ^ (32 - first.q)

    sign_extended : (b : ℕ) → 2 ^ 31 ≤ b → b < 2 ^ 32 → sext64 b ≡ b + (2 ^ 64 - 2 ^ 32)
    sign_extended b h k = ground arith

    divided :
        sdiv64 (sext64 first.number * 2 ^ 32 % 2 ^ 64) (sext64 second.number) ≡ some (neg64 wide)
    divided =
        let wider = second.number + (2 ^ 64 - 2 ^ 32) in
        ap (λ t. sdiv64 t (sext64 second.number)) {x = sext64 first.number * 2 ^ 32 % 2 ^ 64}
          {y = first.number * 2 ^ 32} (ground arith)
        ∙ ap (λ t. sdiv64 (first.number * 2 ^ 32) t) (sign_extended second.number neg r.number_fits)
        ∙ sdiv64-neg (first.number * 2 ^ 32) wider (omega arith) (omega arith)
            (omega (arith, r.number_fits))
        ∙ ap (λ t. some (neg64 (first.number * 2 ^ 32 / t))) {x = 2 ^ 64 - wider} {y = beta}
            (omega arith)

    steps_small : steps < 2 ^ 63
    steps_small = omega (arith, wide_small, wide_pos, div-le_self (wide - 1) (2 ^ (32 - first.q)))

    divide-steps :
        divide first second
        ≡ some (record { number = u32 (2 ^ 64 - 1 - steps); q = first.q }, first, second)
    unfolding divide
    divide-steps =
        let sum = 2 ^ 64 - 1 - steps in
        ground (
          arith,
          aligned,
          divided,
          asr64-neg wide (32 - first.q) wide_pos wide_small,
          steps_small,
          p.q_fits,
          fit_large sum first.q,
        )

    -- The quotient rounded down, by its cut to `q` fraction bits.
    steps_bounds :
        (steps * beta ≤ first.number * 2 ^ first.q)
        × (first.number * 2 ^ first.q < (steps + 2) * beta)
    steps_bounds =
        let exact = first.number * 2 ^ first.q in
        let d = 2 ^ (32 - first.q) in
        let cut : wide / d ≡ exact / beta = nested first.number beta first.q p.q_fits in
        let (below, above) = div-pred wide d wide_pos (pow_pos (32 - first.q)) in
        let room : 0 < beta = omega (arith, r.number_fits) in
        (
          (le-div_iff_mul-le {k = beta} {x = steps} {y = exact} room).0 (omega (arith, below, cut)),
          (div-lt_iff_lt-mul {k = beta} {x = exact} {y = steps + 2} room).0
              (omega (arith, above, cut)),
        )

    -- divide by a negative number of the same format is, where the quotient fits, a negative
    -- number -(t + 1) with all fraction bits of the format, and the quotient to within one unit of
    -- the last place.
    pub divide_signed :
        first.number * 2 ^ first.q / (2 ^ 32 - second.number) < 2 ^ 31
        → (t : ℕ) × (divide first second
            ≡ some (record { number = 2 ^ 32 - (t + 1); q = first.q }, first, second))
          × (t * (2 ^ 32 - second.number) ≤ first.number * 2 ^ first.q)
          × (first.number * 2 ^ first.q < (t + 2) * (2 ^ 32 - second.number))
    divide_signed fits =
        let (low_bound, high_bound) = steps_bounds in
        let exact = first.number * 2 ^ first.q in
        let few : steps ≤ exact / beta =
          (le-div_iff_mul-le {k = beta} {x = steps} {y = exact} (omega (arith, r.number_fits))).1
            low_bound in
        (
          steps,
          divide-steps
              ∙ ap (λ n. some (record { number = n; q = first.q }, first, second))
                  (omega (arith, few, fits)),
          low_bound,
          high_bound,
        )
