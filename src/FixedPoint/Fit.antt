-- ===== src/FixedPoint/Fit.antt =====
-- The end that `add`, `subtract` and `divide` of fixed-point.h share.
use native.Mathlib.Nat.{
  div-mul-le_self, lt-div-mul-add, div-lt_iff_lt-mul, pow-le-pow_right, div-le_self, zero-div,
}
use fide.Base.{
  ℕ, zero, suc, ◌+◌, ◌-◌, ◌*◌, ◌/◌, ◌^◌, ◌≤◌, ◌<◌, ◌≡◌, ap, min, some, arith, bit_length,
  bit_length-le, bit_length-gt, bit_length-zero, pow_pos, pow_suc, u32, sext64,
}
use fide.FixedPoint.{FixedPoint, fit}
use fide.FixedPoint.Zeros.{count_zero_64_lem, count_zero_64_large}

-- `sum` with at most as many fraction bits as it has digits, the rest cut off.
unfoldable pub rounded : ℕ → ℕ → FixedPoint
rounded sum q =
    let kept = min q (bit_length sum) in record { number = sum / 2 ^ (q - kept); q = kept }

pub fit_small : (sum q : ℕ) → sum < 2 ^ 31 → q ≤ 32 → fit sum q ≡ some (rounded sum q)
unfolding fit rounded
fit_small sum q h r =
    let zeros = count_zero_64_lem sum h in
    let short = bit_length-le 31 sum h in
    let len = bit_length sum in
    ground (arith, div-le_self sum (2 ^ (q - len)), ap (λ (k : ℕ). sum / 2 ^ k) (step q len))
  where
    step : (a b : ℕ) → a - b ≡ a - min a b
    step a b = omega arith

-- A pattern with the sign bit, or a long one, is cut to 32 bits and keeps its fraction bits.
pub fit_large :
    (sum q : ℕ)
    → 2 ^ 31 ≤ sum
    → sum < 2 ^ 64
    → q ≤ 32
    → fit sum q ≡ some (record { number = u32 sum; q = q })
unfolding fit
fit_large sum q low high r = rw (count_zero_64_large sum low high) (ground arith)

-- What is cut off is less than one unit of the last place that is kept.
pub rounded_bounds :
    (sum q : ℕ)
    → let r = rounded sum q in
      (r.q ≤ q) × (r.number * 2 ^ (q - r.q) ≤ sum) × (sum < (r.number + 1) * 2 ^ (q - r.q))
unfolding rounded
rounded_bounds sum q =
    let d = 2 ^ (q - min q (bit_length sum)) in
    (
      omega arith,
      div-mul-le_self sum d,
      omega (arith, lt-div-mul-add {a = sum} {b = d} (pow_pos _)),
    )

pub rounded_exact :
    (sum q : ℕ) → q ≤ bit_length sum → rounded sum q ≡ record { number = sum; q = q }
unfolding rounded
rounded_exact sum q h = ground (arith, ap (λ (k : ℕ). sum / 2 ^ k) (none_cut q (bit_length sum) h))
  where
    none_cut : (a b : ℕ) → a ≤ b → a - min a b ≡ 0
    none_cut a b h = omega arith

-- Digits enough for every fraction bit.
full_length : (q x : ℕ) → 2 ^ q ≤ 2 * x → q ≤ bit_length x
full_length zero x h = omega arith
full_length (suc q) x h = omega (arith, bit_length-gt q x (omega (arith, pow_suc q)))

-- A 32-bit result, positive or negative, whose pattern has the digits is kept as it is.
pub fit_exact :
    (x q : ℕ)
    → x < 2 ^ 32
    → q ≤ 32
    → 2 ^ q ≤ 2 * x
    → fit (sext64 x) q ≡ some (record { number = x; q = q })
fit_exact x q wide short long =
    ground (arith, fit_small x q, fit_large (sext64 x) q, rounded_exact x q (full_length q x long))

-- A sum with half as many digits as fraction bits, or fewer, is cut off whole.
pub rounded_vanishes : (sum q k : ℕ) → sum < 2 ^ k → k + k ≤ q → (rounded sum q).number ≡ 0
unfolding rounded
rounded_vanishes sum q k h r =
    let short = bit_length-le k sum h in
    let cut = q - min q (bit_length sum) in
    let below : 2 ^ k ≤ 2 ^ cut = pow-le-pow_right (omega arith) (omega arith) in
    let low = (div-lt_iff_lt-mul {k = 2 ^ cut} {x = sum} {y = 1} (pow_pos cut)).1 (omega arith) in
    omega arith

pub fit_zero : (q : ℕ) → q ≤ 32 → fit 0 q ≡ some (record { number = 0; q = 0 })
unfolding rounded
fit_zero q h =
    ground (arith, fit_small 0 q, bit_length-zero, zero-div (2 ^ (q - min q (bit_length 0))))
