-- ===== src/FixedPoint/Zeros.antt =====
-- `count_zero_64` and `count_zero_32` of fixed-point.h against the length of a number in binary.
use native.Mathlib.Nat.{div-le_self, div-lt_iff_lt-mul, le-div_iff_mul-le}
use fide.Base.{
  ℕ, zero, suc, ◌+◌, ◌^◌, ◌≤◌, ◌<◌, ◌≡◌, arith, digits_of, bit_length, bit_length-div, pow_pos,
  pow-add,
}
use fide.FixedPoint.{minus_one, narrow, last_digit, count_zero_64, count_zero_32}

-- One step moves `k` digits from `x` to the count.
narrow_lem :
    (k n x : ℕ)
    → x < 2 ^ (k + k)
    → x < 2 ^ 31
    → k ≤ n
    → n ≤ 64
    → let (m, y) = narrow k (n, x) in
      (m + bit_length x ≡ n + bit_length y) × (y < 2 ^ k) × (y ≤ x) × (n ≤ m + k) × (m ≤ n)
unfolding narrow
narrow_lem k n x wide small room top = ground (
  arith,
  pow-add k k,
  pow_pos k,
  bit_length-div k x,
  div-le_self x (2 ^ k),
  div-lt_iff_lt-mul {k = 2 ^ k} {x = x} {y = 2 ^ k},
  le-div_iff_mul-le {k = 2 ^ k} {x = 1} {y = x},
)

last_digit_lem : (n x : ℕ) → x < 4 → 2 ≤ n → n ≤ 64 → last_digit (n, x) + bit_length x ≡ n
unfolding last_digit bit_length digits_of
last_digit_lem n zero h low high = ground arith
last_digit_lem n (suc zero) h low high = ground arith
last_digit_lem n (suc (suc zero)) h low high = ground arith
last_digit_lem n (suc (suc (suc zero))) h low high = ground arith
last_digit_lem n (suc (suc (suc (suc x)))) h low high = absurd (omega arith)

-- The steps from `16` on, which the two functions share.
steps_lem :
    (n x : ℕ)
    → x < 2 ^ 32
    → x < 2 ^ 31
    → 32 ≤ n
    → n ≤ 64
    → last_digit (narrow 2 (narrow 4 (narrow 8 (narrow 16 (n, x))))) + bit_length x ≡ n
steps_lem n x wide small low high =
    let a = narrow 16 (n, x) in
    let b = narrow 8 a in
    let c = narrow 4 b in
    let d = narrow 2 c in
    let la = narrow_lem 16 n x wide small (omega arith) high in
    let lb = narrow_lem 8 a.0 a.1 (omega arith) (omega arith) (omega arith) (omega arith) in
    let lc = narrow_lem 4 b.0 b.1 (omega arith) (omega arith) (omega arith) (omega arith) in
    let ld = narrow_lem 2 c.0 c.1 (omega arith) (omega arith) (omega arith) (omega arith) in
    let le = last_digit_lem d.0 d.1 (omega arith) (omega arith) (omega arith) in omega arith

-- On a number that fits 31 bits, `count_zero_64` counts the zeros above its leading one.
pub count_zero_64_lem : (x : ℕ) → x < 2 ^ 31 → count_zero_64 x + bit_length x ≡ 64
unfolding count_zero_64
count_zero_64_lem x h =
    let start = narrow 32 (64, x) in
    let first = narrow_lem 32 64 x (omega arith) h (omega arith) (omega arith) in
    let rest = steps_lem start.0 start.1 (omega arith) (omega arith) (omega arith) (omega arith) in
    ground arith

pub count_zero_32_lem : (x : ℕ) → x < 2 ^ 31 → count_zero_32 x + bit_length x ≡ 32
unfolding count_zero_32
count_zero_32_lem x h = ground (arith, steps_lem 32 x)

-- Any other 64-bit pattern, a negative one included, is answered by -1.
pub count_zero_64_large : (x : ℕ) → 2 ^ 31 ≤ x → x < 2 ^ 64 → count_zero_64 x ≡ minus_one
unfolding count_zero_64
count_zero_64_large x low high = ground arith

pub count_zero_32_large : (x : ℕ) → 2 ^ 31 ≤ x → x < 2 ^ 64 → count_zero_32 x ≡ minus_one
unfolding count_zero_32
count_zero_32_large x low high = ground arith
