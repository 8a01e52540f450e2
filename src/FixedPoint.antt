-- ===== src/FixedPoint.antt =====
-- fixed-point.h: signed fixed-point numbers whose count of fraction bits is part of the value.
-- A function that changes a struct through its pointer returns the new struct beside its result.
-- `none` stands for C's undefined behaviour: a shift count outside the width, a division by zero.
pub mod Zeros
pub mod Align
pub mod Fit
pub mod Sum
pub mod Quotient
pub mod Product
pub mod Log
pub mod Sign
mod Tests
use fide.Base.{
  ℕ, ◌+◌, ◌-◌, ◌*◌, ◌%◌, ◌^◌, bit_and, bit_xor, ◌&&◌, Option, some, ltb, ◌==◌, if◌then◌else◌, ◌>>=◌,
  u8, u32, add32, sub32, mul32, add64, slt32, sle32, sext64, asr, shl32, asr32, shl64, shr64, div64,
  get_or,
}
use fide.LogTable.{log_table}

-- `struct fixed_point`: both fields are `int32_t` patterns.
pub record FixedPoint : Type 0 where
  pub number : ℕ
  pub q : ℕ

abbrev pub minus_one : ℕ
minus_one = 2 ^ 32 - 1

-- Both return an `int64_t`.
unfoldable pub low32 : FixedPoint → ℕ
low32 x = sext64 (bit_and x.number 0xffff)

unfoldable pub high32 : FixedPoint → ℕ
high32 x = sext64 (asr (2 ^ 32) x.number 16)

unfoldable pub to_fixed_point : ℕ → ℕ → Option FixedPoint
to_fixed_point fixed_point q = do
  one ← shl32 1 fixed_point
  some (record { number = mul32 q one; q = fixed_point })

-- `y = x >> k; if (y != 0) { n = n - k; x = y; }`, on the pair of `n` and `x`.
unfoldable pub narrow : ℕ → ℕ × ℕ → ℕ × ℕ
narrow k (n, x) = let y = u32 (asr (2 ^ 64) x k) in if y == 0 then (n, x) else (sub32 n k, y)

-- `y = x >> 1; if (y != 0) return n - 2; return n - x;`
unfoldable pub last_digit : ℕ × ℕ → ℕ
last_digit (n, x) =
    let y = u32 (asr (2 ^ 64) x 1) in if y == 0 then u32 (n + 2 ^ 64 - x) else sub32 n 2

unfoldable pub count_zero_64 : ℕ → ℕ
count_zero_64 x =
    if asr (2 ^ 64) x 31 == 0
    then last_digit (narrow 2 (narrow 4 (narrow 8 (narrow 16 (narrow 32 (64, x))))))
    else minus_one

unfoldable pub count_zero_32 : ℕ → ℕ
count_zero_32 x =
    if asr (2 ^ 64) x 31 == 0
    then last_digit (narrow 2 (narrow 4 (narrow 8 (narrow 16 (32, x)))))
    else minus_one

-- Each branch stores the new `q` before it computes the shift count from it.
unfoldable pub check_bit : FixedPoint → FixedPoint → Option (FixedPoint × FixedPoint)
check_bit first second =
    if slt32 second.q first.q
    then (do
      let moved = record second { q = first.q }
      number ← shl32 moved.number (sub32 first.q moved.q)
      some (first, record moved { number = number }))
    else if slt32 first.q second.q
    then (do
      let moved = record first { q = second.q }
      number ← shl32 moved.number (sub32 second.q moved.q)
      some (record moved { number = number }, second))
    else some (first, second)

-- The end that `add`, `subtract` and `divide` share: `sum` with `q` fraction bits, with fewer of
-- them where the count of used bits is below `q`.
unfoldable pub fit : ℕ → ℕ → Option FixedPoint
fit sum q =
    let allowed_fixed_point_bits = sub32 64 (count_zero_64 sum) in
    if slt32 allowed_fixed_point_bits q
    then (do
      kept ← shr64 sum (sub32 q allowed_fixed_point_bits)
      some (record { number = u32 kept; q = allowed_fixed_point_bits }))
    else some (record { number = u32 sum; q = q })

-- The result, and what the two arguments have become.
abbrev pub Outcome : Type 0
Outcome = Option (FixedPoint × FixedPoint × FixedPoint)

unfoldable pub add : FixedPoint → FixedPoint → Outcome
add first second = do
  (f, s) ← check_bit first second
  result ← fit (sext64 (add32 f.number s.number)) f.q
  some (result, f, s)

unfoldable pub subtract : FixedPoint → FixedPoint → Outcome
subtract first second = do
  (f, s) ← check_bit first second
  result ← fit (sext64 (sub32 f.number s.number)) f.q
  some (result, f, s)

-- `u_int64_t` arithmetic: a negative operand counts as a large positive one.
unfoldable pub divide : FixedPoint → FixedPoint → Outcome
divide first second = do
  (f, s) ← check_bit first second
  quotient ← div64 (sext64 f.number * 2 ^ 32 % 2 ^ 64) (sext64 s.number)
  sum ← shr64 quotient (sub32 32 f.q)
  result ← fit sum f.q
  some (result, f, s)

-- The sum of the four partial products, for each side of the test `fixed_point_bits >= 16`.
unfoldable pub partial_products : ℕ → ℕ → ℕ → ℕ → ℕ → ℕ → Option ℕ
partial_products bits temp high_f low_f high_s low_s = do
  high ← shl32 (u32 temp) bits
  low ← asr32 (mul32 low_f low_s) (sub32 32 bits)
  if sle32 16 bits
      then (do
        left ← asr32 (mul32 low_f high_s) (sub32 bits 16)
        right ← asr32 (mul32 high_f low_s) (sub32 bits 16)
        some (add32 (add32 (add32 high left) right) low))
      else do
        left ← shl32 (mul32 low_f high_s) (sub32 16 bits)
        right ← shl32 (mul32 high_f low_s) (sub32 16 bits)
        some (add32 (add32 (add32 high left) right) low)

-- The halves are taken before `check_bit`.
unfoldable pub multiply : FixedPoint → FixedPoint → Outcome
multiply first second = do
  let high_f = u32 (high32 first)
  let low_f = u32 (low32 first)
  let high_s = u32 (high32 second)
  let low_s = u32 (low32 second)
  (f, s) ← check_bit first second
  let temp = sext64 (mul32 high_f high_s)
  limit ← shl64 1 (sub32 (sub32 32 f.q) 1)
  let bits = if ltb limit temp then sub32 31 (sub32 64 (count_zero_64 temp)) else f.q
  prod ← partial_products bits temp high_f low_f high_s low_s
  some (record { number = prod; q = bits }, f, s)

unfoldable pub calc_log : FixedPoint → Option FixedPoint
calc_log x =
    let leading_zero = count_zero_32 (sext64 x.number) in
    if sle32 0 leading_zero && slt32 leading_zero 32
    then (do
      shifted ← shl32 x.number (add32 leading_zero 1)
      whole ← shl32 (sub32 (sub32 31 x.q) leading_zero) 24
      part ← shr64 (get_or log_table (u8 (asr (2 ^ 32) shifted 24)) 0) (sub32 24 x.q)
      some (record { number = u32 (add64 (sext64 whole) part); q = 8 }))
    else some (record { number = 0; q = 8 })

-- The number at the pointer becomes the result.
unfoldable pub abs_val : FixedPoint → FixedPoint
abs_val x =
    let mask = asr (2 ^ 32) x.number 31 in record x { number = bit_xor (add32 x.number mask) mask }
