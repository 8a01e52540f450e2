-- ===== src/Prototype.antt =====
-- fully_in-kernel/main/dynamic-fix.c: the program on which fixed-point.h was tried out. Its
-- count_zero_64, count_zero_32, check_bit, add, subtract, multi and abs_val have the text that
-- `FixedPoint` models; divide and calc_log differ.
pub mod Division
mod Tests
pub mod Logarithm
use fide.Base.{
  ℕ, ◌+◌, ◌-◌, ◌*◌, ◌/◌, ◌%◌, ◌^◌, Bool, ◌&&◌, ◌||◌, Option, none, some, ltb, leb, ◌==◌,
  if◌then◌else◌, ◌>>=◌, u8, u32, add32, sub32, add64, slt32, sle32, sext64, asr, shl32, asr32,
  shr64, get_or,
}
use fide.LogTable.{log_table}
use fide.FixedPoint.{FixedPoint, Outcome, check_bit, fit, count_zero_32}

abbrev pub is_neg64 : ℕ → Bool
is_neg64 a = leb (2 ^ 63) a

abbrev pub neg64 : ℕ → ℕ
neg64 a = (2 ^ 64 - a) % 2 ^ 64

abbrev pub magnitude : ℕ → ℕ
magnitude a = if is_neg64 a then 2 ^ 64 - a else a

-- `a / b` of signed 64-bit integers: rounding towards 0. The one quotient that does not fit is
-- undefined, as is a division by 0.
unfoldable pub sdiv64 : ℕ → ℕ → Option ℕ
sdiv64 a b =
    let q = magnitude a / magnitude b in
    if b == 0
    then none
    else if a == 2 ^ 63 && b == 2 ^ 64 - 1
    then none
    else if is_neg64 a && is_neg64 b
    then some q
    else if is_neg64 a || is_neg64 b
    then some (neg64 q)
    else some q

abbrev pub asr64 : ℕ → ℕ → Option ℕ
asr64 a k = if ltb k 64 then some (asr (2 ^ 64) a k) else none

-- Signed, where fixed-point.h divides unsigned integers. The number that is printed is shifted by
-- `q`.
unfoldable pub divide : FixedPoint → FixedPoint → Outcome
divide first second = do
  (f, s) ← check_bit first second
  quotient ← sdiv64 (sext64 f.number * 2 ^ 32 % 2 ^ 64) (sext64 s.number)
  sum ← asr64 quotient (sub32 32 f.q)
  printed ← shr64 sum f.q
  result ← fit sum f.q
  some (result, f, s)

-- The number that calc_log returns: the shift by `24 - q` is of the whole sum.
unfoldable pub log_number : FixedPoint → ℕ → Option ℕ
log_number x leading_zero = do
  shifted ← shl32 x.number (add32 leading_zero 1)
  whole ← shl32 (sub32 (sub32 31 x.q) leading_zero) 24
  let entry = get_or log_table (u8 (asr (2 ^ 32) shifted 24)) 0
  number ← shr64 (add64 (sext64 whole) entry) (sub32 24 x.q)
  some (u32 number)

-- Before it stores that number it stores another one, for which it shifts an `int32_t` by 56.
unfoldable pub calc_log : FixedPoint → Option FixedPoint
calc_log x =
    let leading_zero = count_zero_32 (sext64 x.number) in
    if sle32 0 leading_zero && slt32 leading_zero 32
    then (do
      shifted ← shl32 x.number (add32 leading_zero 1)
      overwritten ← asr32 shifted 56
      number ← log_number x leading_zero
      some (record { number = number; q = 8 }))
    else some (record { number = 0; q = 8 })
