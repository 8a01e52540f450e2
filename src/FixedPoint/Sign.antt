-- ===== src/FixedPoint/Sign.antt =====
-- `abs_val` of fixed-point.h.
use fide.Base.{◌-◌, ◌^◌, ◌<◌, ◌≡◌, arith, ltb, if◌then◌else◌, add32, bit_xor_ones, bit_xor-zero}
use fide.FixedPoint.{FixedPoint, abs_val}

-- The absolute value of the number, with `q` as it was. The most negative number stays itself.
pub abs_val_lem :
    (x : FixedPoint)
    → x.number < 2 ^ 32
    → abs_val x
      ≡ record x { number = if ltb x.number (2 ^ 31) then x.number else 2 ^ 32 - x.number }
unfolding abs_val
abs_val_lem x h =
    ground (arith, bit_xor_ones 32 (add32 x.number (2 ^ 32 - 1)), bit_xor-zero x.number x.number)
