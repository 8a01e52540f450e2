-- ===== src/FixedPoint/Align.antt =====
-- `check_bit` of fixed-point.h.
use fide.Base.{◌^◌, ◌≤◌, ◌<◌, ◌≡◌, max, some, arith}
use fide.FixedPoint.{FixedPoint, check_bit}

-- Both fields are `int32_t` patterns, and the count of fraction bits is one a word can have.
pub record IsFormed (x : FixedPoint) : Type 0 where
  pub number_fits : x.number < 2 ^ 32
  pub q_fits : x.q ≤ 32

-- Both numbers are given the larger count of fraction bits, and keep their digits: the shift
-- that should scale them is by 0, since the count is computed from the `q` just stored.
pub check_bit_lem :
    (first second : FixedPoint)
    → IsFormed first
    → IsFormed second
    → check_bit first second
      ≡ some (record first { q = max first.q second.q }, record second { q = max first.q second.q })
unfolding check_bit
check_bit_lem first second p r = ground arith
