-- ===== src/Kernel/Entropy.antt =====
-- The callbacks `calc_entropy` and `detection` of fully_in-kernel/main/xdp_prog_kern.c.
use fide.Base.{◌||◌, Option, none, some, ◌==◌, if◌then◌else◌, ◌>>=◌, add32, mul32, sle32}
use fide.FixedPoint.{
  FixedPoint, minus_one, to_fixed_point, add, subtract, divide, calc_log, abs_val,
}
use fide.Kernel.Types.{LoggerValue, DataValue, Globals}

-- The part of `calc_entropy` that replaces a count of zero by a tenth. The two constants go
-- through `check_bit` at each division.
unfoldable pub replace_zeros :
    LoggerValue
    → FixedPoint
    → FixedPoint
    → FixedPoint
    → FixedPoint
    → Option (FixedPoint × FixedPoint)
replace_zeros value prev cur one ten =
    if value.prev == 0 || value.cur == 0
    then (do
      (prev', one', ten') ← if value.prev == 0 then divide one ten else some (prev, one, ten)
      (cur', one'', ten'') ← if value.cur == 0 then divide one' ten' else some (cur, one', ten')
      some (prev', cur'))
    else some (prev, cur)

-- `second`: the logarithm of the smaller of the two counts over the larger.
unfoldable pub ratio : FixedPoint → FixedPoint → Option FixedPoint
ratio prev cur =
    if sle32 cur.number prev.number
    then (do
      (second, cur', prev') ← divide cur prev
      second' ← calc_log second
      some (abs_val second'))
    else (do
      (second, prev', cur') ← divide prev cur
      second' ← calc_log second
      some (abs_val second'))

-- The value keeps its entry. The stored entropy is the one before `add` aligned it.
unfoldable pub calc_entropy :
    DataValue → LoggerValue → Globals → Option (Option LoggerValue × Globals)
calc_entropy ctx value g = do
  cur ← to_fixed_point value.cur ctx.int_bits
  prev ← to_fixed_point value.prev ctx.int_bits
  prev_invl ← to_fixed_point ctx.prev_interval_pkt ctx.int_bits
  one ← to_fixed_point 1 ctx.int_bits
  ten ← to_fixed_point 10 ctx.int_bits
  (prev', cur') ← replace_zeros value prev cur one ten
  (first, prev'', prev_invl') ← divide prev' prev_invl
  first' ← calc_log first
  let negated = record first' { number = mul32 first'.number minus_one }
  second ← ratio prev'' cur'
  (entropy, first'', second') ← add negated second
  (entropy_all, old_all, entropy') ← add g.entropy_all entropy
  some (
    some (record value { entropy = entropy }),
    record g { entropy_all = entropy_all; count = add32 g.count 1 },
  )

-- The key that is built where the distance exceeds the threshold is never used: the update of the
-- blacklist is commented out.
unfoldable pub detection : DataValue → LoggerValue → Globals → Option (Option LoggerValue × Globals)
detection ctx value g =
    if value.entropy.number == 0
    then some (some (record value { prev = value.cur; cur = 0 }), g)
    else (do
      (diff, entropy, avg) ← subtract value.entropy g.avg
      let g' = record g { avg = avg }
      if value.cur == 0
          then some (none, g')
          else some (some (record { prev = value.cur; cur = 0; entropy = entropy }), g'))
