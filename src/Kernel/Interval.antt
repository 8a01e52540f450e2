-- ===== src/Kernel/Interval.antt =====
-- The counting and the end of an interval in `xdp_filter_func` of
-- fully_in-kernel/main/xdp_prog_kern.c.
use fide.Base.{
  ℕ, Bool, true, false, Option, none, some, ◌==◌, if◌then◌else◌, ◌>>=◌, add32, sub32, add64, slt32,
  slt64, shl32,
}
use fide.FixedPoint.{to_fixed_point, divide}
use fide.Kernel.Types.{LoggerValue, DataValue, Logger, logger_map_size, Globals, for_each}
use fide.HashMap.{lookup, store, add_entry}
use fide.Kernel.Entropy.{calc_entropy, detection}

abbrev pub invl_ns : ℕ
invl_ns = 1000000000

-- The packet count of the interval, and one more integer bit when it needs one.
unfoldable pub count_packet : DataValue → Option DataValue
count_packet d = do
  let cur = add32 d.cur_interval_pkt 1
  limit ← shl32 1 (sub32 d.int_bits 1)
  let bits = if slt32 (sub32 limit 1) cur then add32 d.int_bits 1 else d.int_bits
  some (record d { cur_interval_pkt = cur; int_bits = bits })

abbrev pub new_value : LoggerValue
new_value = record { prev = 0; cur = 1; entropy = record { number = 0; q = 16 } }

-- The packet count of one source.
unfoldable pub record_source : ℕ → Logger → Logger
record_source saddr m = elim (lookup saddr m) [
  | some value ↦ store saddr (record value { cur = add32 value.cur 1 }) m
  | none ↦ add_entry logger_map_size saddr new_value m
]

-- The part under the lock: the new stamp, and whether this packet ends the interval. The first
-- packet of all only starts the clock.
unfoldable pub locked_claim : ℕ → ℕ → ℕ × Bool
locked_claim ts stamp =
    if stamp == 0
    then (ts, false)
    else if slt64 (add64 stamp invl_ns) ts
    then (ts, true)
    else (stamp, false)

-- The lock is taken only where the interval seems to be over.
unfoldable pub claim_interval : ℕ → ℕ → ℕ × Bool
claim_interval ts stamp =
    if slt64 (add64 stamp invl_ns) ts then locked_claim ts stamp else (stamp, false)

-- The end of an interval: `d` is the copy of `*tmp` that the callbacks get.
unfoldable pub end_interval : DataValue → Logger → Globals → Option (DataValue × Logger × Globals)
end_interval d m g = do
  (m', g') ← for_each (calc_entropy d) m g
  cnt ← to_fixed_point g'.count d.int_bits
  (avg, entropy_all, cnt') ← divide g'.entropy_all cnt
  (m'', g'') ← for_each (detection d) m' (record g' { avg = avg; entropy_all = entropy_all })
  some (
    record d { prev_interval_pkt = d.cur_interval_pkt; cur_interval_pkt = 0; int_bits = 4 },
    m'',
    record g'' { count = 0; entropy_all = record { number = 0; q = 16 } },
  )
