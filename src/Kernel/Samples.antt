-- ===== src/Kernel/Samples.antt =====
-- A packet to fully_in-kernel/main/xdp_prog_kern.c that ends an interval, and the state before and
-- after it.
use fide.Base.{◌≡◌, refl, [], ◌∷◌, none, some}
use fide.Packet.{Bytes, load16, load32}
use fide.FixedPoint.{
  FixedPoint, to_fixed_point, divide, check_bit, fit, count_zero_64, count_zero_32, narrow,
  last_digit, calc_log, abs_val, add, subtract,
}
use fide.LogTable.{log_table}
use fide.HashMap.{lookup, store}
use fide.Kernel.Types.{DataValue, Logger, Globals, State, redirect, redirect_map, for_each}
use fide.Kernel.Entropy.{calc_entropy, detection, replace_zeros, ratio}
use fide.Kernel.Interval.{count_packet, record_source, claim_interval, locked_claim, end_interval}
use fide.Kernel.Handler.{check_interval, count_source, xdp_filter_func}

-- From 10.0.0.1, whose address is 0x0100000a as a little-endian word.
abbrev pub packet : Bytes
packet =
    0 ∷ 0 ∷ 0 ∷ 0 ∷ 0 ∷ 0 ∷ 0 ∷ 0 ∷ 0 ∷ 0 ∷ 0 ∷ 0 ∷ 8 ∷ 0 ∷ 69 ∷ 0 ∷ 0 ∷ 20 ∷ 0 ∷ 0 ∷ 0 ∷ 0 ∷ 64
    ∷ 17 ∷ 0 ∷ 0 ∷ 10 ∷ 0 ∷ 0 ∷ 1 ∷ 10 ∷ 0 ∷ 0 ∷ 2 ∷ []

abbrev pub zero_point : FixedPoint
zero_point = record { number = 0; q = 16 }

abbrev pub quiet : Globals
quiet = record { count = 0; entropy_all = zero_point; avg = zero_point }

abbrev pub counts : DataValue
counts = record { prev_interval_pkt = 4; cur_interval_pkt = 5; threshold = 10; int_bits = 4 }

abbrev pub sources : Logger
sources =
    (0x0100000a, record { prev = 3; cur = 1; entropy = zero_point })
    ∷ (2, record { prev = 0; cur = 4; entropy = zero_point })
    ∷ (3, record { prev = 1; cur = 0; entropy = zero_point })
    ∷ []

abbrev pub before_end : State
before_end = record {
  logger = sources;
  blacklist = λ k. none;
  interval = some counts;
  timestamp = some 5;
  tx_port = some 4;
  globals = quiet;
}

-- The packet is the sixth of the interval, and ends it.
abbrev pub after_end : State
after_end = record before_end {
  logger =
      (0x0100000a, record { prev = 2; cur = 0; entropy = record { number = 33554432; q = 16 } })
      ∷ (2, record { prev = 4; cur = 0; entropy = record { number = 0; q = 0 } })
      ∷ (3, record { prev = 0; cur = 0; entropy = record { number = 0; q = 0 } })
      ∷ [];
  interval = some (record counts { prev_interval_pkt = 6; cur_interval_pkt = 0 });
  timestamp = some 2_000_000_000;
}

pub end_run : xdp_filter_func 2_000_000_000 packet before_end ≡ some (redirect, after_end)
unfolding xdp_filter_func count_source check_interval load32 load16 count_packet record_source
    lookup store claim_interval locked_claim redirect_map end_interval for_each calc_entropy
    detection replace_zeros ratio to_fixed_point divide check_bit fit count_zero_64 count_zero_32
    narrow last_digit calc_log abs_val add subtract log_table
end_run = refl
