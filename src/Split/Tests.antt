-- ===== src/Split/Tests.antt =====
-- Runs of the program of user+ebpf/main/xdp_prog_kern.c, and its theorems at such inputs.
use fide.Base.{◌≡◌, refl, false, none, some, [], ◌∷◌, arith}
use fide.Packet.{Bytes, load16, load32}
use fide.HashMap.{lookup, store, add_entry}
use fide.Kernel.Types
use fide.Kernel.Handler
use fide.Kernel.Interval.{count_packet, record_source as kernel_record, claim_interval, new_value}
use fide.Kernel.Verdicts.{IsIpv4}
use fide.Split.{
  DataValue, LoggerValue, State, drop, record_source, final_verdict, count_source, xdp_filter_func,
}
use fide.Split.Kernel.{forget, forget_verdict, counts_alike}

-- From 10.0.0.1.
abbrev packet : Bytes
packet =
    0 ∷ 0 ∷ 0 ∷ 0 ∷ 0 ∷ 0 ∷ 0 ∷ 0 ∷ 0 ∷ 0 ∷ 0 ∷ 0 ∷ 8 ∷ 0 ∷ 69 ∷ 0 ∷ 0 ∷ 20 ∷ 0 ∷ 0 ∷ 0 ∷ 0 ∷ 64
    ∷ 17 ∷ 0 ∷ 0 ∷ 10 ∷ 0 ∷ 0 ∷ 1 ∷ 10 ∷ 0 ∷ 0 ∷ 2 ∷ []

packet-IsIpv4 : IsIpv4 packet
packet-IsIpv4 = record { complete = omega arith; type_high = refl; type_low = refl }

abbrev counts : DataValue
counts = record { prev_interval_pkt = 4; cur_interval_pkt = 2 }

abbrev seen : LoggerValue
seen = record { prev = 4; cur = 2; entropy = 0 }

abbrev start : State
start = record {
  logger = (0x0100000a, seen) ∷ [];
  blacklist = λ k. some 1;
  data_entry = some counts;
  tx_port = some 0;
}

abbrev after : State
after = record start {
  logger = (0x0100000a, record seen { cur = 3 }) ∷ [];
  data_entry = some (record counts { cur_interval_pkt = 3 });
}

listed_run : xdp_filter_func packet start ≡ some (drop, after)
unfolding xdp_filter_func load16 load32 count_source final_verdict record_source lookup store
listed_run = refl

short_not-IsIpv4 : ¬ IsIpv4 (0 ∷ 1 ∷ [])
short_not-IsIpv4 = λ q. absurd (omega (arith, q.complete))

abbrev kernel_counts : Types.DataValue
kernel_counts = record { prev_interval_pkt = 4; cur_interval_pkt = 2; threshold = 0; int_bits = 4 }

abbrev kernel_start : Types.State
kernel_start = record {
  logger = [];
  blacklist = λ k. none;
  interval = some kernel_counts;
  timestamp = some 1000;
  tx_port = some 0;
  globals = record {
    count = 0;
    entropy_all = record { number = 0; q = 16 };
    avg = record { number = 0; q = 16 };
  };
}

abbrev kernel_after : Types.State
kernel_after = record kernel_start {
  logger = (0x0100000a, new_value) ∷ [];
  interval = some (record kernel_counts { cur_interval_pkt = 3 });
}

kernel_run : Handler.xdp_filter_func 2000 packet kernel_start ≡ some (Types.redirect, kernel_after)
unfolding Handler.xdp_filter_func Handler.count_source Handler.check_interval load16 load32
    count_packet kernel_record lookup add_entry claim_interval Types.redirect_map
kernel_run = refl

goes_on : (claim_interval 2000 1000).1 ≡ false
unfolding claim_interval
goes_on = refl

counts_alike_example :
    xdp_filter_func packet (forget kernel_start)
    ≡ some (forget_verdict Types.redirect, forget kernel_after)
counts_alike_example =
    counts_alike 2000 1000 packet kernel_counts kernel_start kernel_after Types.redirect
      packet-IsIpv4 refl refl refl goes_on kernel_run
