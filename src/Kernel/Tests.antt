-- ===== src/Kernel/Tests.antt =====
-- Runs of the in-kernel program on small packets and states, and its theorems at such inputs.
use fide.Base.{ℕ, ◌≡◌, ◌↔◌, inl, refl, none, some, List, [], ◌∷◌, ◌++◌, arith}
use fide.FixedPoint.{
  FixedPoint, to_fixed_point, divide, check_bit, fit, count_zero_64, count_zero_32, narrow,
  last_digit, calc_log, abs_val, add, subtract,
}
use fide.LogTable.{log_table}
use fide.Packet.{Bytes, load16, load32}
use fide.Kernel.Types.{
  DataValue, LoggerValue, Logger, Globals, State, Verdict, drop, redirect, redirect_map, for_each,
}
use fide.HashMap.{total, lookup, store}
use fide.Kernel.Entropy.{calc_entropy, detection, replace_zeros, ratio}
use fide.Kernel.Interval.{count_packet, record_source, locked_claim, claim_interval, end_interval}
use fide.Kernel.Handler.{check_interval, count_source, xdp_filter_func}
use fide.Kernel.Verdicts.{IsIpv4, listed_as, drop_iff}
use fide.Kernel.Counting.{IsSized, Sized, IsRunning, xdp_filter_func-Sized, xdp_filter_func-some}
use fide.Kernel.Conservation.{
  IsAccounted, IsBalanced, Holds, xdp_filter_func-IsAccounted, xdp_filter_func-IsBalanced,
}
use fide.Kernel.Timing.{Entry, enter, ended_at, Spaced, ended_at-Spaced}
use fide.Kernel.Overflow.{end_interval_wide}

-- From 10.0.0.1, whose address is 0x0100000a as a little-endian word.
abbrev packet : Bytes
packet =
    0 ∷ 0 ∷ 0 ∷ 0 ∷ 0 ∷ 0 ∷ 0 ∷ 0 ∷ 0 ∷ 0 ∷ 0 ∷ 0 ∷ 8 ∷ 0 ∷ 69 ∷ 0 ∷ 0 ∷ 20 ∷ 0 ∷ 0 ∷ 0 ∷ 0 ∷ 64
    ∷ 17 ∷ 0 ∷ 0 ∷ 10 ∷ 0 ∷ 0 ∷ 1 ∷ 10 ∷ 0 ∷ 0 ∷ 2 ∷ []

abbrev zero_point : FixedPoint
zero_point = record { number = 0; q = 16 }

abbrev seven : LoggerValue
seven = record { prev = 2; cur = 7; entropy = zero_point }

abbrev counts : DataValue
counts = record { prev_interval_pkt = 2; cur_interval_pkt = 7; threshold = 10; int_bits = 4 }

abbrev quiet : Globals
quiet = record { count = 0; entropy_all = zero_point; avg = zero_point }

abbrev start : State
start = record {
  logger = (0x0100000a, seven) ∷ [];
  blacklist = λ k. none;
  interval = some counts;
  timestamp = some 1000;
  tx_port = some 4;
  globals = quiet;
}

-- The eighth packet takes one more integer bit.
abbrev after : State
after = record start {
  logger = (0x0100000a, record seven { cur = 8 }) ∷ [];
  interval = some (record counts { cur_interval_pkt = 8; int_bits = 5 });
}

abbrev guarded : State
guarded = record start { blacklist = λ k. some 1 }

run_start : xdp_filter_func 2000 packet start ≡ some (redirect, after)
unfolding xdp_filter_func count_source check_interval load32 load16 count_packet record_source
    lookup store claim_interval redirect_map
run_start = refl

run_guarded : xdp_filter_func 2000 packet guarded ≡ some (drop, guarded)
unfolding xdp_filter_func load32 load16
run_guarded = refl

packet-IsIpv4 : IsIpv4 packet
packet-IsIpv4 = record { complete = omega arith; type_high = refl; type_low = refl }

counts-IsSized : IsSized counts
counts-IsSized = record {
  bits_low = omega arith;
  bits_high = omega arith;
  fits = omega arith;
  needed = inl refl;
}

start-IsAccounted : IsAccounted counts start.logger
start-IsAccounted = record {
  cur_within = unfold total in omega arith;
  prev_within = unfold total in omega arith;
  size_within = omega arith;
}

start-IsBalanced : IsBalanced counts start.logger
start-IsBalanced = record { cur_total = unfold total in refl; prev_total = unfold total in refl }

xdp_filter_func-IsBalanced_example : Holds IsBalanced after.interval after.logger
xdp_filter_func-IsBalanced_example =
    xdp_filter_func-IsBalanced 2000 packet start after redirect counts-IsSized (omega arith)
      (omega arith) start-IsBalanced run_start

xdp_filter_func-IsAccounted_example : Holds IsAccounted after.interval after.logger
xdp_filter_func-IsAccounted_example =
    xdp_filter_func-IsAccounted 2000 packet start after redirect counts-IsSized (omega arith)
      start-IsAccounted run_start

xdp_filter_func-Sized_example : Sized after.interval
xdp_filter_func-Sized_example =
    xdp_filter_func-Sized 2000 packet start after redirect counts-IsSized (omega arith) run_start

start-IsRunning : IsRunning 2000 start.timestamp
unfolding claim_interval
start-IsRunning = refl

xdp_filter_func-some_example : (r : Verdict × State) × (xdp_filter_func 2000 packet start ≡ some r)
xdp_filter_func-some_example =
    xdp_filter_func-some 2000 packet start counts-IsSized (omega arith) start-IsRunning

drop_iff_example :
    (drop ≡ drop) ↔ (IsIpv4 packet × ((rule : ℕ) × (listed_as guarded packet ≡ some rule)))
drop_iff_example = drop_iff 2000 packet guarded guarded drop run_guarded

short_not-IsIpv4 : ¬ IsIpv4 (8 ∷ 0 ∷ [])
short_not-IsIpv4 v = absurd (omega (arith, v.complete))

-- Two processors find the same interval over; one ends it.
abbrev race : List Entry
race = record { ts = 3_000_000_000; seen = 5 } ∷ record { ts = 3_000_000_007; seen = 5 } ∷ []

race_ends : ended_at race 5 ≡ 3_000_000_000 ∷ []
unfolding ended_at locked_claim enter
race_ends = refl

ended_at-Spaced_example : Spaced 5 (ended_at race 5)
ended_at-Spaced_example = ended_at-Spaced race 5 (omega arith) (omega arith) (omega arith)

-- The end of an interval over three sources, by evaluation.
abbrev three : Logger
three =
    (1, record { prev = 3; cur = 2; entropy = zero_point })
    ∷ (2, record { prev = 0; cur = 4; entropy = zero_point })
    ∷ (3, record { prev = 1; cur = 0; entropy = zero_point })
    ∷ []

abbrev second : DataValue
second = record { prev_interval_pkt = 4; cur_interval_pkt = 6; threshold = 10; int_bits = 4 }

abbrev second_after : DataValue
second_after = record { prev_interval_pkt = 6; cur_interval_pkt = 0; threshold = 10; int_bits = 4 }

abbrev three_after : Logger
three_after =
    (1, record { prev = 2; cur = 0; entropy = record { number = 33554432; q = 16 } })
    ∷ (2, record { prev = 4; cur = 0; entropy = record { number = 0; q = 0 } })
    ∷ (3, record { prev = 0; cur = 0; entropy = record { number = 0; q = 0 } })
    ∷ []

end_second : end_interval second three quiet ≡ some (second_after, three_after, quiet)
unfolding end_interval for_each calc_entropy detection replace_zeros ratio to_fixed_point divide
    check_bit fit count_zero_64 count_zero_32 narrow last_digit calc_log abs_val add subtract
    log_table
end_second = refl

abbrev busy : LoggerValue
busy = record { prev = 0; cur = 32; entropy = zero_point }

end_interval_wide_example : end_interval second (three ++ (4, busy) ∷ []) quiet ≡ none
end_interval_wide_example = end_interval_wide second 4 busy three [] quiet (omega arith)
