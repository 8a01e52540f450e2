-- ===== src/Kernel/History/Tests.antt =====
-- A run of fully_in-kernel/main/xdp_prog_kern.c that ends an interval, against its history.
use fide.Base.{ℕ, ◌≤◌, refl, arith}
use fide.HashMap.{lookup}
use fide.HashMap.Walk.{Distinct}
use fide.Kernel.Types.{redirect}
use fide.Kernel.Counting.{IsSized}
use fide.Kernel.History.{numbers}
use fide.Kernel.History.Packets.{Remembers}
use fide.Kernel.History.Runs.{Runs, begin, handle, history, Runs-Remembers}
use fide.Kernel.Samples.{packet, counts, sources, before_end, after_end, end_run}

run : Runs before_end after_end
run =
    handle before_end before_end after_end 2_000_000_000 packet redirect (begin before_end)
      (omega arith) (omega arith) end_run

counts-IsSized : IsSized counts
counts-IsSized = record {
  bits_low = omega arith;
  bits_high = omega arith;
  fits = omega arith;
  needed = ground arith;
}

sources-Distinct : Distinct sources
unfolding Distinct lookup
sources-Distinct = (refl, (refl, (refl, tt)))

sources-within : (k : ℕ) → (numbers (lookup k sources)).1 ≤ 5
unfolding numbers lookup
sources-within k = ground arith

Runs-Remembers_example : Remembers sources counts (history run) after_end
Runs-Remembers_example =
    Runs-Remembers before_end after_end counts run refl counts-IsSized sources-Distinct
      sources-within
