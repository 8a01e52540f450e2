-- ===== src/Kernel/Conservation.antt =====
-- Packets are conserved by `xdp_filter_func` of fully_in-kernel/main/xdp_prog_kern.c: the counts
-- of the sources make up the count of the interval, and so do those of the interval before.
use mathlib.Core.Path.{subst}
use fide.Base.{ℕ, ◌+◌, ◌^◌, ◌≤◌, ◌<◌, ◌≡◌, refl, sym, Option, none, some, arith, length}
use fide.Packet.{Bytes}
use fide.Kernel.Types.{DataValue, Logger, logger_map_size, State, Verdict}
use fide.Kernel.Interval.{record_source}
use fide.Kernel.Handler.{xdp_filter_func}
use fide.Kernel.Verdicts.{source_of, counted}
use fide.Kernel.Effects.{
  Clocked, no_stamp, goes_on, ends, Effect, same, counts, xdp_filter_func-Effect,
}
use fide.Kernel.Counting.{IsSized, Sized, HasRoom, one_more, count_packet-one_more}
use fide.HashMap.{total}
use fide.Kernel.Balance.{
  cur_of, prev_of, record_source-total, length-record_source, end_interval-totals,
}

-- No source has more packets than the interval, and the map is within its size.
pub record IsAccounted (d : DataValue) (m : Logger) : Type 0 where
  pub cur_within : total cur_of m ≤ d.cur_interval_pkt
  pub prev_within : total prev_of m ≤ d.prev_interval_pkt
  pub size_within : length m ≤ logger_map_size

-- Every packet of the interval is counted for a source.
pub record IsBalanced (d : DataValue) (m : Logger) : Type 0 where
  pub cur_total : total cur_of m ≡ d.cur_interval_pkt
  pub prev_total : total prev_of m ≡ d.prev_interval_pkt

module _ (P : DataValue → Logger → Type 0) where
  abbrev pub Holds : Option DataValue → Logger → Type 0
  Holds none m = Unit
  Holds (some d) m = P d m

  -- What the counting and the end of an interval keep, a packet keeps.
  module _ (ts : ℕ) (p : Bytes) (s : State) (sized : Sized s.interval) (room : HasRoom s.interval)
      (counting : (d : DataValue)
        → s.interval ≡ some d
        → IsSized d
        → d.cur_interval_pkt + 1 < 2 ^ 30
        → P d s.logger
        → P (one_more d) (record_source (source_of p) s.logger))
      (ending : (d d' : DataValue) (m m' : Logger)
        → P d m
        → total prev_of m' ≡ total cur_of m
        → total cur_of m' ≡ 0
        → d'.prev_interval_pkt ≡ d.cur_interval_pkt
        → d'.cur_interval_pkt ≡ 0
        → length m' ≤ length m
        → P d' m') where
    Clocked-Holds :
        (d : DataValue) (u t : State)
        → u.interval ≡ some d
        → P d u.logger
        → Clocked ts d u t
        → Holds t.interval t.logger
    Clocked-Holds d u t e h (no_stamp f) =
        subst (λ (w : State). Holds w.interval w.logger) (sym f)
          (subst (λ o. Holds o u.logger) (sym e) h)
    Clocked-Holds d u t e h (goes_on stamp _ _ f) =
        subst (λ (w : State). Holds w.interval w.logger) (sym f)
          (subst (λ o. Holds o u.logger) (sym e) h)
    Clocked-Holds d u t e h (ends stamp d' m g _ _ k f) =
        let q = end_interval-totals d d' u.logger m u.globals g k in
        subst (λ (w : State). Holds w.interval w.logger) (sym f)
          (ending d d' u.logger m h q.0 q.1 q.2 q.3 q.4)

    xdp_filter_func-Holds :
        (t : State) (v : Verdict)
        → Holds s.interval s.logger
        → xdp_filter_func ts p s ≡ some (v, t)
        → Holds t.interval t.logger
    xdp_filter_func-Holds t v h run = by_effect (xdp_filter_func-Effect ts p s t v run)
      where
        by_effect : Effect ts (source_of p) s t → Holds t.interval t.logger
        by_effect (same e) = subst (λ (w : State). Holds w.interval w.logger) (sym e) h
        by_effect (counts d d' e c k) =
            let w : IsSized d = subst Sized e sized in
            let r : d.cur_interval_pkt + 1 < 2 ^ 30 = subst HasRoom e room in
            let now = counting d e w r (subst (λ o. Holds o s.logger) e h) in
            Clocked-Holds d' (counted (source_of p) d' s) t refl
              (rw (count_packet-one_more d d' w r c) now) k

-- The sources never have more packets than the interval, in this interval and in the one before,
-- and the map never has more entries than it was made for; whatever the packets, while an
-- interval has less than 2 ^ 30 of them.
pub xdp_filter_func-IsAccounted :
    (ts : ℕ) (p : Bytes) (s t : State) (v : Verdict)
    → Sized s.interval
    → HasRoom s.interval
    → Holds IsAccounted s.interval s.logger
    → xdp_filter_func ts p s ≡ some (v, t)
    → Holds IsAccounted t.interval t.logger
xdp_filter_func-IsAccounted ts p s t v sized room =
    xdp_filter_func-Holds IsAccounted ts p s sized room
      (λ d e w r a. ground (
        arith,
        record_source-total (source_of p) s.logger,
        length-record_source (source_of p) s.logger,
      ))
      (λ d d' m m' a q0 q1 q2 q3 q4. omega arith) t v

-- Where the map has room for one more source, the sources' packets go on making up those of the
-- interval exactly, and those of the interval before.
pub xdp_filter_func-IsBalanced :
    (ts : ℕ) (p : Bytes) (s t : State) (v : Verdict)
    → Sized s.interval
    → HasRoom s.interval
    → length s.logger < logger_map_size
    → Holds IsBalanced s.interval s.logger
    → xdp_filter_func ts p s ≡ some (v, t)
    → Holds IsBalanced t.interval t.logger
xdp_filter_func-IsBalanced ts p s t v sized room slot =
    xdp_filter_func-Holds IsBalanced ts p s sized room
      (λ d e w r a. ground (arith, record_source-total (source_of p) s.logger))
      (λ d d' m m' a q0 q1 q2 q3 q4. omega arith) t v
