-- ===== src/Kernel/History/Runs.antt =====
-- Runs of fully_in-kernel/main/xdp_prog_kern.c over any packets, against their history.
use mathlib.Core.Path.{subst}
use fide.Base.{ℕ, ◌<◌, ◌≤◌, ◌≡◌, refl, sym, List, [], some, length}
use fide.History.{Event, tally}
use fide.Packet.{Bytes}
use fide.HashMap.{lookup}
use fide.HashMap.Walk.{Distinct}
use fide.Kernel.Types.{DataValue, Logger, logger_map_size, State, Verdict}
use fide.Kernel.Handler.{xdp_filter_func}
use fide.Kernel.Verdicts.{Kind-of}
use fide.Kernel.Counting.{IsSized, Sized, HasRoom, xdp_filter_func-Sized}
use fide.Kernel.History.{numbers}
use fide.Kernel.History.Packets.{with_packet, Remembers, packet-Remembers}

-- Packets that are handled, each where there is room for one more.
pub data Runs : State → State → Type 0 where
  begin : (s : State) → Runs s s
  handle :
      (s t u : State) (ts : ℕ) (p : Bytes) (v : Verdict)
      → Runs s t
      → HasRoom t.interval
      → length t.logger < logger_map_size
      → xdp_filter_func ts p t ≡ some (v, u)
      → Runs s u

-- The events on the way, the last one first.
unfoldable pub history : {s t : State} → Runs s t → List Event
history (begin s) = []
history (handle s t u ts p v r room slot h) = with_packet ts t (Kind-of p) (history r)

module _ (m0 : Logger) (d0 : DataValue)
    (within : (k : ℕ) → (numbers (lookup k m0)).1 ≤ d0.cur_interval_pkt) where
  remembered :
      (s t : State) (r : Runs s t)
      → Sized s.interval
      → Remembers m0 d0 [] s
      → Remembers m0 d0 (history r) t × Sized t.interval
  unfolding history
  remembered s t (begin _) sized w = (w, sized)
  remembered s t (handle _ i _ ts p v r room slot h) sized w =
      let (ih, sized') = remembered s i r sized w in
      (
        packet-Remembers m0 d0 within ts p (history r) i t v sized' room slot h ih (Kind-of p),
        xdp_filter_func-Sized ts p i t v sized' room h,
      )

-- After any packets that are handled, each where there is room for one more: the map has for each
-- source the numbers of its counted packets in the interval before and in this one, and the
-- interval's counts are those of all sources, as they follow from the numbers at the start. A
-- packet is counted if it has both headers and its source is not listed, and it ends an interval
-- if it claims its end. No source may stand twice at the start, or have more packets than the
-- interval.
pub Runs-Remembers :
    (s t : State) (d : DataValue) (r : Runs s t)
    → s.interval ≡ some d
    → IsSized d
    → Distinct s.logger
    → ((k : ℕ) → (numbers (lookup k s.logger)).1 ≤ d.cur_interval_pkt)
    → Remembers s.logger d (history r) t
unfolding tally
Runs-Remembers s t d r e sized u within =
    (remembered s.logger d within s t r (subst Sized (sym e) sized)
      record { entry = d; is_entry = e; distinct = u; all_sources = refl; sources = λ k. refl }).0
