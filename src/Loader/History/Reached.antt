-- ===== src/Loader/History/Reached.antt =====
-- Any packets and ends of intervals of the XDP program and xdp_loader.c, against their history.
use mathlib.Core.Path.{subst}
use fide.Base.{ℕ, ◌+◌, ◌≡◌, ◌≢◌, refl, sym, ap, ◌∙◌, arith, List, [], ◌∷◌, some}
use fide.History.{Event, ended, tally}
use fide.Packet.{Bytes}
use fide.HashMap.{lookup, total}
use fide.HashMap.Walk.{Distinct}
use fide.Kernel.Verdicts.{IsIpv4, source_of, Kind, Kind-of, too_short, not_ip, cut_ip, ipv4}
use fide.Split.{LoggerValue, DataValue, State, Verdict, xdp_filter_func}
use fide.Split.Counting.{not_ipv4, packet-counted, cur_of}
use fide.Loader.{Floats, Loaded, calculate_ent}
use fide.Loader.Memory.{table_calls, table-MapLaws, all_entries}
use fide.Loader.Interval.{calculate_ent_lem}
use fide.Loader.Together.{
  Joint, loaded, IsSound, Sound, HasRoom, packet, interval, Reaches, start, then_step,
  Reaches-Sound, counted-logger,
}
use fide.Loader.History.{
  expected, kept, Remembers, packet_expected, end_expected, with_packet, history,
}

packet-Remembers :
    (es : List Event) (p : Bytes) (s t : State) (v : Verdict)
    → HasRoom s
    → xdp_filter_func p s ≡ some (v, t)
    → (w : Remembers es s) (x : Kind p) → total cur_of s.logger ≡ w.entry.cur_interval_pkt
    → Remembers (with_packet x es) t
unfolding with_packet tally
packet-Remembers es p s t v (room, slot) h w x sum = by_kind x
  where
    same : ¬ IsIpv4 p → Remembers es t
    same q =
        let unchanged : s ≡ t = ground (arith, not_ipv4 p s q) in
        subst (λ (u : State). Remembers es u) unchanged w

    by_kind : (x : Kind p) → Remembers (with_packet x es) t
    by_kind (too_short k) = same (λ q. absurd (omega (arith, q.complete)))
    by_kind (not_ip k u) = same (λ q. ground (arith, q.type_high, q.type_low))
    by_kind (cut_ip k l u y) = same (λ q. absurd (omega (arith, q.complete)))
    by_kind (ipv4 q) =
        let k = source_of p in
        let d = w.entry in
        let (f, _, _, _) = packet-counted p s t v d q w.is_entry (omega (arith, sum)) room slot h in
        let g = counted-logger p s t v d q w.is_entry h in
        record {
          entry = record d { cur_interval_pkt = d.cur_interval_pkt + 1 };
          is_entry = f;
          all_sources = ground (arith, w.all_sources);
          sources = λ j.
              ap (λ m. kept (lookup j m)) g
              ∙ packet_expected k es s.logger room slot j (w.sources j);
        }

module _ {F : Type 0} (floats : Floats F) where
  interval-Remembers :
      (es : List Event) (j : Joint) (l : Loaded (List (ℕ × LoggerValue)))
      → j.kernel.logger ≢ []
      → calculate_ent table_calls floats (loaded j) ≡ some l
      → Sound j
      → Remembers es j.kernel
      → Remembers (ended ∷ es) (record j.kernel { logger = l.logger; data_entry = l.data_entry })
  unfolding tally
  interval-Remembers es j l full h (d, e, u) w =
      let (l', h', m, f, _) =
        calculate_ent_lem table_calls all_entries table-MapLaws floats (loaded j) d e full
          u.distinct u.no_zero u.size in
      let same : l' ≡ l = ground (arith, h, h') in
      let entry : w.entry ≡ d = ground (arith, e, w.is_entry) in
      subst
        (λ (x : Loaded (List (ℕ × LoggerValue))).
          Remembers (ended ∷ es) (record j.kernel { logger = x.logger; data_entry = x.data_entry }))
        same
        record {
          entry = record d { prev_interval_pkt = d.cur_interval_pkt; cur_interval_pkt = 0 };
          is_entry = f;
          all_sources =
              ap (λ (x : DataValue). (x.cur_interval_pkt, 0)) (sym entry)
              ∙ ap (λ (r : ℕ × ℕ). (r.1, 0)) w.all_sources;
          sources = λ i.
              ap (λ t. kept (lookup i t)) m
              ∙ end_expected es j.kernel.logger u.distinct i (w.sources i);
        }

  remembered :
      (j k : Joint) (r : Reaches floats j k)
      → Sound j
      → Remembers [] j.kernel
      → Remembers (history floats r) k.kernel
  unfolding history
  remembered j k (start _) sound w = w
  remembered j k (then_step _ i _ r (packet _ p t v room n h)) sound w =
      let (d, e, u) = Reaches-Sound floats j i r sound in
      let ih = remembered j i r sound w in
      let entry : ih.entry ≡ d = ground (arith, e, ih.is_entry) in
      packet-Remembers (history floats r) p i.kernel t v room h ih (Kind-of p)
        (u.cur_total ∙ ap (λ (x : DataValue). x.cur_interval_pkt) (sym entry))
  remembered j k (then_step _ i _ r (interval _ l full h)) sound w =
      interval-Remembers (history floats r) i l full h (Reaches-Sound floats j i r sound)
        (remembered j i r sound w)

-- No packet was counted yet.
abbrev pub no_counts : DataValue
no_counts = record { prev_interval_pkt = 0; cur_interval_pkt = 0 }

-- From maps without a source and without a packet, after any packets and any ends of intervals:
-- a source is in the map exactly when it sent a packet in this interval or the one before, with
-- the number of its packets in both, and the interval's counts are those of all sources; where
-- each packet finds room for one more, no IPv4 source is 0.0.0.0, and each end of an interval
-- finds a source.
pub Reaches-Remembers :
    {F : Type 0} (floats : Floats F) (j k : Joint) (r : Reaches floats j k)
    → j.kernel.logger ≡ []
    → j.kernel.data_entry ≡ some no_counts
    → Remembers (history floats r) k.kernel
unfolding expected kept tally lookup total Distinct
Reaches-Remembers floats j k r fresh e =
    let sound : Sound j = (
      no_counts,
      e,
      subst (λ m. IsSound no_counts m) (sym fresh)
          record {
            cur_total = refl;
            prev_total = refl;
            distinct = tt;
            no_zero = refl;
            size = omega arith;
          },
    ) in
    remembered floats j k r sound record {
      entry = no_counts;
      is_entry = e;
      all_sources = refl;
      sources = λ i. ap (λ m. kept (lookup i m)) fresh;
    }
