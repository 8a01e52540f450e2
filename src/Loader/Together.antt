-- ===== src/Loader/Together.antt =====
-- The XDP program of user+ebpf/main/xdp_prog_kern.c and the ends of intervals of xdp_loader.c on
-- the same maps, one after the other.
use mathlib.Core.Path.{subst}
use fide.Base.{
  ℕ, ◌+◌, ◌^◌, ◌<◌, ◌≤◌, ◌≡◌, ◌≢◌, refl, sym, ap, ◌∙◌, arith, List, [], ◌∷◌, none, some, length,
  ◌==◌, if◌then◌else◌, Bool, true, false,
}
use fide.Packet.{Bytes}
use fide.HashMap.{lookup, total}
use fide.HashMap.Walk.{Distinct}
use fide.Kernel.Verdicts.{IsIpv4, source_of, Kind, Kind-of, too_short, not_ip, cut_ip, ipv4}
use fide.Split.{
  LoggerValue, DataValue, State, Verdict, record_source, count_source, xdp_filter_func,
  logger_max_entries,
}
use fide.Split.Counting.{ipv4-counted, not_ipv4, packet-counted, cur_of}
use fide.Split.Sources.{
  prev_of, record_source-prev, record_source-Distinct, lookup-record_source, length-record_source,
}
use fide.Loader.{Floats, Loaded, calculate_ent}
use fide.Loader.Rounds.{report}
use fide.Loader.Walk.{next_interval}
use fide.Loader.Memory.{table_calls, table-MapLaws, all_entries}
use fide.Loader.Interval.{calculate_ent_lem}

-- The maps, and the variables of the loader; `count` is that of `main`.
pub record Joint : Type 0 where
  pub kernel : State
  pub holder : ℕ
  pub beta : ℕ
  pub count : ℕ

abbrev pub loaded : Joint → Loaded (List (ℕ × LoggerValue))
loaded j = record {
  logger = j.kernel.logger;
  data_entry = j.kernel.data_entry;
  holder = j.holder;
  beta = j.beta;
}

-- After a round of the loop of `main`, in which calculate_ent left `l`.
abbrev pub stored : Joint → Loaded (List (ℕ × LoggerValue)) → Joint
stored j l = record {
  kernel = record j.kernel { logger = l.logger; data_entry = l.data_entry };
  holder = (report j.count l.holder).1;
  beta = l.beta;
  count = (report j.count l.holder).0;
}

-- The sources' packets make up those of the interval, in this interval and the one before; no
-- source stands twice or is 0.0.0.0; the map is within its size.
pub record IsSound (d : DataValue) (m : List (ℕ × LoggerValue)) : Type 0 where
  pub cur_total : total cur_of m ≡ d.cur_interval_pkt
  pub prev_total : total prev_of m ≡ d.prev_interval_pkt
  pub distinct : Distinct m
  pub no_zero : lookup 0 m ≡ none
  pub size : length m ≤ logger_max_entries

abbrev pub Sound : Joint → Type 0
Sound j = (d : DataValue) × (j.kernel.data_entry ≡ some d) × IsSound d j.kernel.logger

abbrev pub HasRoom : State → Type 0
HasRoom s = (total cur_of s.logger + 1 < 2 ^ 32) × (length s.logger < logger_max_entries)

module _ {F : Type 0} (floats : Floats F) where
  -- A packet of any bytes, where there is room for one more and no IPv4 source 0.0.0.0; or a
  -- round of the loader, the end of an interval that has seen a source.
  pub data Step : Joint → Joint → Type 0 where
    packet :
        (j : Joint) (p : Bytes) (t : State) (v : Verdict)
        → HasRoom j.kernel
        → (IsIpv4 p → source_of p ≢ 0)
        → xdp_filter_func p j.kernel ≡ some (v, t)
        → Step j (record j { kernel = t })
    interval :
        (j : Joint) (l : Loaded (List (ℕ × LoggerValue)))
        → j.kernel.logger ≢ []
        → calculate_ent table_calls floats (loaded j) ≡ some l
        → Step j (stored j l)

  pub data Reaches : Joint → Joint → Type 0 where
    start : (j : Joint) → Reaches j j
    then_step : (j k l : Joint) → Reaches j k → Step k l → Reaches j l

next_interval-cur : (m : List (ℕ × LoggerValue)) → total cur_of (next_interval m) ≡ 0
unfolding next_interval total
next_interval-cur [] = refl
next_interval-cur ((k, v) ∷ m) = ground (arith, next_interval-cur m)

next_interval-prev : (m : List (ℕ × LoggerValue)) → total prev_of (next_interval m) ≡ total cur_of m
unfolding next_interval total
next_interval-prev [] = refl
next_interval-prev ((k, v) ∷ m) = ground (arith, next_interval-prev m)

lookup-next_interval :
    (j : ℕ) (m : List (ℕ × LoggerValue)) → lookup j m ≡ none → lookup j (next_interval m) ≡ none
unfolding next_interval lookup
lookup-next_interval j [] h = refl
lookup-next_interval j ((k, v) ∷ m) h = ground (arith, lookup-next_interval j m)

length-next_interval : (m : List (ℕ × LoggerValue)) → length (next_interval m) ≤ length m
unfolding next_interval
length-next_interval [] = omega arith
length-next_interval ((k, v) ∷ m) = ground (arith, length-next_interval m)

keep_or_drop :
    (b : Bool) (k : ℕ) (v : LoggerValue) (m : List (ℕ × LoggerValue))
    → lookup k m ≡ none
    → Distinct m
    → Distinct (if b then m else (k, v) ∷ m)
unfolding Distinct
keep_or_drop true k v m e u = u
keep_or_drop false k v m e u = (e, u)

pub next_interval-Distinct : (m : List (ℕ × LoggerValue)) → Distinct m → Distinct (next_interval m)
unfolding next_interval Distinct
next_interval-Distinct [] u = tt
next_interval-Distinct ((k, v) ∷ m) (once, u) =
    keep_or_drop (v.cur == 0) k (record v { prev = v.cur; cur = 0 }) (next_interval m)
      (lookup-next_interval k m once) (next_interval-Distinct m u)

-- A packet with both headers leaves the sources that `record_source` gives.
pub counted-logger :
    (p : Bytes) (s t : State) (v : Verdict) (d : DataValue)
    → IsIpv4 p
    → s.data_entry ≡ some d
    → xdp_filter_func p s ≡ some (v, t)
    → t.logger ≡ record_source (source_of p) s.logger
unfolding count_source
counted-logger p s t v d q e h = ground (arith, ipv4-counted p s q)

next_interval-IsSound :
    (d : DataValue) (m : List (ℕ × LoggerValue))
    → IsSound d m
    → IsSound
        (record d { prev_interval_pkt = d.cur_interval_pkt; cur_interval_pkt = 0 })
        (next_interval m)
next_interval-IsSound d m w = record {
  cur_total = next_interval-cur m;
  prev_total = next_interval-prev m ∙ w.cur_total;
  distinct = next_interval-Distinct m w.distinct;
  no_zero = lookup-next_interval 0 m w.no_zero;
  size = omega (arith, length-next_interval m, w.size);
}

module _ (s t : State) (p : Bytes) (v : Verdict) (d : DataValue) where
  packet-IsSound :
      HasRoom s
      → (IsIpv4 p → source_of p ≢ 0)
      → s.data_entry ≡ some d
      → IsSound d s.logger
      → xdp_filter_func p s ≡ some (v, t)
      → (d' : DataValue) × (t.data_entry ≡ some d') × IsSound d' t.logger
  packet-IsSound (room, slot) n e w h = by_kind (Kind-of p)
    where
      same : ¬ IsIpv4 p → (d' : DataValue) × (t.data_entry ≡ some d') × IsSound d' t.logger
      same q =
          let unchanged : s ≡ t = ground (arith, not_ipv4 p s q) in
          subst (λ (u : State). (d' : DataValue) × (u.data_entry ≡ some d') × IsSound d' u.logger)
            unchanged (d, e, w)

      by_kind : Kind p → (d' : DataValue) × (t.data_entry ≡ some d') × IsSound d' t.logger
      by_kind (too_short k) = same (λ q. absurd (omega (arith, q.complete)))
      by_kind (not_ip k u) = same (λ q. ground (arith, q.type_high, q.type_low))
      by_kind (cut_ip k l u x) = same (λ q. absurd (omega (arith, q.complete)))
      by_kind (ipv4 q) =
          let k = source_of p in
          let (f, c, b, x) =
            packet-counted p s t v d q e (omega (arith, w.cur_total)) room slot h in
          let g = counted-logger p s t v d q e h in
          (
            record d { cur_interval_pkt = d.cur_interval_pkt + 1 },
            f,
            record {
              cur_total = omega (arith, c, w.cur_total);
              prev_total =
                  ap (λ m. total prev_of m) g ∙ record_source-prev k s.logger ∙ w.prev_total;
              distinct = subst Distinct (sym g) (record_source-Distinct k s.logger w.distinct);
              no_zero =
                  ap (λ m. lookup 0 m) g
                  ∙ lookup-record_source 0 k s.logger (λ z. n q (sym z)) w.no_zero;
              size =
                  subst (λ m. length m ≤ logger_max_entries) (sym g)
                    (length-record_source k s.logger w.size);
            },
          )

module _ {F : Type 0} (floats : Floats F) where
  Step-Sound : (j k : Joint) → Step floats j k → Sound j → Sound k
  Step-Sound j k (packet _ p t v room n h) (d, e, w) = packet-IsSound j.kernel t p v d room n e w h
  Step-Sound j k (interval _ l full h) (d, e, w) =
      let (l', h', m, f, _) =
        calculate_ent_lem table_calls all_entries table-MapLaws floats (loaded j) d e full
          w.distinct w.no_zero w.size in
      let same : l' ≡ l = ground (arith, h, h') in
      (
        record d { prev_interval_pkt = d.cur_interval_pkt; cur_interval_pkt = 0 },
        subst
            (λ (x : Loaded (List (ℕ × LoggerValue))).
              x.data_entry
              ≡ some (record d { prev_interval_pkt = d.cur_interval_pkt; cur_interval_pkt = 0 }))
            same f,
        subst
            (λ (x : Loaded (List (ℕ × LoggerValue))).
              IsSound (record d { prev_interval_pkt = d.cur_interval_pkt; cur_interval_pkt = 0 })
                x.logger)
            same (subst (IsSound _) (sym m) (next_interval-IsSound d j.kernel.logger w)),
      )

  -- After any packets and any ends of intervals, one after the other: the sources' packets make up
  -- those of the interval and of the interval before, no source stands twice or is 0.0.0.0, and
  -- the map is within its size, if it was so before; where each packet finds room for one more, no
  -- IPv4 source is 0.0.0.0, and each end of an interval finds a source.
  pub Reaches-Sound : (j k : Joint) → Reaches floats j k → Sound j → Sound k
  Reaches-Sound j k (start _) h = h
  Reaches-Sound j k (then_step _ i _ r s) h = Step-Sound i k s (Reaches-Sound j i r h)
