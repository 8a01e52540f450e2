-- ===== src/Loader/Reported.antt =====
-- The number that xdp_loader.c reports, against the packets that the XDP program saw.
use mathlib.Core.Path.{subst}
use fide.Base.{ℕ, ◌+◌, ◌%◌, ◌^◌, ◌≡◌, ◌≢◌, ap, ◌∙◌, arith, List, [], Option, none, some, add32}
use fide.Packet.{Bytes}
use fide.Kernel.Verdicts.{IsIpv4, Kind, Kind-of, too_short, not_ip, cut_ip, ipv4}
use fide.Split.{LoggerValue, DataValue, State, Verdict, xdp_filter_func}
use fide.Split.Counting.{not_ipv4, packet-counted}
use fide.Loader.{Floats, Loaded, calculate_ent}
use fide.Loader.Memory.{table_calls, table-MapLaws, all_entries}
use fide.Loader.Interval.{calculate_ent_lem}
use fide.Loader.Rounds.{report, printed, sum}
use fide.Loader.Together.{
  Joint, loaded, IsSound, Sound, HasRoom, packet, interval, Reaches, start, then_step,
  Reaches-Sound,
}

-- The packets of the interval that has not ended.
abbrev pub counted_now : Option DataValue → ℕ
counted_now none = 0
counted_now (some d) = d.cur_interval_pkt

-- What the loader has added up since it last printed, with what it has not yet read.
abbrev pub owed : Joint → ℕ
owed j = j.holder + counted_now j.kernel.data_entry

-- One for a packet with both headers.
unfoldable pub weight : {p : Bytes} → Kind p → ℕ
weight (ipv4 q) = 1
weight (too_short k) = 0
weight (not_ip k u) = 0
weight (cut_ip k l u x) = 0

module _ {F : Type 0} (floats : Floats F) where
  -- The packets with both headers on the way.
  unfoldable pub ipv4_packets : {j k : Joint} → Reaches floats j k → ℕ
  ipv4_packets (start j) = 0
  ipv4_packets (then_step j i k r (packet _ p t v room n h)) = ipv4_packets r + weight (Kind-of p)
  ipv4_packets (then_step j i k r (interval _ l full h)) = ipv4_packets r

  -- The sum of the numbers that the rounds on the way print.
  unfoldable pub reported : {j k : Joint} → Reaches floats j k → ℕ
  reported (start j) = 0
  reported (then_step j i k r (packet _ p t v room n h)) = reported r
  reported (then_step j i k r (interval _ l full h)) =
      reported r + sum (printed (report i.count l.holder).2 [])

-- A round prints what it takes from `holder`.
report-holder :
    (count holder : ℕ) → (report count holder).1 + sum (printed (report count holder).2 []) ≡ holder
unfolding report sum
report-holder count holder = ground arith

packet-owed :
    (h : ℕ) (p : Bytes) (s t : State) (v : Verdict) (d : DataValue)
    → HasRoom s
    → s.data_entry ≡ some d
    → IsSound d s.logger
    → xdp_filter_func p s ≡ some (v, t)
    → (x : Kind p) → h + counted_now t.data_entry ≡ h + counted_now s.data_entry + weight x
unfolding weight
packet-owed h p s t v d (room, slot) e w ran x = by_kind x
  where
    same : ¬ IsIpv4 p → h + counted_now t.data_entry ≡ h + counted_now s.data_entry + 0
    same q =
        let unchanged : s ≡ t = ground (arith, not_ipv4 p s q) in
        subst (λ (u : State). h + counted_now u.data_entry ≡ h + counted_now s.data_entry + 0)
          unchanged (omega arith)

    by_kind : (x : Kind p) → h + counted_now t.data_entry ≡ h + counted_now s.data_entry + weight x
    by_kind (too_short k) = same (λ q. absurd (omega (arith, q.complete)))
    by_kind (not_ip k u) = same (λ q. ground (arith, q.type_high, q.type_low))
    by_kind (cut_ip k l u y) = same (λ q. absurd (omega (arith, q.complete)))
    by_kind (ipv4 q) =
        let counted = packet-counted p s t v d q e (omega (arith, w.cur_total)) room slot ran in
        let after = ap counted_now counted.0 in
        let before = ap counted_now e in omega (arith, after, before)

module _ {F : Type 0} (floats : Floats F) where
  interval-owed :
      (j : Joint) (l : Loaded (List (ℕ × LoggerValue)))
      → j.kernel.logger ≢ []
      → calculate_ent table_calls floats (loaded j) ≡ some l
      → Sound j
      → l.holder + counted_now l.data_entry ≡ owed j % 2 ^ 32
  interval-owed j l full h (d, e, w) =
      let (l', h', _, f, g) =
        calculate_ent_lem table_calls all_entries table-MapLaws floats (loaded j) d e full
          w.distinct w.no_zero w.size in
      let same : l' ≡ l = ground (arith, h, h') in
      let moved : l'.holder + counted_now l'.data_entry ≡ owed j % 2 ^ 32 =
        ap (λ n. n + counted_now l'.data_entry) g
        ∙ ap (λ n. add32 j.holder d.cur_interval_pkt + counted_now n) f
        ∙ omega (arith, ap counted_now e) in
      subst
        (λ (x : Loaded (List (ℕ × LoggerValue))).
          x.holder + counted_now x.data_entry ≡ owed j % 2 ^ 32)
        same moved

  -- Along any packets and any rounds of the loader, one after the other: the numbers that the
  -- rounds print, what the loader has added up since and what it has not yet read grow together by
  -- one for each packet with both headers, and by nothing else, modulo 2 ^ 32, also where a round
  -- sets what it has added up to zero; from maps whose counts agree, where each packet finds room
  -- for one more, no IPv4 source is 0.0.0.0, and each end of an interval finds a source.
  pub Reaches-owed :
      (j k : Joint) (r : Reaches floats j k)
      → Sound j
      → (reported floats r + owed k) % 2 ^ 32 ≡ (owed j + ipv4_packets floats r) % 2 ^ 32
  unfolding ipv4_packets reported
  Reaches-owed j k (start _) sound = omega arith
  Reaches-owed j k (then_step _ i _ r (packet _ p t v room n h)) sound =
      let (d, e, w) = Reaches-Sound floats j i r sound in
      omega (
        arith,
        Reaches-owed j i r sound,
        packet-owed i.holder p i.kernel t v d room e w h (Kind-of p),
      )
  Reaches-owed j k (then_step _ i _ r (interval _ l full h)) sound = omega (
    arith,
    Reaches-owed j i r sound,
    interval-owed i l full h (Reaches-Sound floats j i r sound),
    report-holder i.count l.holder,
  )
