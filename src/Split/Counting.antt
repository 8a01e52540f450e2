-- ===== src/Split/Counting.antt =====
-- What `xdp_filter_func` of user+ebpf/main/xdp_prog_kern.c answers, and what it counts.
use fide.Base.{
  ℕ, ◌+◌, ◌<◌, ◌≡◌, ◌≢◌, ◌↔◌, ◌^◌, ◌&&◌, ◌||◌, ltb, ◌==◌, if◌then◌else◌, inl, inr, List, Option,
  none, some, arith, length, Option-cases, add32,
}
use fide.Packet.{Bytes, byte_at, load16-some, load32-some}
use fide.HashMap.{lookup, total, total-store, total-add_entry}
use fide.Kernel.Verdicts.{IsIpv4, source_of, Kind, Kind-of, too_short, not_ip, cut_ip, ipv4}
use fide.Split.{
  DataValue, LoggerValue, State, Verdict, aborted, drop, redirect_map, record_source, final_verdict,
  count_source, xdp_filter_func, logger_max_entries, new_value,
}

abbrev pub listed_as : State → Bytes → Option ℕ
listed_as s p = s.blacklist (record { prefixlen = 32; address = source_of p })

pub ipv4-counted :
    (p : Bytes) (s : State)
    → IsIpv4 p
    → xdp_filter_func p s ≡ some (count_source (listed_as s p) (source_of p) s)
unfolding xdp_filter_func
ipv4-counted p s v = ground (arith, load16-some p 12, load32-some p 26)

-- The verdict on a packet without complete Ethernet and IPv4 headers.
abbrev pub answer_of : Bytes → State → Verdict
answer_of p s =
    if ltb (length p) 14 || (byte_at p 12 == 8 && byte_at p 13 == 0)
    then aborted
    else redirect_map s

-- A packet without complete Ethernet and IPv4 headers changes nothing: it is aborted when a
-- header is cut off, and redirected when it is of another type.
pub not_ipv4 : (p : Bytes) (s : State) → ¬ IsIpv4 p → xdp_filter_func p s ≡ some (answer_of p s, s)
unfolding xdp_filter_func
not_ipv4 p s n = by_kind (Kind-of p)
  where
    by_kind : Kind p → xdp_filter_func p s ≡ some (answer_of p s, s)
    by_kind (too_short k) = ground arith
    by_kind (not_ip k t) = ground (arith, load16-some p 12)
    by_kind (cut_ip k l t u) = ground (arith, load16-some p 12)
    by_kind (ipv4 q) = absurd (n q)

abbrev pub cur_of : LoggerValue → ℕ
cur_of v = v.cur

record_source-total :
    (k : ℕ) (m : List (ℕ × LoggerValue))
    → total cur_of m + 1 < 2 ^ 32
    → length m < logger_max_entries
    → total cur_of (record_source k m) ≡ total cur_of m + 1
unfolding record_source
record_source-total k m room slot = elim (Option-cases (lookup k m)) [
  | inl e ↦ ground (arith, total-add_entry cur_of logger_max_entries k new_value m)
  | inr (v, e) ↦ ground (arith, total-store cur_of k v (record v { cur = add32 v.cur 1 }) m e)
]

redirect_map-ne-drop : (s : State) → redirect_map s ≢ drop
unfolding redirect_map
redirect_map-ne-drop s = ground arith

count_source-drop_iff :
    (rule : Option ℕ) (saddr : ℕ) (s : State)
    → ((count_source rule saddr s).0 ≡ drop) ↔ ((rule ≢ none) × (s.data_entry ≢ none))
unfolding count_source final_verdict redirect_map
count_source-drop_iff rule saddr s = ground arith

-- A packet is dropped exactly when it has complete Ethernet and IPv4 headers, its source is
-- listed, and the interval's counts are there.
pub drop_when :
    (p : Bytes) (s t : State) (v : Verdict)
    → xdp_filter_func p s ≡ some (v, t)
    → (v ≡ drop) ↔ (IsIpv4 p × (listed_as s p ≢ none) × (s.data_entry ≢ none))
drop_when p s t v h = (
  dropped,
  λ (q, l, e).
      ground (arith, ipv4-counted p s q, count_source-drop_iff (listed_as s p) (source_of p) s),
)
  where
    other : ¬ IsIpv4 p → v ≡ drop → IsIpv4 p × (listed_as s p ≢ none) × (s.data_entry ≢ none)
    other n e = absurd (ground (arith, not_ipv4 p s n, redirect_map-ne-drop s))

    dropped : v ≡ drop → IsIpv4 p × (listed_as s p ≢ none) × (s.data_entry ≢ none)
    dropped e = elim (Kind-of p) [
      | too_short k ↦ other (λ q. absurd (omega (arith, q.complete))) e
      | not_ip k t ↦ other (λ q. ground (arith, q.type_high, q.type_low)) e
      | cut_ip k l t u ↦ other (λ q. absurd (omega (arith, q.complete))) e
      | ipv4 q ↦
          ground (arith, ipv4-counted p s q, count_source-drop_iff (listed_as s p) (source_of p) s)
    ]

-- A packet with complete Ethernet and IPv4 headers is counted once in the interval and once for
-- the sources, whether its source is listed or not, and nothing else changes; where the map has
-- room for one more source and the counts are below 2 ^ 32 - 1.
pub packet-counted :
    (p : Bytes) (s t : State) (v : Verdict) (d : DataValue)
    → IsIpv4 p
    → s.data_entry ≡ some d
    → d.cur_interval_pkt + 1 < 2 ^ 32
    → total cur_of s.logger + 1 < 2 ^ 32
    → length s.logger < logger_max_entries
    → xdp_filter_func p s ≡ some (v, t)
    → (t.data_entry ≡ some (record d { cur_interval_pkt = d.cur_interval_pkt + 1 }))
      × (total cur_of t.logger ≡ total cur_of s.logger + 1)
      × (t.blacklist ≡ s.blacklist)
      × (t.tx_port ≡ s.tx_port)
unfolding count_source
packet-counted p s t v d q e room all slot h =
    ground (arith, ipv4-counted p s q, record_source-total (source_of p) s.logger all slot)
