-- ===== src/Split/Kernel.antt =====
-- The program of user+ebpf/main/xdp_prog_kern.c against that of
-- fully_in-kernel/main/xdp_prog_kern.c: where a packet does not end an interval the two count and
-- answer alike.
use fide.Base.{
  ℕ, ◌≡◌, refl, ap, sym, ◌∙◌, List, [], ◌∷◌, Option, none, some, false, arith, length, Option-cases,
  inl, inr, add32,
}
use fide.Packet.{Bytes}
use fide.HashMap.{lookup, store, add_entry}
use fide.Kernel.Types
use fide.Kernel.Interval
use fide.Kernel.Handler
use fide.Kernel.Verdicts.{IsIpv4, source_of, listed_as, ipv4_unlisted, count_source_inv, counted}
use fide.Split.{
  LoggerValue, DataValue, State, Verdict, aborted, drop, pass, tx, redirect, redirect_map,
  record_source, final_verdict, count_source, xdp_filter_func,
}
use fide.Split.Counting.{ipv4-counted}

-- What the split version keeps of the values of the other: `entropy` is a plain number there.
abbrev pub forget_value : Types.LoggerValue → LoggerValue
forget_value v = record { prev = v.prev; cur = v.cur; entropy = v.entropy.number }

unfoldable pub forget_logger : Types.Logger → List (ℕ × LoggerValue)
forget_logger [] = []
forget_logger ((k, v) ∷ m) = (k, forget_value v) ∷ forget_logger m

unfoldable pub forget_data : Option Types.DataValue → Option DataValue
forget_data none = none
forget_data (some d) =
    some (record { prev_interval_pkt = d.prev_interval_pkt; cur_interval_pkt = d.cur_interval_pkt })

abbrev pub forget : Types.State → State
forget s = record {
  logger = forget_logger s.logger;
  blacklist = λ k. s.blacklist (record { prefixlen = k.prefixlen; address = k.address });
  data_entry = forget_data s.interval;
  tx_port = s.tx_port;
}

unfoldable pub forget_verdict : Types.Verdict → Verdict
forget_verdict Types.aborted = aborted
forget_verdict Types.drop = drop
forget_verdict Types.pass = pass
forget_verdict Types.tx = tx
forget_verdict Types.redirect = redirect

lookup-forget_logger :
    (k : ℕ) (m : Types.Logger)
    → lookup k (forget_logger m)
      ≡ elim (lookup k m) [ none ↦ none | some v ↦ some (forget_value v) ]
unfolding lookup forget_logger
lookup-forget_logger k [] = refl
lookup-forget_logger k ((j, v) ∷ m) = ground (arith, lookup-forget_logger k m)

store-forget_logger :
    (k : ℕ) (v : Types.LoggerValue) (m : Types.Logger)
    → store k (forget_value v) (forget_logger m) ≡ forget_logger (store k v m)
unfolding store forget_logger
store-forget_logger k v [] = refl
store-forget_logger k v ((j, w) ∷ m) = ground (arith, store-forget_logger k v m)

length-forget_logger : (m : Types.Logger) → length (forget_logger m) ≡ length m
unfolding forget_logger
length-forget_logger [] = refl
length-forget_logger ((k, v) ∷ m) = ground (arith, length-forget_logger m)

record_source-forget :
    (k : ℕ) (m : Types.Logger)
    → record_source k (forget_logger m) ≡ forget_logger (Interval.record_source k m)
unfolding record_source Interval.record_source add_entry forget_logger
record_source-forget k m = elim (Option-cases (lookup k m)) [
  | inl e ↦ ground (arith, lookup-forget_logger k m, length-forget_logger m)
  | inr (v, e) ↦
      ground (
        arith,
        lookup-forget_logger k m,
        store-forget_logger k (record v { cur = add32 v.cur 1 }) m,
      )
]

redirect-forget :
    (s : Types.State) → redirect_map (forget s) ≡ forget_verdict (Types.redirect_map s)
unfolding redirect_map Types.redirect_map forget_verdict
redirect-forget s = elim (Option-cases s.tx_port) [ inl e ↦ rw e refl | inr (port, e) ↦ rw e refl ]

count_packet-counts :
    (d d' : Types.DataValue)
    → Interval.count_packet d ≡ some d'
    → (d'.cur_interval_pkt ≡ add32 d.cur_interval_pkt 1)
      × (d'.prev_interval_pkt ≡ d.prev_interval_pkt)
unfolding Interval.count_packet
count_packet-counts d d' h = ground arith

goes_on-state :
    (ts stamp : ℕ) (d : Types.DataValue) (s t : Types.State) (v : Types.Verdict)
    → s.timestamp ≡ some stamp
    → (Interval.claim_interval ts stamp).1 ≡ false
    → Handler.check_interval ts d s ≡ some (v, t)
    → (v ≡ Types.redirect_map s)
      × (t ≡ record s { timestamp = some (Interval.claim_interval ts stamp).0 })
unfolding Handler.check_interval
goes_on-state ts stamp d s t v e c h = ground arith

count_source-forget :
    (saddr : ℕ) (d d' : Types.DataValue) (s : Types.State)
    → s.interval ≡ some d
    → Interval.count_packet d ≡ some d'
    → count_source none saddr (forget s)
      ≡ (forget_verdict (Types.redirect_map (counted saddr d' s)), forget (counted saddr d' s))
unfolding count_source final_verdict forget_data
count_source-forget saddr d d' s e c = ground (
  arith,
  count_packet-counts d d' c,
  record_source-forget saddr s.logger,
  redirect-forget (counted saddr d' s),
)

-- On a packet with complete Ethernet and IPv4 headers whose source is not listed and that does
-- not end an interval, the two programs answer alike, and what the split version keeps of the
-- state is the same afterwards; where the interval's counts and the time stamp are there.
pub counts_alike :
    (ts stamp : ℕ) (p : Bytes) (d : Types.DataValue) (s t : Types.State) (v : Types.Verdict)
    → IsIpv4 p
    → listed_as s p ≡ none
    → s.interval ≡ some d
    → s.timestamp ≡ some stamp
    → (Interval.claim_interval ts stamp).1 ≡ false
    → Handler.xdp_filter_func ts p s ≡ some (v, t)
    → xdp_filter_func p (forget s) ≡ some (forget_verdict v, forget t)
counts_alike ts stamp p d s t v q l e f c h =
    elim (count_source_inv ts (source_of p) s (v, t) (sym (ipv4_unlisted ts p s q l) ∙ h)) [
      | inl n ↦ absurd (ground arith)
      | inr (d0, d', e', k, r) ↦
          let w = goes_on-state ts stamp d' (counted (source_of p) d' s) t v f c r in
          ipv4-counted p (forget s) q
          ∙ ap (λ o. some (count_source o (source_of p) (forget s))) l
          ∙ ap some (count_source-forget (source_of p) d0 d' s e' k)
          ∙ ground (arith, w)
    ]
