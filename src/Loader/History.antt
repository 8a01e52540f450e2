-- ===== src/Loader/History.antt =====
-- What the XDP program and xdp_loader.c keep of each source, against the history of the packets
-- and of the ends of intervals.
pub mod Reached
mod Tests
use native.Mathlib.Decide.{ℕ_discrete}
use mathlib.Core.Path.{subst}
use fide.Base.{
  ℕ, suc, ◌+◌, ◌^◌, ◌<◌, ◌≡◌, ◌≢◌, refl, sym, ap, ◌∙◌, arith, List, [], ◌∷◌, Option, none, some,
  length, ◌==◌, ◌&&◌, if◌then◌else◌, Bool, true, Option-cases, inl, inr, add32,
}
use fide.History.{Event, came, ended, tally}
use fide.Packet.{Bytes}
use fide.HashMap.{lookup, add_entry, total}
use fide.HashMap.Walk.{Distinct}
use fide.HashMap.Laws.{lookup-store}
use fide.Kernel.Verdicts.{IsIpv4, source_of, Kind, Kind-of, too_short, not_ip, cut_ip, ipv4}
use fide.Split.{
  LoggerValue, DataValue, State, Verdict, record_source, xdp_filter_func, logger_max_entries,
}
use fide.Split.Counting.{not_ipv4, packet-counted, cur_of}
use fide.Split.Interleaving.Listed.{cur-total}
use fide.Loader.{Floats, Loaded, calculate_ent}
use fide.Loader.Walk.{next_interval}
use fide.Loader.Between.{lookup-record_source-other, record_source-found, record_source-missing}
use fide.Loader.Memory.{table_calls, table-MapLaws, all_entries}
use fide.Loader.Interval.{calculate_ent_lem}
use fide.Loader.Together.{
  Joint, loaded, IsSound, Sound, HasRoom, packet, interval, Reaches, start, then_step,
  Reaches-Sound, counted-logger,
}

-- What is to be kept of a source: nothing where it sent no packet in both intervals.
unfoldable pub expected : ℕ → List Event → Option (ℕ × ℕ)
expected k es =
    let r = tally (λ j. j == k) (0, 0) es in if r.0 == 0 && r.1 == 0 then none else some r

-- What is kept of a source.
unfoldable pub kept : Option LoggerValue → Option (ℕ × ℕ)
kept none = none
kept (some v) = some (v.prev, v.cur)

-- The maps hold what the history says, for each source and for all.
pub record Remembers (es : List Event) (s : State) : Type 0 where
  pub entry : DataValue
  pub is_entry : s.data_entry ≡ some entry
  pub all_sources : (entry.prev_interval_pkt, entry.cur_interval_pkt) ≡ tally (λ j. true) (0, 0) es
  pub sources : (k : ℕ) → kept (lookup k s.logger) ≡ expected k es

lookup-record_source-found :
    (k : ℕ) (v : LoggerValue) (m : List (ℕ × LoggerValue))
    → lookup k m ≡ some v
    → total cur_of m + 1 < 2 ^ 32
    → kept (lookup k (record_source k m)) ≡ some (v.prev, v.cur + 1)
unfolding kept
lookup-record_source-found k v m e room =
    let u = record v { cur = add32 v.cur 1 } in
    rw (record_source-found k v m e) (
      ap kept (lookup-store k u v m e)
      ∙ ap (λ n. some (v.prev, n)) {y = v.cur + 1} (omega (arith, cur-total k v m e)))

lookup-record_source-missing :
    (k : ℕ) (m : List (ℕ × LoggerValue))
    → lookup k m ≡ none
    → length m < logger_max_entries
    → kept (lookup k (record_source k m)) ≡ some (0, 1)
unfolding kept
lookup-record_source-missing k m e slot =
    rw (record_source-missing k m e) (unfold add_entry lookup in ground arith)

own_packet :
    (k : ℕ) (es : List Event) (m : List (ℕ × LoggerValue))
    → total cur_of m + 1 < 2 ^ 32
    → length m < logger_max_entries
    → kept (lookup k m) ≡ expected k es
    → kept (lookup k (record_source k m)) ≡ expected k (came k ∷ es)
unfolding expected tally kept
own_packet k es m room slot h = elim (Option-cases (lookup k m)) [
  | inl e ↦ ground (arith, e, h, lookup-record_source-missing k m e slot)
  | inr (v, e) ↦ ground (arith, e, h, lookup-record_source-found k v m e room)
]

pub packet_expected :
    (k : ℕ) (es : List Event) (m : List (ℕ × LoggerValue))
    → total cur_of m + 1 < 2 ^ 32
    → length m < logger_max_entries
    → (j : ℕ) → kept (lookup j m) ≡ expected j es
    → kept (lookup j (record_source k m)) ≡ expected j (came k ∷ es)
unfolding expected tally kept
packet_expected k es m room slot j h = elim (ℕ_discrete k j) [
  | no n ↦ rw (lookup-record_source-other k j m n) (ground (arith, h))
  | yes y ↦
      subst (λ i. kept (lookup i (record_source k m)) ≡ expected i (came k ∷ es)) y
        (own_packet k es m room slot (subst (λ i. kept (lookup i m) ≡ expected i es) (sym y) h))
]

lookup-next_interval :
    (j : ℕ) (m : List (ℕ × LoggerValue))
    → Distinct m
    → kept (lookup j (next_interval m))
      ≡ elim (kept (lookup j m)) [ none ↦ none | some r ↦ if r.1 == 0 then none else some (r.1, 0) ]
unfolding kept lookup next_interval Distinct
lookup-next_interval j [] u = refl
lookup-next_interval j ((k, v) ∷ m) (once, u) = ground (arith, lookup-next_interval j m u, once)

pub end_expected :
    (es : List Event) (m : List (ℕ × LoggerValue))
    → Distinct m
    → (j : ℕ) → kept (lookup j m) ≡ expected j es
    → kept (lookup j (next_interval m)) ≡ expected j (ended ∷ es)
unfolding expected tally
end_expected es m u j h = ground (arith, lookup-next_interval j m u, h)

-- The event that a packet is, if it has both headers.
unfoldable pub with_packet : {p : Bytes} → Kind p → List Event → List Event
with_packet {p} (ipv4 q) es = came (source_of p) ∷ es
with_packet (too_short k) es = es
with_packet (not_ip k u) es = es
with_packet (cut_ip k l u x) es = es

module _ {F : Type 0} (floats : Floats F) where
  -- The events on the way, the last one first.
  unfoldable pub history : {j k : Joint} → Reaches floats j k → List Event
  history (start j) = []
  history (then_step j i k r (packet _ p t v room n h)) = with_packet (Kind-of p) (history r)
  history (then_step j i k r (interval _ l full h)) = ended ∷ history r
