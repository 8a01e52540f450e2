-- ===== src/Kernel/History/Packets.antt =====
-- One packet to fully_in-kernel/main/xdp_prog_kern.c, against the history.
use native.Mathlib.Decide.{ℕ_discrete}
use mathlib.Core.Path.{subst}
use fide.Base.{
  ℕ, ◌+◌, ◌^◌, ◌<◌, ◌≤◌, ◌≡◌, refl, sym, ap, ◌∙◌, arith, List, ◌∷◌, Option, none, some, length,
  ◌==◌, Bool, true, false, Option-cases, Bool-cases, inl, inr,
}
use fide.History.{Event, came, ended, tally, tally-le}
use fide.Packet.{Bytes}
use fide.HashMap.{lookup}
use fide.HashMap.Walk.{Distinct}
use fide.HashMap.Laws.{upsert-Distinct, lookup-upsert-other}
use fide.Kernel.Types.{DataValue, Logger, logger_map_size, Globals, State, Verdict}
use fide.Kernel.Interval.{new_value, count_packet, record_source, claim_interval, end_interval}
use fide.Kernel.Handler.{check_interval, xdp_filter_func}
use fide.Kernel.Verdicts.{
  source_of, listed_as, Kind, too_short, not_ip, cut_ip, ipv4, short, other_type, short_ip,
  ipv4-listed, ipv4_unlisted, counted, count_source_inv,
}
use fide.Kernel.Counting.{IsSized, Sized, HasRoom, count_packet-one_more}
use fide.Kernel.History.{numbers, record_source-upsert, record_source-numbers, end_interval-numbers}

-- A packet at this time ends the interval.
abbrev pub closes : ℕ → Option ℕ → Bool
closes ts none = false
closes ts (some stamp) = (claim_interval ts stamp).1

abbrev closing : Bool → List Event → List Event
closing true es = ended ∷ es
closing false es = es

-- The events that a packet is: if it has both headers and its source is not listed, it is counted,
-- and it may end the interval.
unfoldable pub with_packet : {p : Bytes} → ℕ → State → Kind p → List Event → List Event
with_packet {p} ts s (ipv4 q) es = elim (listed_as s p) [
  | some rule ↦ es
  | none ↦ closing (closes ts s.timestamp) (came (source_of p) ∷ es)
]
with_packet ts s (too_short k) es = es
with_packet ts s (not_ip k u) es = es
with_packet ts s (cut_ip k l u x) es = es

-- From the sources and the counts of the interval at the start.
module _ (m0 : Logger) (d0 : DataValue) where
  -- What the history says of a source.
  abbrev pub expected : ℕ → List Event → ℕ × ℕ
  expected k es = tally (λ j. j == k) (numbers (lookup k m0)) es

  -- The maps hold what the history says, for each source and for all.
  pub record Remembers (es : List Event) (s : State) : Type 0 where
    pub entry : DataValue
    pub is_entry : s.interval ≡ some entry
    pub distinct : Distinct s.logger
    pub all_sources :
        (entry.prev_interval_pkt, entry.cur_interval_pkt)
        ≡ tally (λ j. true) (d0.prev_interval_pkt, d0.cur_interval_pkt) es
    pub sources : (k : ℕ) → numbers (lookup k s.logger) ≡ expected k es

module _ (m0 : Logger) (d0 : DataValue)
    (within : (k : ℕ) → (numbers (lookup k m0)).1 ≤ d0.cur_interval_pkt) where
  counted_source :
      (k : ℕ) (es : List Event) (m : Logger)
      → (tally (λ j. true) (d0.prev_interval_pkt, d0.cur_interval_pkt) es).1 + 1 < 2 ^ 30
      → length m < logger_map_size
      → ((j : ℕ) → numbers (lookup j m) ≡ expected m0 d0 j es)
      → (j : ℕ) → numbers (lookup j (record_source k m)) ≡ expected m0 d0 j (came k ∷ es)
  unfolding tally
  counted_source k es m room slot h j = elim (ℕ_discrete k j) [
    | no n ↦
        rw (record_source-upsert k m)
          (rw (lookup-upsert-other _ new_value logger_map_size k j m n) (ground (arith, h j)))
    | yes y ↦
        let own : numbers (lookup k (record_source k m)) ≡ expected m0 d0 k (came k ∷ es) =
          record_source-numbers k m
            (omega (
              arith,
              ap (λ (r : ℕ × ℕ). r.1) (h k),
              tally-le (λ i. i == k) (numbers (lookup k m0))
                  (d0.prev_interval_pkt, d0.cur_interval_pkt) es (within k),
            ))
            slot
          ∙ ground (arith, h k) in
        subst (λ i. numbers (lookup i (record_source k m)) ≡ expected m0 d0 i (came k ∷ es)) y own
  ]

  counted-Remembers :
      (k : ℕ) (es : List Event) (s : State) (d d' : DataValue)
      → s.interval ≡ some d
      → IsSized d
      → d.cur_interval_pkt + 1 < 2 ^ 30
      → length s.logger < logger_map_size
      → count_packet d ≡ some d'
      → Remembers m0 d0 es s
      → Remembers m0 d0 (came k ∷ es) (counted k d' s)
  unfolding tally
  counted-Remembers k es s d d' e sized room slot c w =
      let same : w.entry ≡ d = ground (arith, e, w.is_entry) in
      let more = count_packet-one_more d d' sized room c in
      let now : (d.prev_interval_pkt, d.cur_interval_pkt)
          ≡ tally (λ j. true) (d0.prev_interval_pkt, d0.cur_interval_pkt) es =
        ap (λ (x : DataValue). (x.prev_interval_pkt, x.cur_interval_pkt)) (sym same)
        ∙ w.all_sources in
      record {
        entry = d';
        is_entry = refl;
        distinct =
            rw (record_source-upsert k s.logger)
              (upsert-Distinct _ new_value logger_map_size k s.logger w.distinct);
        all_sources =
            ap (λ (x : DataValue). (x.prev_interval_pkt, x.cur_interval_pkt)) more
            ∙ ground (arith, now);
        sources =
            counted_source k es s.logger (omega (arith, ap (λ (r : ℕ × ℕ). r.1) now)) slot
              w.sources;
      }

  moved :
      {es fs : List Event} {s t : State}
      → es ≡ fs
      → s ≡ t
      → Remembers m0 d0 es s
      → Remembers m0 d0 fs t
  moved {es} {fs} {s} {t} e f w =
      subst (λ l. Remembers m0 d0 l t) e (subst (λ x. Remembers m0 d0 es x) f w)

  -- The end of an interval: the numbers of this one are those of the one before.
  ended-Remembers :
      (es : List Event) (d d' : DataValue) (s : State) (m : Logger) (g : Globals) (stamp : Option ℕ)
      → s.interval ≡ some d
      → end_interval d s.logger s.globals ≡ some (d', m, g)
      → Remembers m0 d0 es s
      → Remembers m0 d0
          (ended ∷ es)
          (record s { timestamp = stamp; interval = some d'; logger = m; globals = g })
  unfolding tally
  ended-Remembers es d d' s m g stamp e f w =
      let (distinct, each, counts) =
        end_interval-numbers d d' s.logger m s.globals g w.distinct f in
      let entry : w.entry ≡ d = ground (arith, e, w.is_entry) in
      record {
        entry = d';
        is_entry = refl;
        distinct = distinct;
        all_sources =
            ap (λ (x : DataValue). (x.prev_interval_pkt, x.cur_interval_pkt)) counts
            ∙ ap (λ (x : DataValue). (x.cur_interval_pkt, 0)) (sym entry)
            ∙ ap (λ (r : ℕ × ℕ). (r.1, 0)) w.all_sources;
        sources = λ j. each j ∙ ap (λ (x : ℕ × ℕ). (x.1, 0)) (w.sources j);
      }

  checked-Remembers :
      (ts : ℕ) (es : List Event) (d : DataValue) (s t : State) (v : Verdict)
      → s.interval ≡ some d
      → check_interval ts d s ≡ some (v, t)
      → Remembers m0 d0 es s
      → Remembers m0 d0 (closing (closes ts s.timestamp) es) t
  unfolding check_interval
  checked-Remembers ts es d s t v e h w = elim (Option-cases s.timestamp) [
    | inl o ↦
        let same : s ≡ t = ground (arith, h, o) in
        moved (ap (λ x. closing (closes ts x) es) (sym o)) same w
    | inr (stamp, o) ↦
        let is_closed : (b : Bool)
            → (claim_interval ts stamp).1 ≡ b
            → closing b es ≡ closing (closes ts s.timestamp) es =
          λ b c. ap (λ x. closing x es) (sym c) ∙ ap (λ x. closing (closes ts x) es) (sym o) in
        let stamp' = some (claim_interval ts stamp).0 in
        elim (Bool-cases (claim_interval ts stamp).1) [
          | inl c ↦ elim (Option-cases (end_interval d s.logger s.globals)) [
            | inl n ↦ absurd (ground (arith, h, o, c, n))
            | inr ((d', m, g), f) ↦
                let same : record s {
                  timestamp = stamp';
                  interval = some d';
                  logger = m;
                  globals = g;
                }
                    ≡ t =
                  ground (arith, h, o, c, f) in
                moved (is_closed true c) same (ended-Remembers es d d' s m g stamp' e f w)
          ]
          | inr c ↦
              let same : record s { timestamp = stamp' } ≡ t = ground (arith, h, o, c) in
              moved (is_closed false c) same record {
                entry = w.entry;
                is_entry = w.is_entry;
                distinct = w.distinct;
                all_sources = w.all_sources;
                sources = w.sources;
              }
        ]
  ]

  pub packet-Remembers :
      (ts : ℕ) (p : Bytes) (es : List Event) (s t : State) (v : Verdict)
      → Sized s.interval
      → HasRoom s.interval
      → length s.logger < logger_map_size
      → xdp_filter_func ts p s ≡ some (v, t)
      → Remembers m0 d0 es s
      → (x : Kind p) → Remembers m0 d0 (with_packet ts s x es) t
  unfolding with_packet
  packet-Remembers ts p es s t v sized room slot h w x = by_kind x
    where
      by_kind : (x : Kind p) → Remembers m0 d0 (with_packet ts s x es) t
      by_kind (too_short k) =
          let same : s ≡ t = ground (arith, h, short ts p s k) in moved refl same w
      by_kind (not_ip k u) =
          let same : s ≡ t = ground (arith, h, other_type ts p s k u) in moved refl same w
      by_kind (cut_ip k l u y) =
          let same : s ≡ t = ground (arith, h, short_ip ts p s k l u y) in moved refl same w
      by_kind (ipv4 q) = elim (Option-cases (listed_as s p)) [
        | inr (rule, f) ↦
            let same : s ≡ t = ground (arith, h, ipv4-listed ts p s q f) in
            moved (ground (arith, f)) same w
        | inl f ↦
            elim (count_source_inv ts (source_of p) s (v, t) (sym (ipv4_unlisted ts p s q f) ∙ h)) [
              | inl (none_there, _) ↦ absurd (ground (arith, none_there, w.is_entry))
              | inr (d, d', e, c, k) ↦
                  let counts =
                    counted-Remembers (source_of p) es s d d' e (subst Sized e sized)
                      (subst HasRoom e room) slot c w in
                  moved (ground (arith, f)) refl (
                    checked-Remembers ts (came (source_of p) ∷ es) d' (counted (source_of p) d' s) t
                      v refl k counts)
            ]
      ]
