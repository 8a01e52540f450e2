-- ===== src/Loader/Flows/Counts.antt =====
-- The packets that calculate_entropy and calculate_entropy_csv of xdp_loader.c add up.
use mathlib.Core.Path.{subst}
use fide.Base.{
  ℕ, zero, suc, ◌+◌, ◌%◌, ◌^◌, ◌≤◌, ◌<◌, ◌≡◌, ◌≢◌, refl, ap, ◌∙◌, arith, List, [], ◌∷◌, length,
  add32,
}
use fide.Loader.{Floats}
use fide.Loader.Flows.{
  Flow, Interval, set, MoreFloats, BlacklistCalls, Counters, add_packets, measure, flow_entropy,
  compare_intervals, written_flows,
}

-- From the flow `i` on the interval has these addresses and packets, none without a packet, and
-- then a flow without one.
unfoldable pub Holds : {F : Type 0} → ℕ → Interval F → List (ℕ × ℕ) → Type 0
Holds i invl [] = (invl i).packet_count ≡ 0
Holds i invl ((a, c) ∷ rows) =
    ((invl i).ip_src ≡ a) × ((invl i).packet_count ≡ c) × (c ≢ 0) × Holds (suc i) invl rows

unfoldable pub packets : List (ℕ × ℕ) → ℕ
packets [] = 0
packets ((a, c) ∷ rows) = c + packets rows

set-Holds :
    {F : Type 0} (i j : ℕ) (f : Flow F) (invl : Interval F) (rows : List (ℕ × ℕ))
    → i < j
    → Holds j invl rows
    → Holds j (set i f invl) rows
unfolding Holds
set-Holds i j f invl [] h w = ground arith
set-Holds i j f invl ((a, c) ∷ rows) h (src, count, full, w) =
    (ground arith, ground arith, full, set-Holds i (suc j) f invl rows (omega arith) w)

pub add_packets-packets :
    {F : Type 0} (n i : ℕ) (prev : Interval F) (count : ℕ) (rows : List (ℕ × ℕ))
    → Holds i prev rows
    → length rows ≤ n
    → add_packets n i prev count % 2 ^ 32 ≡ (count + packets rows) % 2 ^ 32
unfolding add_packets Holds packets
add_packets-packets zero i prev count [] w h = omega arith
add_packets-packets zero i prev count (r ∷ rows) w h = absurd (omega arith)
add_packets-packets (suc n) i prev count [] w h = ground arith
add_packets-packets (suc n) i prev count ((a, c) ∷ rows) (src, same, full, w) h =
    ground (arith, add_packets-packets n (suc i) prev (add32 count (prev i).packet_count) rows w)

module _ {F : Type 0} (floats : Floats F) (more : MoreFloats F) where
  -- What the loop over the flows does to the counters.
  pub record Added (c : Counters) (rows : List (ℕ × ℕ)) (c' : Counters) : Type 0 where
    pub alltime :
        c'.packet_count_alltime % 2 ^ 32 ≡ (c.packet_count_alltime + packets rows) % 2 ^ 32
    pub held : c'.holder % 2 ^ 32 ≡ (c.holder + packets rows) % 2 ^ 32

  measure-Added :
      (n i : ℕ) (cur prev : Interval F) (c : Counters) (rows : List (ℕ × ℕ))
      → Holds i prev rows
      → length rows ≤ n
      → Added c rows (measure floats more n i cur prev c).1
  unfolding measure Holds packets
  measure-Added zero i cur prev c [] w h = record { alltime = omega arith; held = omega arith }
  measure-Added zero i cur prev c (r ∷ rows) w h = absurd (omega arith)
  measure-Added (suc n) i cur prev c [] w h =
      let stop : c ≡ (measure floats more (suc n) i cur prev c).1 = ground arith in
      subst (Added c []) stop record { alltime = omega arith; held = omega arith }
  measure-Added (suc n) i cur prev c ((a, k) ∷ rows) (src, same, full, w) h =
      let f = prev i in
      let prev' =
        set i (record f { entropy = flow_entropy floats more cur c.cur_packet_count f }) prev in
      let c' = record c {
        packet_count_alltime = add32 c.packet_count_alltime f.packet_count;
        holder = add32 c.holder f.packet_count;
      } in
      let rest =
        measure-Added n (suc i) cur prev' c' rows (set-Holds i (suc i) _ prev rows (omega arith) w)
          (omega arith) in
      let go : (measure floats more n (suc i) cur prev' c').1
          ≡ (measure floats more (suc n) i cur prev c).1 =
        ground arith in
      subst (Added c ((a, k) ∷ rows)) go record {
        alltime = omega (arith, rest.alltime, same);
        held = omega (arith, rest.held, same);
      }

  module _ {B : Type 0} (calls : BlacklistCalls B) where
    -- Whatever the entropies, both counters of reported packets grow by those of the earlier
    -- interval, and the count for one interval is 0 again.
    pub compare_intervals-Added :
        (bound : ℕ) (high : F) (cur prev : Interval F) (c : Counters) (blacklist : B)
        (rows : List (ℕ × ℕ))
        → Holds 0 prev rows
        → length rows ≤ bound
        → let r = compare_intervals floats more calls bound high cur prev c blacklist in
          Added c rows r.0 × (r.0.cur_packet_count ≡ 0)
    unfolding compare_intervals
    compare_intervals-Added bound high cur prev c blacklist rows w h =
        let count = add_packets bound 0 prev c.cur_packet_count in
        let m = measure-Added bound 0 cur prev (record c { cur_packet_count = count }) rows w h in
        (record { alltime = m.alltime; held = m.held }, refl)

-- Memory whose flows are without packets.
abbrev pub Zeroed : {F : Type 0} → Interval F → Type 0
Zeroed memory = (k : ℕ) → (memory k).packet_count ≡ 0

-- No row without a packet.
unfoldable pub Full : List (ℕ × ℕ) → Type 0
Full [] = Unit
Full ((a, c) ∷ rows) = (c ≢ 0) × Full rows

shifted-Holds :
    {F : Type 0} (i : ℕ) (invl memory : Interval F) (rows : List (ℕ × ℕ))
    → ((k : ℕ) → invl (i + k) ≡ written_flows memory rows k)
    → Zeroed memory
    → Full rows
    → Holds i invl rows
unfolding Holds Full written_flows
shifted-Holds i invl memory [] same z w =
    ap (λ k. (invl k).packet_count) {x = i} {y = i + 0} (omega arith)
    ∙ ap (λ f. Flow.packet_count f) (same 0)
    ∙ z 0
shifted-Holds i invl memory ((a, c) ∷ rows) same z (full, w) =
    let here : invl i ≡ record (memory 0) { ip_src = a; packet_count = c } =
      ap (λ k. invl k) {x = i} {y = i + 0} (omega arith) ∙ same 0 in
    (
      ap (λ f. Flow.ip_src f) here,
      ap (λ f. Flow.packet_count f) here,
      full,
      shifted-Holds (suc i) invl (λ k. memory (suc k)) rows
          (λ k. ap (λ j. invl j) {x = suc i + k} {y = i + suc k} (omega arith) ∙ same (suc k))
          (λ k. z (suc k)) w,
    )

-- An interval that was written into memory without packets holds the rows.
pub written_flows-Holds :
    {F : Type 0} (memory : Interval F) (rows : List (ℕ × ℕ))
    → Zeroed memory
    → Full rows
    → Holds 0 (written_flows memory rows) rows
written_flows-Holds memory rows z w =
    shifted-Holds 0 (written_flows memory rows) memory rows
      (λ k. ap (λ j. written_flows memory rows j) {x = 0 + k} (omega arith)) z w
