-- ===== src/Loader/Flows.antt =====
-- calculate_entropy and calculate_entropy_csv of user+ebpf/main/xdp_loader.c, which compare two
-- intervals flow by flow. What memory from malloc holds before it is written is an argument.
pub mod Counts
pub mod Calls
mod Tests
use fide.Base.{
  ℕ, zero, suc, ◌+◌, ◌-◌, ◌^◌, List, [], ◌∷◌, Bool, true, false, Option, none, some, leb, ◌==◌,
  if◌then◌else◌, get_elem?, add32, sub32, mul32, is_neg32,
}
use fide.Loader.{Floats}
use fide.Loader.Trie.{LpmKey, TrieCalls, max_flows, drain_all}

-- `struct flow`; no code reads `ip_dest`.
pub record Flow (F : Type 0) : Type 0 where
  pub ip_src : ℕ
  pub packet_count : ℕ
  pub entropy : F

-- `struct interval`: its flows by their index. Every index in the code is below its 100000.
abbrev pub Interval : Type 0 → Type 0
Interval F = ℕ → Flow F

abbrev pub set : {F : Type 0} → ℕ → Flow F → Interval F → Interval F
set i f invl = λ k. if k == i then f else invl k

-- `double` and the C library's functions on it, where calculate_ent does not use them. `to_int` is
-- the conversion of an argument of `abs`, which is a function on `int`.
pub record MoreFloats (F : Type 0) : Type 0 where
  pub from_u32 : ℕ → F
  pub log : F → F
  pub sqrt : F → F
  pub to_int : F → ℕ

-- `bpf_map_update_elem` of the blacklist with BPF_NOEXIST.
pub record BlacklistCalls (B : Type 0) : Type 0 where
  pub update_noexist : LpmKey → ℕ → B → B

-- `packet_count_alltime`, `cur_packet_count`, `holder` and `beta`.
pub record Counters : Type 0 where
  pub packet_count_alltime : ℕ
  pub cur_packet_count : ℕ
  pub holder : ℕ
  pub beta : ℕ

abbrev pub abs32 : ℕ → ℕ
abs32 a = if is_neg32 a then sub32 0 a else a

-- The loop that adds up the packets of an interval; the first argument is how many rounds are left.
unfoldable pub add_packets : {F : Type 0} → ℕ → ℕ → Interval F → ℕ → ℕ
add_packets zero i prev count = count
add_packets (suc n) i prev count = elim ((prev i).packet_count == 0) [
  | true ↦ count
  | false ↦ add_packets n (suc i) prev (add32 count (prev i).packet_count)
]

module _ {F : Type 0} (floats : Floats F) (more : MoreFloats F) where
  open floats use {from_int, plus, minus, times, over, less, half}
  open more use {from_u32, log, sqrt, to_int}

  -- `-1 * x`
  abbrev pub opposite : F → F
  opposite x = times (from_int (2 ^ 32 - 1)) x

  -- The loop that looks for the flow's address in the other interval.
  unfoldable pub find_tau : ℕ → ℕ → Interval F → Flow F → F
  find_tau zero j cur f = from_int 0
  find_tau (suc n) j cur f = elim (f.ip_src == (cur j).ip_src) [
    | true ↦
        if leb (cur j).packet_count f.packet_count
        then log (over (from_u32 (cur j).packet_count) (from_u32 f.packet_count))
        else log (over (from_u32 f.packet_count) (from_u32 (cur j).packet_count))
    | false ↦ elim ((cur j).ip_src == 0) [ true ↦ from_int 0 | false ↦ find_tau n (suc j) cur f ]
  ]

  unfoldable pub flow_entropy : Interval F → ℕ → Flow F → F
  flow_entropy cur cur_packet_count f =
      let value = opposite (log (over (from_u32 f.packet_count) (from_int cur_packet_count))) in
      let tau = find_tau max_flows 0 cur f in
      plus value (if less tau (from_int 0) then opposite tau else tau)

  -- The loop over the flows that stores their entropies and adds up their packets.
  unfoldable pub measure : ℕ → ℕ → Interval F → Interval F → Counters → Interval F × Counters
  measure zero i cur prev c = (prev, c)
  measure (suc n) i cur prev c = elim ((prev i).packet_count == 0) [
    | true ↦ (prev, c)
    | false ↦
        let f = prev i in
        measure n (suc i) cur
          (set i (record f { entropy = flow_entropy cur c.cur_packet_count f }) prev)
          (record c {
            packet_count_alltime = add32 c.packet_count_alltime f.packet_count;
            holder = add32 c.holder f.packet_count;
          })
  ]

  -- The sum of the entropies, and how many flows there are.
  unfoldable pub sum_entropies : ℕ → ℕ → Interval F → F → F × ℕ
  sum_entropies zero i prev sum = (sum, i)
  sum_entropies (suc n) i prev sum = elim ((prev i).packet_count == 0) [
    | true ↦ (sum, i)
    | false ↦ sum_entropies n (suc i) prev (plus sum (prev i).entropy)
  ]

  unfoldable pub deviations : ℕ → ℕ → Interval F → F → F → F
  deviations zero i prev avg sum = sum
  deviations (suc n) i prev avg sum =
      let d = abs32 (to_int (minus (prev i).entropy avg)) in
      deviations n (suc i) prev avg (plus sum (from_int (mul32 d d)))

  module _ {B : Type 0} (blacklist_calls : BlacklistCalls B) where
    open blacklist_calls use {update_noexist}

    -- The loop that changes `beta` and adds to the blacklist; `high` is the factor of the first
    -- test.
    unfoldable pub block : ℕ → ℕ → Interval F → F → F → F → ℕ → B → ℕ × B
    block zero i prev avg std high beta blacklist = (beta, blacklist)
    block (suc n) i prev avg std high beta blacklist =
        let f = prev i in
        let beta' =
          if less (times high avg) f.entropy
          then add32 beta 1
          else if less f.entropy (times half avg)
          then sub32 beta 1
          else beta in
        let away = abs32 (to_int (minus avg f.entropy)) in
        let blacklist' =
          if less (times (from_int beta') std) (from_int away)
          then update_noexist (record { prefixlen = 32; address = f.ip_src }) 0 blacklist
          else blacklist in
        block n (suc i) prev avg std high beta' blacklist'

    -- What both functions do with the two intervals: the loops over `bound` flows.
    unfoldable pub compare_intervals : ℕ → F → Interval F → Interval F → Counters → B → Counters × B
    compare_intervals bound high cur prev c blacklist =
        let count = add_packets bound 0 prev c.cur_packet_count in
        let (measured, c') = measure bound 0 cur prev (record c { cur_packet_count = count }) in
        let (sum, num_of_flow) = sum_entropies bound 0 measured (from_int 0) in
        let avg = over sum (from_int num_of_flow) in
        let deviation = deviations (suc num_of_flow) 0 measured avg (from_int 0) in
        let std = sqrt (over deviation (from_int num_of_flow)) in
        let (beta, blacklist') =
          block (suc num_of_flow) 0 measured avg std high c'.beta blacklist in
        (record c' { cur_packet_count = 0; beta = beta }, blacklist')

-- The flows that calculate_entropy writes, in fresh memory.
unfoldable pub written_flows : {F : Type 0} → Interval F → List (ℕ × ℕ) → Interval F
written_flows memory rows = λ k. elim (get_elem? rows k) [
  | some r ↦ record (memory k) { ip_src = r.0; packet_count = r.1 }
  | none ↦ memory k
]

-- What calculate_entropy works on; `prev` is `*invl_prev`.
pub record Analysis (M B F : Type 0) : Type 0 where
  pub logger : M
  pub blacklist : B
  pub prev : Interval F
  pub counters : Counters

-- `memory` and `key` are what `*invl_cur` and `*next` hold before they are written.
unfoldable pub calculate_entropy :
    {M B F : Type 0}
    → TrieCalls M
    → Floats F
    → MoreFloats F
    → BlacklistCalls B
    → Interval F
    → LpmKey
    → Analysis M B F
    → Analysis M B F
calculate_entropy calls floats more blacklist_calls memory key s =
    let d = drain_all calls key s.logger in
    let cur = written_flows memory d.rows in
    let (c, blacklist) =
      compare_intervals floats more blacklist_calls max_flows (floats.from_int 2) cur s.prev
        s.counters s.blacklist in
    record { logger = d.left; blacklist = blacklist; prev = cur; counters = c }

-- `bpf_map_lookup_elem` and `bpf_map_update_elem` of an array map of two intervals.
pub record ArrayCalls (M F : Type 0) : Type 0 where
  pub lookup_elem : M → ℕ → Option (Interval F)
  pub update_elem : ℕ → Interval F → M → M

pub record CsvAnalysis (M B : Type 0) : Type 0 where
  pub logger : M
  pub blacklist : B
  pub counters : Counters

abbrev pub csv_flows : ℕ
csv_flows = 1000

-- `memory` is what `*invl_new` holds, which is never written.
unfoldable pub calculate_entropy_csv :
    {M B F : Type 0}
    → ArrayCalls M F
    → Floats F
    → MoreFloats F
    → BlacklistCalls B
    → Interval F
    → CsvAnalysis M B
    → CsvAnalysis M B
calculate_entropy_csv calls floats more blacklist_calls memory s =
    elim (calls.lookup_elem s.logger 0) [
      | none ↦ s
      | some prev ↦ elim (calls.lookup_elem s.logger 1) [
        | none ↦ s
        | some cur ↦
            let (c, blacklist) =
              compare_intervals floats more blacklist_calls csv_flows floats.one_and_half cur prev
                s.counters s.blacklist in
            record {
              logger = calls.update_elem 0 cur (calls.update_elem 1 memory s.logger);
              blacklist = blacklist;
              counters = c;
            }
      ]
    ]
