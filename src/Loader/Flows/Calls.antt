-- ===== src/Loader/Flows/Calls.antt =====
-- One call of calculate_entropy or calculate_entropy_csv of xdp_loader.c.
use mathlib.Core.Path.{subst}
use fide.Base.{
  ℕ, ◌≤◌, ◌≡◌, ◌≢◌, sym, ap, ◌∙◌, arith, List, [], none, some, length, Option-cases, ◌⊎◌, inl, inr,
}
use fide.Loader.{Floats}
use fide.Loader.Trie.{LpmKey, TrieCalls, Drained, max_flows, drain_all}
use fide.Loader.Trie.Drain.{TrieLaws, Once, rows_of, drain_all-rows}
use fide.Loader.Flows.{
  Interval, MoreFloats, BlacklistCalls, compare_intervals, written_flows, Analysis,
  calculate_entropy, ArrayCalls, CsvAnalysis, csv_flows, calculate_entropy_csv,
}
use fide.Loader.Flows.Counts.{
  Holds, Added, Zeroed, Full, compare_intervals-Added, written_flows-Holds,
}

module _ {M B F : Type 0} (calls : TrieCalls M) (entries : M → List (LpmKey × ℕ))
    (laws : TrieLaws calls entries) (floats : Floats F) (more : MoreFloats F)
    (blacklist_calls : BlacklistCalls B) where
  -- What a call leaves: the map is empty, its entries are the flows of the interval that the next
  -- call looks at, and the flows of the earlier one have been reported.
  pub record Advanced (s t : Analysis M B F) (rows : List (ℕ × ℕ)) : Type 0 where
    pub emptied : entries t.logger ≡ []
    pub kept : Holds 0 t.prev (rows_of (entries s.logger))
    pub reported : Added floats more s.counters rows t.counters
    pub none_counted : t.counters.cur_packet_count ≡ 0

  -- A call of calculate_entropy on a map that has entries, each with packets, none twice and at
  -- most 10000: it empties the map, keeps its entries as the flows for the next call, and adds the
  -- packets of the flows that the call before kept to what is reported, whatever the floating
  -- point; where the memory from malloc has flows without packets.
  pub calculate_entropy-Advanced :
      (memory : Interval F) (key : LpmKey) (s : Analysis M B F) (rows : List (ℕ × ℕ))
      → Holds 0 s.prev rows
      → length rows ≤ max_flows
      → Zeroed memory
      → entries s.logger ≢ []
      → Once (entries s.logger)
      → length (entries s.logger) ≤ max_flows
      → Full (rows_of (entries s.logger))
      → Advanced s (calculate_entropy calls floats more blacklist_calls memory key s) rows
  unfolding calculate_entropy
  calculate_entropy-Advanced memory key s rows held few z some_entry o h full =
      let (m', num, ran, _, empty) =
        drain_all-rows calls entries laws key s.logger some_entry o h in
      let read = ap (λ (d : Drained M). d.rows) ran in
      let left = ap (λ (d : Drained M). d.left) ran in
      let cur = written_flows memory (drain_all calls key s.logger).rows in
      let (reported, none_counted) =
        compare_intervals-Added floats more blacklist_calls max_flows (floats.from_int 2) cur s.prev
          s.counters s.blacklist rows held few in
      record {
        emptied = ap entries left ∙ empty;
        kept =
            subst (λ r. Holds 0 (written_flows memory r) (rows_of (entries s.logger))) (sym read)
              (written_flows-Holds memory (rows_of (entries s.logger)) z full);
        reported = reported;
        none_counted = none_counted;
      }

module _ {M B F : Type 0} (calls : ArrayCalls M F) (floats : Floats F) (more : MoreFloats F)
    (blacklist_calls : BlacklistCalls B) where
  -- The documented behaviour of an array map with the elements 0 and 1.
  pub record ArrayLaws : Type 0 where
    pub lookup_same :
        (m : M) (k : ℕ) (v w : Interval F)
        → calls.lookup_elem m k ≡ some w
        → calls.lookup_elem (calls.update_elem k v m) k ≡ some v
    pub lookup_other :
        (m : M) (j k : ℕ) (v : Interval F)
        → j ≢ k
        → calls.lookup_elem (calls.update_elem k v m) j ≡ calls.lookup_elem m j

  -- What a call leaves that read both intervals.
  pub record Shifted (memory cur : Interval F) (s t : CsvAnalysis M B) (rows : List (ℕ × ℕ))
      : Type 0 where
    pub earlier : calls.lookup_elem t.logger 0 ≡ some cur
    pub fresh : calls.lookup_elem t.logger 1 ≡ some memory
    pub reported : Added floats more s.counters rows t.counters
    pub none_counted : t.counters.cur_packet_count ≡ 0

  csv-reads :
      (memory cur prev : Interval F) (s : CsvAnalysis M B)
      → calls.lookup_elem s.logger 0 ≡ some prev
      → calls.lookup_elem s.logger 1 ≡ some cur
      → let r =
          compare_intervals floats more blacklist_calls csv_flows floats.one_and_half cur prev
            s.counters s.blacklist in
        record {
          logger = calls.update_elem 0 cur (calls.update_elem 1 memory s.logger);
          blacklist = r.1;
          counters = r.0;
        }
        ≡ calculate_entropy_csv calls floats more blacklist_calls memory s
  unfolding calculate_entropy_csv
  csv-reads memory cur prev s e f = ground (arith, e, f)

  shift :
      ArrayLaws
      → (memory cur prev : Interval F) (s : CsvAnalysis M B) (rows : List (ℕ × ℕ))
      → calls.lookup_elem s.logger 0 ≡ some prev
      → calls.lookup_elem s.logger 1 ≡ some cur
      → Holds 0 prev rows
      → length rows ≤ csv_flows
      → let r =
          compare_intervals floats more blacklist_calls csv_flows floats.one_and_half cur prev
            s.counters s.blacklist in
        Shifted memory cur s
          record {
            logger = calls.update_elem 0 cur (calls.update_elem 1 memory s.logger);
            blacklist = r.1;
            counters = r.0;
          }
          rows
  shift laws memory cur prev s rows e f held few =
      let m = calls.update_elem 1 memory s.logger in
      let (reported, none_counted) =
        compare_intervals-Added floats more blacklist_calls csv_flows floats.one_and_half cur prev
          s.counters s.blacklist rows held few in
      record {
        earlier =
            laws.lookup_same m 0 cur prev (laws.lookup_other s.logger 0 1 memory (omega arith) ∙ e);
        fresh =
            laws.lookup_other m 1 0 cur (omega arith) ∙ laws.lookup_same s.logger 1 memory cur f;
        reported = reported;
        none_counted = none_counted;
      }

  -- A call of calculate_entropy_csv that reads both intervals, the first with at most 1000 flows,
  -- adds their packets to what is reported, whatever the floating point, moves the second interval
  -- to the first, and leaves as the second what the memory from malloc held.
  pub calculate_entropy_csv-Shifted :
      ArrayLaws
      → (memory cur prev : Interval F) (s : CsvAnalysis M B) (rows : List (ℕ × ℕ))
      → calls.lookup_elem s.logger 0 ≡ some prev
      → calls.lookup_elem s.logger 1 ≡ some cur
      → Holds 0 prev rows
      → length rows ≤ csv_flows
      → Shifted memory cur s (calculate_entropy_csv calls floats more blacklist_calls memory s) rows
  calculate_entropy_csv-Shifted laws memory cur prev s rows e f held few =
      subst (λ t. Shifted memory cur s t rows) (csv-reads memory cur prev s e f)
        (shift laws memory cur prev s rows e f held few)

  -- A call that cannot read one of the two intervals changes nothing.
  pub calculate_entropy_csv-unread :
      (memory : Interval F) (s : CsvAnalysis M B)
      → (calls.lookup_elem s.logger 0 ≡ none) ⊎ (calls.lookup_elem s.logger 1 ≡ none)
      → calculate_entropy_csv calls floats more blacklist_calls memory s ≡ s
  unfolding calculate_entropy_csv
  calculate_entropy_csv-unread memory s (inl e) = ground arith
  calculate_entropy_csv-unread memory s (inr f) =
      elim (Option-cases (calls.lookup_elem s.logger 0)) [
        | inl e ↦ ground arith
        | inr (prev, e) ↦ ground arith
      ]
