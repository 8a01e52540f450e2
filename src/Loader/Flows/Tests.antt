-- ===== src/Loader/Flows/Tests.antt =====
-- Runs of check_trie, calculate_entropy and calculate_entropy_csv of xdp_loader.c with whole
-- numbers for the floating point, and the theorems there.
use fide.Base.{
  ℕ, ◌+◌, ◌-◌, ◌*◌, ◌≡◌, refl, arith, List, [], ◌∷◌, none, some, ltb, ◌==◌, if◌then◌else◌,
}
use fide.Loader.{Floats}
use fide.Loader.Trie.{LpmKey, drain, drain_all, print_rows, check_trie}
use fide.Loader.Trie.Drain.{Unlisted, Once, head_key, rows_of}
use fide.Loader.Trie.Memory.{
  same_key, find, remove, after, next_key, list_calls, itself, list_calls-TrieLaws,
}
use fide.Loader.Flows.{
  Interval, MoreFloats, BlacklistCalls, Counters, Analysis, calculate_entropy, ArrayCalls,
  CsvAnalysis, calculate_entropy_csv,
}
use fide.Loader.Flows.Counts.{Holds, Full}
use fide.Loader.Flows.Calls.{
  Advanced, calculate_entropy-Advanced, ArrayLaws, Shifted, calculate_entropy_csv-Shifted,
}

abbrev whole : Floats ℕ
whole = record {
  from_int = λ n. n;
  plus = λ a b. a + b;
  minus = λ a b. a - b;
  times = λ a b. a * b;
  over = λ a b. a - b;
  log2 = λ a. a;
  fabs = λ a. a;
  less = ltb;
  half = 0;
  one_and_half = 1;
}

abbrev more : MoreFloats ℕ
more = record { from_u32 = λ n. n; log = λ a. a; sqrt = λ a. a; to_int = λ a. a }

-- The blacklist is the list of the addresses that were added.
abbrev listed : BlacklistCalls (List ℕ)
listed = record { update_noexist = λ k v b. k.address ∷ b }

abbrev key : ℕ → LpmKey
key n = record { prefixlen = 32; address = n }

abbrev logger : List (LpmKey × ℕ)
logger = (key 5, 3) ∷ (key 6, 1) ∷ []

logger-Once : Once logger
unfolding Once Unlisted
logger-Once = ((λ e. absurd (ground (arith, ap_address e)), tt), (tt, tt))
  where
    ap_address : {a b : LpmKey} → a ≡ b → a.address ≡ b.address
    ap_address e = λ i. (e i).address

trie_run : check_trie list_calls (key 0) logger ≡ (some ((5, 3) ∷ (6, 1) ∷ []), [])
unfolding check_trie drain_all drain print_rows find remove next_key after head_key same_key
trie_run = refl

abbrev empty : Interval ℕ
empty = λ k. record { ip_src = 0; packet_count = 0; entropy = 0 }

-- One flow of two packets.
abbrev earlier : Interval ℕ
earlier = λ k. record { ip_src = 5; packet_count = if k == 0 then 2 else 0; entropy = 0 }

earlier-Holds : Holds 0 earlier ((5, 2) ∷ [])
unfolding Holds
earlier-Holds = (refl, refl, omega arith, refl)

abbrev counters : Counters
counters = record { packet_count_alltime = 10; cur_packet_count = 0; holder = 4; beta = 1 }

abbrev before : Analysis (List (LpmKey × ℕ)) (List ℕ) ℕ
before = record { logger = logger; blacklist = []; prev = earlier; counters = counters }

logger-Full : Full (rows_of logger)
unfolding Full rows_of
logger-Full = (omega arith, (omega arith, tt))

calculate_entropy-Advanced_example :
    Advanced list_calls itself list_calls-TrieLaws whole more listed before
      (calculate_entropy list_calls whole more listed empty (key 0) before)
      ((5, 2) ∷ [])
calculate_entropy-Advanced_example =
    calculate_entropy-Advanced list_calls itself list_calls-TrieLaws whole more listed empty (key 0)
      before ((5, 2) ∷ []) earlier-Holds (omega arith) (λ k. refl) (λ e. absurd (ground (arith, e)))
      logger-Once (omega arith) logger-Full

-- Two intervals, by their index.
abbrev pair_calls : ArrayCalls (Interval ℕ × Interval ℕ) ℕ
pair_calls = record {
  lookup_elem = λ m k. if k == 0 then some m.0 else if k == 1 then some m.1 else none;
  update_elem = λ k v m. if k == 0 then (v, m.1) else if k == 1 then (m.0, v) else m;
}

pair_calls-ArrayLaws : ArrayLaws pair_calls whole more listed
pair_calls-ArrayLaws = record {
  lookup_same = λ m k v w h. ground arith;
  lookup_other = λ m j k v n. ground arith;
}

abbrev csv_before : CsvAnalysis (Interval ℕ × Interval ℕ) (List ℕ)
csv_before = record { logger = (earlier, empty); blacklist = []; counters = counters }

calculate_entropy_csv-Shifted_example :
    Shifted pair_calls whole more listed empty empty csv_before
      (calculate_entropy_csv pair_calls whole more listed empty csv_before)
      ((5, 2) ∷ [])
calculate_entropy_csv-Shifted_example =
    calculate_entropy_csv-Shifted pair_calls whole more listed pair_calls-ArrayLaws empty empty
      earlier csv_before ((5, 2) ∷ []) refl refl earlier-Holds (omega arith)
