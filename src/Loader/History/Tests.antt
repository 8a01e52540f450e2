-- ===== src/Loader/History/Tests.antt =====
-- A packet and an end of an interval from empty maps, with whole numbers for the floating point,
-- against their history.
use fide.Base.{ℕ, ◌+◌, ◌-◌, ◌*◌, ◌≡◌, refl, arith, [], ◌∷◌, none, some, ltb}
use fide.Packet.{Bytes, load16, load32}
use fide.HashMap.{lookup, store, add_entry, total}
use fide.HashMap.Walk.{key_after, first_key, erase, following}
use fide.Split.{
  State, redirect, redirect_map, new_value, record_source, final_verdict, count_source,
  xdp_filter_func,
}
use fide.Split.Interleaving.{insert_any}
use fide.Loader.{
  Floats, entropy_of, collect, sum_deviation, adjust_beta, reset_one, reset_sources, walk,
  calculate_ent,
}
use fide.Loader.Memory.{table_calls}
use fide.Loader.Rounds.{report}
use fide.Loader.Together.{Joint, loaded, packet, interval, start, then_step, Reaches}
use fide.Loader.History.{Remembers, history}
use fide.Loader.History.Reached.{no_counts, Reaches-Remembers}

abbrev whole : Floats ℕ
whole = record {
  from_int = λ n. n;
  plus = λ a b. a + b;
  minus = λ a b. a - b;
  times = λ a b. a * b;
  over = λ a b. a - b;
  log2 = λ a. a;
  fabs = λ a. a;
  less = ltb;
  half = 0;
  one_and_half = 1;
}

-- From 10.0.0.1, whose address is 0x0100000a as a little-endian word.
abbrev first : Bytes
first =
    0 ∷ 0 ∷ 0 ∷ 0 ∷ 0 ∷ 0 ∷ 0 ∷ 0 ∷ 0 ∷ 0 ∷ 0 ∷ 0 ∷ 8 ∷ 0 ∷ 69 ∷ 0 ∷ 0 ∷ 20 ∷ 0 ∷ 0 ∷ 0 ∷ 0 ∷ 64
    ∷ 17 ∷ 0 ∷ 0 ∷ 10 ∷ 0 ∷ 0 ∷ 1 ∷ 10 ∷ 0 ∷ 0 ∷ 2 ∷ []

abbrev empty : State
empty = record { logger = []; blacklist = λ k. none; data_entry = some no_counts; tx_port = some 0 }

abbrev counted : State
counted = record empty {
  logger = (0x0100000a, new_value) ∷ [];
  data_entry = some (record no_counts { cur_interval_pkt = 1 });
}

abbrev moved : State
moved = record empty {
  logger = (0x0100000a, record { prev = 1; cur = 0; entropy = 0 }) ∷ [];
  data_entry = some (record { prev_interval_pkt = 1; cur_interval_pkt = 0 });
}

abbrev fresh : Joint
fresh = record { kernel = empty; holder = 0; beta = 0; count = 0 }

abbrev between : Joint
between = record fresh { kernel = counted }

abbrev last : Joint
last = record { kernel = moved; holder = 1; beta = 0; count = 1 }

packet_run : xdp_filter_func first empty ≡ some (redirect, counted)
unfolding xdp_filter_func load16 load32 count_source final_verdict record_source lookup add_entry
    redirect_map
packet_run = refl

interval_run : calculate_ent table_calls whole (loaded between) ≡ some (loaded last)
unfolding calculate_ent walk collect entropy_of sum_deviation adjust_beta reset_sources reset_one
    insert_any lookup key_after first_key store erase following
interval_run = refl

run : Reaches whole fresh last
unfolding total load32 report
run =
    then_step fresh between last
      (then_step fresh fresh between (start fresh) (
        packet fresh first counted redirect (omega arith, omega arith) (λ q. omega arith)
          packet_run))
      (interval between (loaded last) (λ e. absurd (ground (arith, e))) interval_run)

Reaches-Remembers_example : Remembers (history whole run) moved
Reaches-Remembers_example = Reaches-Remembers whole fresh last run refl refl
