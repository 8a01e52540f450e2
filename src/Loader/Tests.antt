-- ===== src/Loader/Tests.antt =====
-- Runs of xdp_loader.c with whole numbers for its floating point, and its theorems there.
use fide.Base.{
  ℕ, ◌+◌, ◌*◌, ◌-◌, ◌%◌, ◌^◌, ◌≡◌, ◌≢◌, ◌⊎◌, refl, arith, List, [], ◌∷◌, Option, none, some, false,
  length, ltb,
}
use fide.Packet.{Bytes, load16, load32}
use fide.HashMap.{lookup, store, total}
use fide.HashMap.Walk.{Distinct, key_after, first_key, erase, following}
use fide.Params.{Config, Choice, dev, skb_mode, parse_cmdline_args, apply, set_dev, set_mode}
use fide.Attach.{xdp_link_attach, retry, swap_mode}
use fide.Attach.Tests.{set_one, one_link, on_device, one_link-LinkLaws, objects}
use fide.Attach.Load.{ObjectCalls}
use fide.Split.{
  DataValue, LoggerValue, State, redirect, redirect_map, record_source, count_source, final_verdict,
  xdp_filter_func,
}
use fide.Loader.{
  Floats, Loaded, Walked, walk, collect, sum_deviation, adjust_beta, reset_sources, reset_one,
  calculate_ent, entropy_of,
}
use fide.Loader.Walk.{next_interval, flows, walk-flows}
use fide.Split.Interleaving.{insert_any}
use fide.Loader.Memory.{table_calls, all_entries, table-MapLaws}
use fide.Loader.Interval.{calculate_ent_lem}
use fide.Loader.Together.{
  Joint, loaded, stored, Sound, packet, interval, start, then_step, Reaches, Reaches-Sound,
}
use fide.Loader.Reported.{owed, reported, ipv4_packets, Reaches-owed}
use fide.Loader.Rounds.{rounds, sum, eleventh_reports}
use fide.Loader.Start.{
  SystemCalls, exits, runs, main, initial_config, set_up, __load_bpf_and_xdp_attach,
  __load_bpf_object_file, attach_section, pin_maps_in_bpf_object, use_maps,
}
use fide.Loader.Startup.{SystemLaws, OnDevice, main-OnDevice}

abbrev whole : Floats ℕ
whole = record {
  from_int = λ n. n;
  plus = λ a b. a + b;
  minus = λ a b. a - b;
  times = λ a b. a * b;
  over = λ a b. a - b;
  log2 = λ a. a;
  fabs = λ a. a;
  less = ltb;
  half = 0;
  one_and_half = 1;
}

-- From 10.0.0.1.
abbrev first : Bytes
first =
    0 ∷ 0 ∷ 0 ∷ 0 ∷ 0 ∷ 0 ∷ 0 ∷ 0 ∷ 0 ∷ 0 ∷ 0 ∷ 0 ∷ 8 ∷ 0 ∷ 69 ∷ 0 ∷ 0 ∷ 20 ∷ 0 ∷ 0 ∷ 0 ∷ 0 ∷ 64
    ∷ 17 ∷ 0 ∷ 0 ∷ 10 ∷ 0 ∷ 0 ∷ 1 ∷ 10 ∷ 0 ∷ 0 ∷ 2 ∷ []

abbrev busy : LoggerValue
busy = record { prev = 4; cur = 2; entropy = 0 }

abbrev idle : LoggerValue
idle = record { prev = 1; cur = 0; entropy = 0 }

abbrev sources : List (ℕ × LoggerValue)
sources = (0x0100000a, busy) ∷ (0x0200000a, idle) ∷ []

abbrev counts : DataValue
counts = record { prev_interval_pkt = 5; cur_interval_pkt = 2 }

abbrev variables : Loaded (List (ℕ × LoggerValue))
variables = record { logger = sources; data_entry = some counts; holder = 7; beta = 0 }

sources-Distinct : Distinct sources
unfolding Distinct lookup
sources-Distinct = (refl, (refl, tt))

sources-no_zero : lookup 0 sources ≡ none
unfolding lookup
sources-no_zero = refl

next_run : next_interval sources ≡ (0x0100000a, record { prev = 2; cur = 0; entropy = 0 }) ∷ []
unfolding next_interval
next_run = refl

walk-flows_example :
    (w : Walked ℕ) × (walk table_calls whole counts sources ≡ some w)
    × (w.entpy ≡ flows table_calls all_entries table-MapLaws whole counts sources)
    × (w.i + 1 ≡ length sources)
walk-flows_example =
    walk-flows table_calls all_entries table-MapLaws whole counts sources 0x0100000a busy
      ((0x0200000a, idle) ∷ []) refl sources-Distinct sources-no_zero (omega arith)

calculate_ent_lem_example :
    (t : Loaded (List (ℕ × LoggerValue))) × (calculate_ent table_calls whole variables ≡ some t)
    × (t.logger ≡ next_interval sources)
    × (t.data_entry ≡ some (record { prev_interval_pkt = 2; cur_interval_pkt = 0 }))
    × (t.holder ≡ 9)
calculate_ent_lem_example =
    calculate_ent_lem table_calls all_entries table-MapLaws whole variables counts refl
      (λ e. absurd (ground (arith, e))) sources-Distinct sources-no_zero (omega arith)

abbrev kernel : State
kernel = record {
  logger = sources;
  blacklist = λ k. none;
  data_entry = some counts;
  tx_port = some 0;
}

abbrev before : Joint
before = record { kernel = kernel; holder = 7; beta = 0; count = 10 }

abbrev counted : State
counted = record kernel {
  logger = (0x0100000a, record busy { cur = 3 }) ∷ (0x0200000a, idle) ∷ [];
  data_entry = some (record counts { cur_interval_pkt = 3 });
}

abbrev ended : Loaded (List (ℕ × LoggerValue))
ended = record {
  logger = (0x0100000a, record { prev = 3; cur = 0; entropy = 0 }) ∷ [];
  data_entry = some (record { prev_interval_pkt = 3; cur_interval_pkt = 0 });
  holder = 10;
  beta = 0;
}

packet_run : xdp_filter_func first kernel ≡ some (redirect, counted)
unfolding xdp_filter_func load16 load32 count_source final_verdict record_source lookup store
    redirect_map
packet_run = refl

interval_run :
    calculate_ent table_calls whole (loaded (record before { kernel = counted })) ≡ some ended
unfolding calculate_ent walk collect entropy_of sum_deviation adjust_beta reset_sources reset_one
    insert_any lookup key_after first_key store erase following
interval_run = refl

before-Sound : Sound before
unfolding total
before-Sound = (
  counts,
  refl,
  record {
    cur_total = refl;
    prev_total = refl;
    distinct = sources-Distinct;
    no_zero = sources-no_zero;
    size = omega arith;
  },
)

abbrev between : Joint
between = record before { kernel = counted }

abbrev last : Joint
last = stored between ended

-- A packet, and then the end of the interval in a round that prints what was added up.
run : Reaches whole before last
unfolding total load32
run =
    then_step before between last
      (then_step before before between (start before) (
        packet before first counted redirect (omega arith, omega arith) (λ q. omega arith)
          packet_run))
      (interval between ended (λ e. absurd (ground (arith, e))) interval_run)

Reaches-Sound_example : Sound last
Reaches-Sound_example = Reaches-Sound whole before last run before-Sound

Reaches-owed_example :
    (reported whole run + owed last) % 2 ^ 32 ≡ (owed before + ipv4_packets whole run) % 2 ^ 32
Reaches-owed_example = Reaches-owed whole before last run before-Sound

eleventh_reports_example :
    rounds (3 ∷ 0 ∷ 1 ∷ 0 ∷ 0 ∷ 0 ∷ 0 ∷ 0 ∷ 0 ∷ 0 ∷ 5 ∷ []) 0 0 ≡ (9 ∷ [], 0, 0)
unfolding sum
eleventh_reports_example =
    eleventh_reports 3 (0 ∷ 1 ∷ 0 ∷ 0 ∷ 0 ∷ 0 ∷ 0 ∷ 0 ∷ 0 ∷ 5 ∷ []) (omega arith) refl (omega arith)

abbrev four_maps : ObjectCalls (Option ℕ) ℕ ℕ ℕ
four_maps = record objects { maps = λ o. 1 ∷ 2 ∷ 3 ∷ 4 ∷ [] }

abbrev quiet_system : SystemCalls (Option ℕ) ℕ ℕ
quiet_system = record {
  access = λ w path. 0;
  unpin_maps = λ w obj dir. (0, w);
  pin_maps = λ w obj dir. (0, w);
  setrlimit = λ w. (0, w);
  map_fd = λ w map. map + 10;
  update_port = λ w fd. w;
}

quiet_system-SystemLaws : SystemLaws quiet_system on_device
quiet_system-SystemLaws = record {
  unpin_keeps = λ w obj dir i. refl;
  pin_keeps = λ w obj dir i. refl;
  update_keeps = λ w fd i. refl;
}

abbrev index_of : Bytes → ℕ
index_of s = length s

abbrev no_number : Bytes → ℕ
no_number s = 0

abbrev on_eth0 : List (Choice × Bytes)
on_eth0 = (skb_mode, []) ∷ (dev, 101 ∷ 116 ∷ 104 ∷ 48 ∷ []) ∷ []

-- The maps 1, 3 and 2 are `logger`, `data` and `blacklist`; the program 8 is on the device.
main_run :
    main four_maps one_link quiet_system index_of no_number on_eth0 none ≡ (runs 11 13 12, some 8)
unfolding main parse_cmdline_args apply set_dev set_mode set_up __load_bpf_and_xdp_attach
    __load_bpf_object_file attach_section pin_maps_in_bpf_object use_maps xdp_link_attach retry
    swap_mode set_one
main_run = refl

main-OnDevice_example :
    ((code : ℕ) × ((main four_maps one_link quiet_system index_of no_number on_eth0 none).0
        ≡ exits code))
    ⊎ ((cfg : Config) × (parse_cmdline_args index_of no_number on_eth0 initial_config ≡ some cfg)
        × (cfg.ifindex ≢ 2 ^ 32 - 1)
        × (cfg.do_unload ≡ false)
        × OnDevice four_maps one_link quiet_system on_device one_link-LinkLaws
            quiet_system-SystemLaws cfg
            (main four_maps one_link quiet_system index_of no_number on_eth0 none).1)
main-OnDevice_example =
    main-OnDevice four_maps one_link quiet_system on_device one_link-LinkLaws
      quiet_system-SystemLaws index_of no_number on_eth0 none
