-- ===== src/Split.antt =====
-- user+ebpf/main/xdp_prog_kern.c: the XDP program of the version whose intervals are ended by a
-- program in user space. It filters by the blacklist and counts by source.
pub mod Counting
pub mod Kernel
pub mod Sources
pub mod Interleaving
mod Tests
use fide.Base.{ℕ, ◌+◌, List, Option, none, some, ltb, ◌==◌, if◌then◌else◌, ◌>>=◌, length, add32}
use fide.Packet.{Bytes, load16, load32, bpf_htons}
use fide.HashMap.{lookup, store, add_entry}

pub record LpmKey : Type 0 where
  pub prefixlen : ℕ
  pub address : ℕ

pub record LoggerValue : Type 0 where
  pub prev : ℕ
  pub cur : ℕ
  pub entropy : ℕ

pub record DataValue : Type 0 where
  pub prev_interval_pkt : ℕ
  pub cur_interval_pkt : ℕ

-- `data` is an array of one entry, `none` where the lookup fails; `blacklist` answers the lookups
-- of an LPM trie; `tx_port` is the one entry of a device map.
pub record State : Type 0 where
  pub logger : List (ℕ × LoggerValue)
  pub blacklist : LpmKey → Option ℕ
  pub data_entry : Option DataValue
  pub tx_port : Option ℕ

pub data Verdict : Type 0 where
  aborted drop pass tx redirect : Verdict

abbrev pub logger_max_entries : ℕ
logger_max_entries = 100000

-- `bpf_redirect_map(&tx_port, 0, 0)`: with no entry the flags' action, 0, is the verdict.
unfoldable pub redirect_map : State → Verdict
redirect_map s = elim s.tx_port [ none ↦ aborted | some _ ↦ redirect ]

abbrev pub new_value : LoggerValue
new_value = record { prev = 0; cur = 1; entropy = 0 }

unfoldable pub record_source : ℕ → List (ℕ × LoggerValue) → List (ℕ × LoggerValue)
record_source saddr m = elim (lookup saddr m) [
  | some value ↦ store saddr (record value { cur = add32 value.cur 1 }) m
  | none ↦ add_entry logger_max_entries saddr new_value m
]

-- The verdict at the end, by `drop_flag`.
unfoldable pub final_verdict : Option ℕ → State → Verdict
final_verdict (some rule) s = drop
final_verdict none s = redirect_map s

-- From the lookup of the interval's counts on; `rule` is what the blacklist answered.
unfoldable pub count_source : Option ℕ → ℕ → State → Verdict × State
count_source rule saddr s = elim s.data_entry [
  | none ↦ (aborted, s)
  | some d ↦
      let t = record s {
        data_entry = some (record d { cur_interval_pkt = add32 d.cur_interval_pkt 1 });
        logger = record_source saddr s.logger;
      } in
      (final_verdict rule t, t)
]

-- `none` is a read past the end of the packet.
unfoldable pub xdp_filter_func : Bytes → State → Option (Verdict × State)
xdp_filter_func packet s = if ltb (length packet) 14 then some (aborted, s) else (do
  h_proto ← load16 packet 12
  if h_proto == bpf_htons 0x0800
      then if ltb (length packet) 34 then some (aborted, s) else (do
        saddr ← load32 packet 26
        let rule = s.blacklist (record { prefixlen = 32; address = saddr })
        some (count_source rule saddr s))
      else some (redirect_map s, s))
