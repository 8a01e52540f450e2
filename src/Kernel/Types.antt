-- ===== src/Kernel/Types.antt =====
-- The structs, maps and globals of fully_in-kernel/main/xdp_prog_kern.c.
use fide.Base.{ℕ, Option, none, some, List, [], ◌∷◌, ◌>>=◌}
use fide.FixedPoint.{FixedPoint}

pub record LpmKey : Type 0 where
  pub prefixlen : ℕ
  pub address : ℕ

pub record LoggerValue : Type 0 where
  pub prev : ℕ
  pub cur : ℕ
  pub entropy : FixedPoint

pub record DataValue : Type 0 where
  pub prev_interval_pkt : ℕ
  pub cur_interval_pkt : ℕ
  pub threshold : ℕ
  pub int_bits : ℕ

-- The map `logger`: a hash table, as its entries in the order in which a walk visits them.
abbrev pub Logger : Type 0
Logger = List (ℕ × LoggerValue)

abbrev pub logger_map_size : ℕ
logger_map_size = 100000

-- The file's static variables.
pub record Globals : Type 0 where
  pub count : ℕ
  pub entropy_all : FixedPoint
  pub avg : FixedPoint

-- `data` and `loc_ts` are arrays of one entry, `none` where the lookup fails; `blacklist` answers
-- the lookups of an LPM trie; `tx_port` is the one entry of a device map.
pub record State : Type 0 where
  pub logger : Logger
  pub blacklist : LpmKey → Option ℕ
  pub interval : Option DataValue
  pub timestamp : Option ℕ
  pub tx_port : Option ℕ
  pub globals : Globals

pub data Verdict : Type 0 where
  aborted drop pass tx redirect : Verdict

-- `bpf_redirect_map(&tx_port, 0, 0)`: with no entry the flags' action, 0, is the verdict.
unfoldable pub redirect_map : State → Verdict
redirect_map s = elim s.tx_port [ none ↦ aborted | some _ ↦ redirect ]

-- `bpf_for_each_map_elem`: the callback gets each value once, and may delete its entry (`none`).
module _ {G : Type 0} (callback : LoggerValue → G → Option (Option LoggerValue × G)) where
  unfoldable pub for_each : Logger → G → Option (Logger × G)
  for_each [] g = some ([], g)
  for_each ((k, v) ∷ m) g = do
    (kept, g') ← callback v g
    (rest, g'') ← for_each m g'
    some (elim kept [ none ↦ rest | some w ↦ (k, w) ∷ rest ], g'')
