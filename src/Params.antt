-- ===== src/Params.antt =====
-- user+ebpf/main/common/common_params.c and common_defines.h: the options of the command line.
-- `getopt_long` is a parameter: the list of the options and arguments that it finds.
pub mod Modes
pub mod Names
pub mod Table
mod Tests
use fide.Base.{
  ℕ, zero, suc, ◌-◌, ◌^◌, bit_and, bit_or, List, [], ◌∷◌, Bool, true, false, Option, none, some,
  leb, ◌==◌, if◌then◌else◌, ◌>>=◌, length,
}
use fide.Packet.{Bytes}

-- `struct config`. The pointers `ifname` and `redirect_ifname` are null or to their buffers:
-- whether they are set.
pub record Config : Type 0 where
  pub xdp_flags : ℕ
  pub ifindex : ℕ
  pub ifname : Bool
  pub ifname_buf : Bytes
  pub redirect_ifindex : ℕ
  pub redirect_ifname : Bool
  pub redirect_ifname_buf : Bytes
  pub do_unload : Bool
  pub reuse_maps : Bool
  pub pin_dir : Bytes
  pub filename : Bytes
  pub progsec : Bytes
  pub src_mac : Bytes
  pub dest_mac : Bytes
  pub xsk_bind_flags : ℕ
  pub xsk_if_queue : ℕ
  pub xsk_poll_mode : Bool
  -- the variable of that name
  pub verbose : Bool

-- `strncpy` into a buffer of that size: cut off or filled up with zeros. A string is the list of
-- its characters without the final zero.
unfoldable pub strncpy : ℕ → Bytes → Bytes
strncpy zero s = []
strncpy (suc n) [] = 0 ∷ strncpy n []
strncpy (suc n) (c ∷ s) = c ∷ strncpy n s

abbrev pub if_namesize : ℕ
if_namesize = 16

-- `flags & ~mask` of a `__u32`.
abbrev pub clear32 : ℕ → ℕ → ℕ
clear32 flags mask = bit_and flags (2 ^ 32 - 1 - mask)

-- XDP_FLAGS_MODES, XDP_FLAGS_UPDATE_IF_NOEXIST, XDP_COPY and XDP_ZEROCOPY.
abbrev pub xdp_flags_modes : ℕ
xdp_flags_modes = 14

abbrev pub update_if_noexist : ℕ
update_if_noexist = 1

abbrev pub xdp_copy : ℕ
xdp_copy = 2

abbrev pub xdp_zerocopy : ℕ
xdp_zerocopy = 4

-- The cases of the switch.
pub data Choice : Type 0 where
  dev redirect_dev auto_mode skb_mode native_mode offload_mode force : Choice
  reuse unload poll quiet queue file section_name source_mac target_mac copy zero_copy : Choice
  help_or_unknown : Choice

pub data Mode : Type 0 where
  auto skb native hardware : Mode

unfoldable pub mode_flag : Mode → ℕ
mode_flag auto = 0
mode_flag skb = 2
mode_flag native = 4
mode_flag hardware = 8

-- A mode option: clear the flags, set one.
unfoldable pub set_mode : Mode → ℕ → ℕ
set_mode auto flags = clear32 flags xdp_flags_modes
set_mode mode flags = bit_or (clear32 flags xdp_flags_modes) (mode_flag mode)

unfoldable pub bind_copy : ℕ → ℕ
bind_copy flags = bit_or (bit_and flags xdp_zerocopy) xdp_copy

unfoldable pub bind_zerocopy : ℕ → ℕ
bind_zerocopy flags = bit_or (bit_and flags xdp_copy) xdp_zerocopy

-- `if_nametoindex` and `atoi` are the C library's.
module _ (if_nametoindex : Bytes → ℕ) (atoi : Bytes → ℕ) where
  unfoldable pub set_dev : Bytes → Config → Option Config
  set_dev optarg cfg =
      if leb if_namesize (length optarg)
      then none
      else (let index = if_nametoindex optarg in
          if index == 0
          then none
          else some (record cfg {
            ifname = true;
            ifname_buf = strncpy if_namesize optarg;
            ifindex = index;
          }))

  unfoldable pub set_redirect_dev : Bytes → Config → Option Config
  set_redirect_dev optarg cfg =
      if leb if_namesize (length optarg)
      then none
      else (let index = if_nametoindex optarg in
          if index == 0
          then none
          else some (record cfg {
            redirect_ifname = true;
            redirect_ifname_buf = strncpy if_namesize optarg;
            redirect_ifindex = index;
          }))

  -- One round of the loop; `none` is the exit with EXIT_FAIL_OPTION.
  unfoldable pub apply : Choice → Bytes → Config → Option Config
  apply dev optarg cfg = set_dev optarg cfg
  apply redirect_dev optarg cfg = set_redirect_dev optarg cfg
  apply auto_mode optarg cfg = some (record cfg { xdp_flags = set_mode auto cfg.xdp_flags })
  apply skb_mode optarg cfg = some (record cfg {
    xdp_flags = set_mode skb cfg.xdp_flags;
    xsk_bind_flags = bind_copy cfg.xsk_bind_flags;
  })
  apply native_mode optarg cfg = some (record cfg { xdp_flags = set_mode native cfg.xdp_flags })
  apply offload_mode optarg cfg = some (record cfg { xdp_flags = set_mode hardware cfg.xdp_flags })
  apply force optarg cfg = some (record cfg { xdp_flags = clear32 cfg.xdp_flags update_if_noexist })
  apply reuse optarg cfg = some (record cfg { reuse_maps = true })
  apply unload optarg cfg = some (record cfg { do_unload = true })
  apply poll optarg cfg = some (record cfg { xsk_poll_mode = true })
  apply quiet optarg cfg = some (record cfg { verbose = false })
  apply queue optarg cfg = some (record cfg { xsk_if_queue = atoi optarg })
  apply file optarg cfg = some (record cfg { filename = strncpy 512 optarg })
  apply section_name optarg cfg = some (record cfg { progsec = strncpy 32 optarg })
  apply source_mac optarg cfg = some (record cfg { src_mac = strncpy 18 optarg })
  apply target_mac optarg cfg = some (record cfg { dest_mac = strncpy 18 optarg })
  apply copy optarg cfg = some (record cfg { xsk_bind_flags = bind_copy cfg.xsk_bind_flags })
  apply zero_copy optarg cfg =
      some (record cfg { xsk_bind_flags = bind_zerocopy cfg.xsk_bind_flags })
  apply help_or_unknown optarg cfg = none

  -- The loop over what getopt_long finds.
  unfoldable pub parse_cmdline_args : List (Choice × Bytes) → Config → Option Config
  parse_cmdline_args [] cfg = some cfg
  parse_cmdline_args ((opt, optarg) ∷ args) cfg = do
    cfg' ← apply opt optarg cfg
    parse_cmdline_args args cfg'

-- `struct option` and `struct option_wrapper`; a null name is `none`.
pub record LongOption : Type 0 where
  pub name : Option Bytes
  pub has_arg : ℕ
  pub val : ℕ

pub record OptionWrapper : Type 0 where
  pub long : LongOption
  pub required : Bool

-- The loop that looks for the entry without a name; `none` is a read past the end of the array.
unfoldable pub count_options : List OptionWrapper → Option ℕ
count_options [] = none
count_options (w ∷ ws) = elim w.long.name [
  | none ↦ some 0
  | some _ ↦ do n ← count_options ws; some (suc n)
]

-- The loop that copies the first `n`.
unfoldable pub copy_options : ℕ → List OptionWrapper → Option (List LongOption)
copy_options zero ws = some []
copy_options (suc n) [] = none
copy_options (suc n) (w ∷ ws) = do rest ← copy_options n ws; some (w.long ∷ rest)

-- The new array, where `malloc` gives the memory.
unfoldable pub option_wrappers_to_options : List OptionWrapper → Option (List LongOption)
option_wrappers_to_options ws = do num ← count_options ws; copy_options num ws
