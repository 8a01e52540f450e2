-- ===== src/Options.antt =====
-- fully_in-kernel/common/common_params.c and common_defines.h: the options of the version whose
-- program is attached through libxdp. `getopt_long` is a parameter: the list of the options and
-- arguments that it finds.
pub mod Last
mod Tests
pub mod Binding
use fide.Base.{
  ℕ, ◌-◌, ◌^◌, bit_and, bit_or, List, [], ◌∷◌, Bool, true, false, Option, none, some, leb, ◌==◌,
  if◌then◌else◌, ◌>>=◌, length,
}
use fide.Packet.{Bytes}
use fide.Params.{strncpy, if_namesize, xdp_copy, xdp_zerocopy}

-- `enum xdp_attach_mode`.
pub data AttachMode : Type 0 where
  unspec native skb hw : AttachMode

-- `struct config`. The pointers `ifname` and `redirect_ifname` are null or to their buffers:
-- whether they are set.
pub record Config : Type 0 where
  pub attach_mode : AttachMode
  pub xdp_flags : ℕ
  pub ifindex : ℕ
  pub ifname : Bool
  pub ifname_buf : Bytes
  pub redirect_ifindex : ℕ
  pub redirect_ifname : Bool
  pub redirect_ifname_buf : Bytes
  pub do_unload : Bool
  pub prog_id : ℕ
  pub reuse_maps : Bool
  pub pin_dir : Bytes
  pub filename : Bytes
  pub progname : Bytes
  pub src_mac : Bytes
  pub dest_mac : Bytes
  pub xsk_bind_flags : ℕ
  pub xsk_if_queue : ℕ
  pub xsk_poll_mode : Bool
  pub unload_all : Bool
  -- the variable of that name
  pub verbose : Bool

-- `flags & ~mask` of a `__u16`.
abbrev pub clear16 : ℕ → ℕ → ℕ
clear16 flags mask = bit_and flags (2 ^ 16 - 1 - mask)

unfoldable pub bind_copy : ℕ → ℕ
bind_copy flags = bit_or (clear16 flags xdp_zerocopy) xdp_copy

unfoldable pub bind_zerocopy : ℕ → ℕ
bind_zerocopy flags = bit_or (clear16 flags xdp_copy) xdp_zerocopy

-- The cases of the switch.
pub data Choice : Type 0 where
  dev redirect_dev auto_mode skb_mode native_mode offload_mode reuse unload : Choice
  poll quiet queue file program_name source_mac target_mac copy zero_copy every : Choice
  help_or_unknown : Choice

-- `if_nametoindex` and `atoi` are the C library's.
module _ (if_nametoindex : Bytes → ℕ) (atoi : Bytes → ℕ) where
  unfoldable pub set_dev : Bytes → Config → Option Config
  set_dev optarg cfg =
      if leb if_namesize (length optarg)
      then none
      else (let index = if_nametoindex optarg in
          if index == 0
          then none
          else some (record cfg {
            ifname = true;
            ifname_buf = strncpy if_namesize optarg;
            ifindex = index;
          }))

  unfoldable pub set_redirect_dev : Bytes → Config → Option Config
  set_redirect_dev optarg cfg =
      if leb if_namesize (length optarg)
      then none
      else (let index = if_nametoindex optarg in
          if index == 0
          then none
          else some (record cfg {
            redirect_ifname = true;
            redirect_ifname_buf = strncpy if_namesize optarg;
            redirect_ifindex = index;
          }))

  -- One round of the loop; `none` is the exit with EXIT_FAIL_OPTION.
  unfoldable pub apply : Choice → Bytes → Config → Option Config
  apply dev optarg cfg = set_dev optarg cfg
  apply redirect_dev optarg cfg = set_redirect_dev optarg cfg
  apply auto_mode optarg cfg = some (record cfg { attach_mode = unspec })
  apply skb_mode optarg cfg =
      some (record cfg { attach_mode = skb; xsk_bind_flags = bind_copy cfg.xsk_bind_flags })
  apply native_mode optarg cfg = some (record cfg { attach_mode = native })
  apply offload_mode optarg cfg = some (record cfg { attach_mode = hw })
  apply reuse optarg cfg = some (record cfg { reuse_maps = true })
  apply unload optarg cfg = some (record cfg { do_unload = true; prog_id = atoi optarg })
  apply poll optarg cfg = some (record cfg { xsk_poll_mode = true })
  apply quiet optarg cfg = some (record cfg { verbose = false })
  apply queue optarg cfg = some (record cfg { xsk_if_queue = atoi optarg })
  apply file optarg cfg = some (record cfg { filename = strncpy 512 optarg })
  apply program_name optarg cfg = some (record cfg { progname = strncpy 32 optarg })
  apply source_mac optarg cfg = some (record cfg { src_mac = strncpy 18 optarg })
  apply target_mac optarg cfg = some (record cfg { dest_mac = strncpy 18 optarg })
  apply copy optarg cfg = some (record cfg { xsk_bind_flags = bind_copy cfg.xsk_bind_flags })
  apply zero_copy optarg cfg =
      some (record cfg { xsk_bind_flags = bind_zerocopy cfg.xsk_bind_flags })
  apply every optarg cfg = some (record cfg { unload_all = true })
  apply help_or_unknown optarg cfg = none

  -- The loop over what getopt_long finds.
  unfoldable pub parse_cmdline_args : List (Choice × Bytes) → Config → Option Config
  parse_cmdline_args [] cfg = some cfg
  parse_cmdline_args ((opt, optarg) ∷ args) cfg = do
    cfg' ← apply opt optarg cfg
    parse_cmdline_args args cfg'
