-- ===== src/Params/Tests.antt =====
-- Runs of parse_cmdline_args of common_params.c, and the theorems about it at such inputs.
use fide.Base.{ℕ, ◌≡◌, refl, inl, List, [], ◌∷◌, false, none, some, arith, length, true}
use fide.Packet.{Bytes}
use fide.Params.{
  Config, Choice, dev, skb_mode, strncpy, mode_flag, set_mode, bind_copy, set_dev, apply,
  parse_cmdline_args, OptionWrapper,
}
use fide.Params.Names.{has_no_zero, HasIndex}
use fide.Params.Table.{AllNamed, named, no_more}

-- `eth0`.
abbrev eth0 : Bytes
eth0 = 101 ∷ 116 ∷ 104 ∷ 48 ∷ []

abbrev index_of : Bytes → ℕ
index_of s = length s

abbrev no_number : Bytes → ℕ
no_number s = 0

abbrev empty : Config
empty = record {
  xdp_flags = 1;
  ifindex = 0;
  ifname = false;
  ifname_buf = [];
  redirect_ifindex = 0;
  redirect_ifname = false;
  redirect_ifname_buf = [];
  do_unload = false;
  reuse_maps = false;
  pin_dir = [];
  filename = [];
  progsec = [];
  src_mac = [];
  dest_mac = [];
  xsk_bind_flags = 0;
  xsk_if_queue = 0;
  xsk_poll_mode = false;
  verbose = true;
}

abbrev after : Config
after = record empty {
  ifname = true;
  ifname_buf = strncpy 16 eth0;
  ifindex = 4;
  xdp_flags = 3;
  xsk_bind_flags = 2;
}

abbrev options : List (Choice × Bytes)
options = (dev, eth0) ∷ (skb_mode, []) ∷ []

options_run : parse_cmdline_args index_of no_number options empty ≡ some after
unfolding parse_cmdline_args apply set_dev set_mode mode_flag bind_copy
options_run = refl

empty-HasIndex : HasIndex empty
empty-HasIndex = record { dev_index = inl refl; redirect_index = inl refl }

eth0-has_no_zero : has_no_zero eth0 ≡ true
unfolding has_no_zero
eth0-has_no_zero = refl

abbrev help : OptionWrapper
help = record { long = record { name = some (104 ∷ []); has_arg = 0; val = 104 }; required = false }

abbrev last : OptionWrapper
last = record { long = record { name = none; has_arg = 0; val = 0 }; required = false }

help-AllNamed : AllNamed (help ∷ [])
help-AllNamed = named help [] (ground arith) no_more
