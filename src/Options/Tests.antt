-- ===== src/Options/Tests.antt =====
-- Runs of fully_in-kernel/common/common_params.c, and the theorems there.
use fide.Base.{ℕ, ◌≡◌, refl, arith, List, [], ◌∷◌, none, some, true, false, length}
use fide.Packet.{Bytes}
use fide.Options.{
  unspec, skb, Config, Choice, skb_mode, unload, zero_copy, apply, parse_cmdline_args, bind_copy,
  bind_zerocopy,
}
use fide.Options.Last.{last_mode, last_unload, Asks, parse_cmdline_args-last}
use fide.Options.Binding.{OneCopy, parse_cmdline_args-OneCopy}

abbrev fresh : Config
fresh = record {
  attach_mode = unspec;
  xdp_flags = 0;
  ifindex = 3;
  ifname = false;
  ifname_buf = [];
  redirect_ifindex = 0;
  redirect_ifname = false;
  redirect_ifname_buf = [];
  do_unload = false;
  prog_id = 0;
  reuse_maps = false;
  pin_dir = [];
  filename = [];
  progname = [];
  src_mac = [];
  dest_mac = [];
  xsk_bind_flags = 8;
  xsk_if_queue = 0;
  xsk_poll_mode = false;
  unload_all = false;
  verbose = true;
}

abbrev digits : Bytes → ℕ
digits s = length s

abbrev options : List (Choice × Bytes)
options = (unload, b'1' ∷ []) ∷ (skb_mode, []) ∷ (unload, b'1' ∷ b'7' ∷ []) ∷ (zero_copy, []) ∷ []

abbrev parsed : Config
parsed = record fresh { attach_mode = skb; do_unload = true; prog_id = 2; xsk_bind_flags = 12 }

options_run : parse_cmdline_args digits digits options fresh ≡ some parsed
unfolding parse_cmdline_args apply bind_copy bind_zerocopy
options_run = refl

parse_cmdline_args-last_example :
    (parsed.attach_mode ≡ last_mode options unspec)
    × (parsed.xdp_flags ≡ fresh.xdp_flags)
    × Asks digits parsed (last_unload options none)
parse_cmdline_args-last_example =
    parse_cmdline_args-last digits digits options fresh parsed none refl options_run

fresh-OneCopy : OneCopy fresh
fresh-OneCopy = record { small = omega arith; not_both = omega arith }

parse_cmdline_args-OneCopy_example : OneCopy parsed
parse_cmdline_args-OneCopy_example =
    parse_cmdline_args-OneCopy digits digits options fresh parsed fresh-OneCopy options_run
