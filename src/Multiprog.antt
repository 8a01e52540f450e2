-- ===== src/Multiprog.antt =====
-- fully_in-kernel/common/common_user_bpf_xdp.c: attaching a program to a device through libxdp,
-- next to others, and detaching it by its number. libxdp is a parameter: a type of worlds and the
-- calls on it. check_map_fd_info, action2str, open_bpf_map_file and reuse_maps have the text that
-- `Attach` models.
pub mod Detaching
mod Tests
pub mod Attaching
use fide.Base.{ℕ, List, [], ◌∷◌, Bool, Option, none, some, ◌==◌, if◌then◌else◌, is_neg32, false}
use fide.Packet.{Bytes}
use fide.Attach.{negated}
use fide.Options.{AttachMode, hw, Config}

-- What `xdp_multiprog__get_from_ifindex` gives: an error, a null pointer or the programs of the
-- device.
pub data Found (MP : Type 0) : Type 0 where
  refused : Found MP
  nothing : Found MP
  multiprog : MP → Found MP

-- A null program is `none`.
pub record XdpCalls (W MP Prog : Type 0) : Type 0 where
  -- `xdp_program__create` of a file and a program's name: the error, or the program
  pub create : W → Bytes → Bytes → Option Prog × W
  -- `xdp_program__attach` of a device and a mode
  pub attach : W → Prog → ℕ → AttachMode → ℕ × W
  -- `xdp_program__fd`
  pub fd : W → Prog → ℕ
  -- `xdp_program__id`
  pub id : Option Prog → ℕ
  -- `xdp_program__detach`
  pub detach : W → Option Prog → ℕ → AttachMode → ℕ × W
  -- `xdp_multiprog__get_from_ifindex`, `xdp_multiprog__detach` and `xdp_multiprog__close`
  pub get_from_ifindex : W → ℕ → Found MP × W
  pub detach_all : W → MP → ℕ × W
  pub close : W → Found MP → W
  -- what the calls of `xdp_multiprog__next_prog` give, from the first on
  pub programs : MP → List Prog
  pub is_legacy : MP → Bool
  pub main_prog : MP → Option Prog
  pub hw_prog : MP → Option Prog
  pub mode_of : MP → AttachMode

abbrev pub exit_fail_bpf : ℕ
exit_fail_bpf = 40

abbrev pub exit_failure : ℕ
exit_failure = 1

-- The program, or the code that the process exits with.
pub data Ending (Prog : Type 0) : Type 0 where
  exits : ℕ → Ending Prog
  returns : Prog → Ending Prog

module _ {W MP Prog : Type 0} (calls : XdpCalls W MP Prog) where
  -- From the created program on.
  unfoldable pub attach_created : Config → Prog → W → Ending Prog × W
  attach_created cfg prog w =
      let (err, w1) = calls.attach w prog cfg.ifindex cfg.attach_mode in
      if err == 0
      then (if is_neg32 (calls.fd w1 prog) then (exits exit_fail_bpf, w1) else (returns prog, w1))
      else (exits err, w1)

  unfoldable pub load_bpf_and_xdp_attach : Config → W → Ending Prog × W
  load_bpf_and_xdp_attach cfg w =
      let (created, w1) = calls.create w cfg.filename cfg.progname in
      elim created [ none ↦ (exits exit_fail_bpf, w1) | some prog ↦ attach_created cfg prog w1 ]

  -- The loop over the programs: the first with that number.
  unfoldable pub first_with : ℕ → List Prog → Option Prog
  first_with prog_id [] = none
  first_with prog_id (prog ∷ progs) =
      let rest = first_with prog_id progs in
      if calls.id (some prog) == prog_id then some prog else rest

  -- The program to detach and its mode, if one has that number: one of the list, the main program
  -- of an old kind, or that of the hardware.
  unfoldable pub choose : ℕ → MP → Option (Option Prog × AttachMode)
  choose prog_id mp = elim (first_with prog_id (calls.programs mp)) [
    | some prog ↦ some (some prog, calls.mode_of mp)
    | none ↦
        let main_fits =
          if calls.is_legacy mp then calls.id (calls.main_prog mp) == prog_id else false in
        if main_fits
        then some (calls.main_prog mp, calls.mode_of mp)
        else if calls.id (calls.hw_prog mp) == prog_id
        then some (calls.hw_prog mp, hw)
        else none
  ]

  unfoldable pub detach_chosen : Config → MP → W → ℕ × W
  detach_chosen cfg mp w =
      if cfg.unload_all then calls.detach_all w mp else elim (choose cfg.prog_id mp) [
        | none ↦ (negated 2, w)
        | some (prog, mode) ↦ calls.detach w prog cfg.ifindex mode
      ]

  -- Up to the label `out`: `err`, and the world.
  unfoldable pub detach_found : Config → Found MP → W → ℕ × W
  detach_found cfg refused w = (exit_failure, w)
  detach_found cfg nothing w = (exit_failure, w)
  detach_found cfg (multiprog mp) w = detach_chosen cfg mp w

  unfoldable pub do_unload : Config → W → ℕ × W
  do_unload cfg w =
      let (found, w1) = calls.get_from_ifindex w cfg.ifindex in
      let (err, w2) = detach_found cfg found w1 in
      (if err == 0 then 0 else exit_failure, calls.close w2 found)
