-- ===== src/Loader/Start.antt =====
-- `main` of xdp_loader.c up to its loop: options, loading, attaching, pinning, the maps.
use fide.Base.{
  ℕ, ◌-◌, ◌^◌, List, [], ◌∷◌, true, false, ◌||◌, Option, none, some, ◌==◌, if◌then◌else◌, is_neg32,
  not, bit_and,
}
use fide.Packet.{Bytes}
use fide.Params.{Config, Choice, strncpy, parse_cmdline_args}
use fide.Attach.{LinkCalls, xdp_link_attach, xdp_link_detach, exit_fail_bpf}
use fide.Attach.Load.{ObjectCalls, join_path, take_path}

abbrev pub exit_fail_option : ℕ
exit_fail_option = 2

-- `xdp_prog_kern.o`
abbrev pub object_name : Bytes
object_name =
    b'x' ∷ b'd' ∷ b'p' ∷ b'_' ∷ b'p' ∷ b'r' ∷ b'o' ∷ b'g' ∷ b'_' ∷ b'k' ∷ b'e' ∷ b'r' ∷ b'n' ∷ b'.'
    ∷ b'o' ∷ []

-- `xdp_filter`
abbrev pub default_progsec : Bytes
default_progsec = b'x' ∷ b'd' ∷ b'p' ∷ b'_' ∷ b'f' ∷ b'i' ∷ b'l' ∷ b't' ∷ b'e' ∷ b'r' ∷ []

-- `/sys/fs/bpf` and `map`
abbrev pub pin_basedir : Bytes
pin_basedir = b'/' ∷ b's' ∷ b'y' ∷ b's' ∷ b'/' ∷ b'f' ∷ b's' ∷ b'/' ∷ b'b' ∷ b'p' ∷ b'f' ∷ []

abbrev pub map_name : Bytes
map_name = b'm' ∷ b'a' ∷ b'p' ∷ []

-- The string in a buffer: up to the first zero.
unfoldable pub text_of : Bytes → Bytes
text_of [] = []
text_of (c ∷ s) = if c == 0 then [] else c ∷ text_of s

-- The other calls of `main`: what they return, and the world after them.
pub record SystemCalls (W Obj Map : Type 0) : Type 0 where
  -- `access` of a path, for its existence
  pub access : W → Bytes → ℕ
  -- `bpf_object__unpin_maps` and `bpf_object__pin_maps`, in a directory
  pub unpin_maps : W → Obj → Bytes → ℕ × W
  pub pin_maps : W → Obj → Bytes → ℕ × W
  -- `setrlimit` of the locked memory
  pub setrlimit : W → ℕ × W
  -- `bpf_map__fd`
  pub map_fd : W → Map → ℕ
  -- `bpf_map_update_elem` of a map at index 0 with the number 4
  pub update_port : W → ℕ → W

-- The variables that `main` starts from.
abbrev pub initial_config : Config
initial_config = record {
  xdp_flags = 5;
  ifindex = 2 ^ 32 - 1;
  ifname = false;
  ifname_buf = strncpy 16 [];
  redirect_ifindex = 0;
  redirect_ifname = false;
  redirect_ifname_buf = strncpy 16 [];
  do_unload = false;
  reuse_maps = false;
  pin_dir = strncpy 512 [];
  filename = strncpy 512 [];
  progsec = strncpy 32 default_progsec;
  src_mac = strncpy 18 [];
  dest_mac = strncpy 18 [];
  xsk_bind_flags = 0;
  xsk_if_queue = 0;
  xsk_poll_mode = false;
  verbose = true;
}

-- How `main` ends before its loop, or what the loop runs with: the file descriptors of `logger`,
-- `data` and `blacklist`.
pub data Started : Type 0 where
  exits : ℕ → Started
  runs : ℕ → ℕ → ℕ → Started

module _ {W Obj Prog Map : Type 0} (calls : ObjectCalls W Obj Prog Map) (link : LinkCalls W)
    (system : SystemCalls W Obj Map) where
  -- The object, or the code that the process exits with.
  pub data Loading : Type 0 where
    fails : ℕ → Loading
    gives : Obj → Loading

  -- The name of the file is fixed.
  unfoldable pub __load_bpf_object_file : ℕ → W → Option Obj × W
  __load_bpf_object_file ifindex w = calls.prog_load_xattr w object_name ifindex

  unfoldable pub attach_section : Config → Obj → W → Loading × W
  attach_section cfg obj w = elim (calls.find_program_by_title obj cfg.progsec) [
    | none ↦ (fails exit_fail_bpf, w)
    | some prog ↦
        let prog_fd = calls.program_fd w prog in
        let (err, w') = xdp_link_attach link cfg.ifindex cfg.xdp_flags prog_fd w in
        if prog_fd == 0 || is_neg32 prog_fd
        then (fails exit_fail_bpf, w)
        else if err == 0
        then (gives obj, w')
        else (fails err, w')
  ]

  unfoldable pub __load_bpf_and_xdp_attach : Config → W → Loading × W
  __load_bpf_and_xdp_attach cfg w =
      let offload = if bit_and cfg.xdp_flags 8 == 0 then 0 else cfg.ifindex in
      let (loaded, w1) = __load_bpf_object_file offload w in
      elim loaded [ none ↦ (fails exit_fail_bpf, w1) | some obj ↦ attach_section cfg obj w1 ]

  unfoldable pub pin_maps_in_bpf_object : Obj → Bytes → W → ℕ × W
  pin_maps_in_bpf_object obj subdir w =
      let pin_dir = take_path (join_path pin_basedir subdir) in
      let map_filename = take_path (join_path (join_path pin_basedir subdir) map_name) in
      let there = system.access w map_filename == 0 in
      let (failed, w1) = if there then system.unpin_maps w obj pin_dir else (0, w) in
      let (err, w2) = system.pin_maps w1 obj pin_dir in
      if failed == 0
      then (if err == 0 then (0, w2) else (exit_fail_bpf, w2))
      else (exit_fail_bpf, w1)

  -- The first four maps of the object are `logger`, `blacklist`, `data` and `tx_port`.
  unfoldable pub use_maps : List Map → W → Started × W
  use_maps (logger ∷ blacklist ∷ counts ∷ tx_port ∷ others) w = (
    runs (system.map_fd w logger) (system.map_fd w counts) (system.map_fd w blacklist),
    system.update_port w (system.map_fd w tx_port),
  )
  use_maps maps w = (exits 1, w)

  -- After the options. What pin_maps_in_bpf_object returns is not looked at.
  unfoldable pub set_up : Config → W → Started × W
  set_up cfg w =
      if cfg.ifindex == 2 ^ 32 - 1
      then (exits exit_fail_option, w)
      else (let (limited, w1) = system.setrlimit w in
          let (detached, w2) = xdp_link_detach link cfg.ifindex cfg.xdp_flags 0 w1 in
          let (loaded, w3) = __load_bpf_and_xdp_attach cfg w1 in
          if not (limited == 0)
          then (exits 1, w1)
          else if cfg.do_unload
          then (exits detached, w2)
          else elim loaded [
            | fails code ↦ (exits code, w3)
            | gives obj ↦
                use_maps (calls.maps obj) (pin_maps_in_bpf_object obj (text_of cfg.ifname_buf) w3).1
          ])

  unfoldable pub main : (Bytes → ℕ) → (Bytes → ℕ) → List (Choice × Bytes) → W → Started × W
  main if_nametoindex atoi args w =
      elim (parse_cmdline_args if_nametoindex atoi args initial_config) [
        | none ↦ (exits exit_fail_option, w)
        | some cfg ↦ set_up cfg w
      ]
