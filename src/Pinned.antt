-- ===== src/Pinned.antt =====
-- user+ebpf/main/common/common_libbpf.c (the same text is in fully_in-kernel/common): loading an
-- object file whose maps may be pinned already. libbpf is a parameter.
pub mod Entries
mod Tests
use fide.Base.{
  ℕ, ◌-◌, ◌^◌, List, [], ◌∷◌, Bool, true, false, ◌&&◌, Option, none, some, ◌==◌, if◌then◌else◌,
  slt32, is_neg32,
}
use fide.Packet.{Bytes}
use fide.Attach.{negated}
use fide.Attach.Load.{ObjectCalls, first_of}

-- `struct bpf_pinned_map`.
pub record PinnedMap : Type 0 where
  pub name : Bytes
  pub filename : Bytes
  pub map_fd : ℕ

-- `struct bpf_prog_load_attr_maps`; `pinned_maps` has `nr_pinned_maps` entries.
pub record LoadAttr : Type 0 where
  pub file : Option Bytes
  pub prog_type : ℕ
  pub expected_attach_type : ℕ
  pub ifindex : ℕ
  pub pinned_maps : List PinnedMap

-- The calls that only this file makes.
pub record PinCalls (W Obj Prog Map : Type 0) : Type 0 where
  -- `bpf_program__set_type` and `bpf_program__set_expected_attach_type`
  pub set_prog_type : W → Prog → ℕ → W
  pub set_attach_type : W → Prog → ℕ → W
  -- `bpf_object__close`
  pub close : W → Obj → W
  -- `bpf_map__pin` and `bpf_map__fd`
  pub pin : W → Map → Bytes → ℕ × W
  pub fd_of : W → Map → ℕ

-- `strcmp(a, b) == 0`
unfoldable pub same_text : Bytes → Bytes → Bool
same_text [] [] = true
same_text [] (d ∷ t) = false
same_text (c ∷ s) [] = false
same_text (c ∷ s) (d ∷ t) = c == d && same_text s t

abbrev pub no_fd : ℕ
no_fd = 2 ^ 32 - 1

unfoldable pub reset_fds : List PinnedMap → List PinnedMap
reset_fds [] = []
reset_fds (p ∷ ps) = record p { map_fd = no_fd } ∷ reset_fds ps

-- What the call returns; the object and the program that it stores, if it does; the pinned maps;
-- and the world.
pub record Returned (W Obj : Type 0) : Type 0 where
  pub ret : ℕ
  pub stored : Option (Obj × ℕ)
  pub pinned : List PinnedMap
  pub world : W

module _ {W Obj Prog Map : Type 0} (calls : ObjectCalls W Obj Prog Map)
    (pins : PinCalls W Obj Prog Map) where
  unfoldable pub set_each : LoadAttr → List Prog → W → W
  set_each attr [] w = w
  set_each attr (prog ∷ progs) w =
      let w1 = calls.set_program_ifindex w prog attr.ifindex in
      let w2 = pins.set_prog_type w1 prog attr.prog_type in
      set_each attr progs (pins.set_attach_type w2 prog attr.expected_attach_type)

  -- One map and one entry: the pinned file is opened, and its map used instead.
  unfoldable pub reuse_one : Map → PinnedMap → W → PinnedMap × W
  reuse_one map p w =
      let (fd, w1) = calls.obj_get w p.filename in
      let w2 = (calls.reuse_fd w1 map fd).1 in
      if same_text (calls.map_name map) p.name
      then (if slt32 0 fd then (record p { map_fd = fd }, w2) else (p, w1))
      else (p, w)

  unfoldable pub reuse_pinned : Map → List PinnedMap → W → List PinnedMap × W
  reuse_pinned map [] w = ([], w)
  reuse_pinned map (p ∷ ps) w =
      let (q, w1) = reuse_one map p w in let (qs, w2) = reuse_pinned map ps w1 in (q ∷ qs, w2)

  unfoldable pub reuse_maps : ℕ → List Map → List PinnedMap → W → List PinnedMap × W
  reuse_maps ifindex [] ps w = (ps, w)
  reuse_maps ifindex (map ∷ maps) ps w =
      let w1 = if calls.is_offload_neutral w map then w else calls.set_map_ifindex w map ifindex in
      let (qs, w2) = reuse_pinned map ps w1 in reuse_maps ifindex maps qs w2

  -- One map and one entry: a map that was not opened from its file is pinned there.
  unfoldable pub pin_one : Map → PinnedMap → W → PinnedMap × W
  pin_one map p w =
      let (err, w1) = pins.pin w map p.filename in
      if same_text (calls.map_name map) p.name && p.map_fd == no_fd
      then (if err == 0 then (record p { map_fd = pins.fd_of w1 map }, w1) else (p, w1))
      else (p, w)

  unfoldable pub pin_each : Map → List PinnedMap → W → List PinnedMap × W
  pin_each map [] w = ([], w)
  pin_each map (p ∷ ps) w =
      let (q, w1) = pin_one map p w in let (qs, w2) = pin_each map ps w1 in (q ∷ qs, w2)

  unfoldable pub pin_maps : List Map → List PinnedMap → W → List PinnedMap × W
  pin_maps [] ps w = (ps, w)
  pin_maps (map ∷ maps) ps w = let (qs, w1) = pin_each map ps w in pin_maps maps qs w1

  -- From the opened object on.
  unfoldable pub load_opened : LoadAttr → Obj → W → Returned W Obj
  load_opened attr obj w =
      let w1 = set_each attr (calls.programs obj) w in
      let (reused, w2) = reuse_maps attr.ifindex (calls.maps obj) (reset_fds attr.pinned_maps) w1 in
      let (err, w3) = calls.object_load w2 obj in
      let (pinned, w4) = pin_maps (calls.maps obj) reused w3 in
      elim (first_of calls (calls.programs obj)) [
        | none ↦ record {
          ret = negated 2;
          stored = none;
          pinned = reused;
          world = pins.close w2 obj;
        }
        | some prog ↦
            if err == 0
            then record {
              ret = 0;
              stored = some (obj, calls.program_fd w4 prog);
              pinned = pinned;
              world = w4;
            }
            else record {
              ret = negated 22;
              stored = none;
              pinned = reused;
              world = pins.close w3 obj;
            }
      ]

  -- A null `attr`, `none`, is read before it is tested: undefined.
  unfoldable pub bpf_prog_load_xattr_maps : Option LoadAttr → W → Option (Returned W Obj)
  bpf_prog_load_xattr_maps none w = none
  bpf_prog_load_xattr_maps (some attr) w = some (elim attr.file [
    | none ↦ record { ret = negated 22; stored = none; pinned = attr.pinned_maps; world = w }
    | some file ↦
        let (opened, w1) = calls.open_xattr w file in
        elim opened [
          | none ↦ record { ret = negated 2; stored = none; pinned = attr.pinned_maps; world = w1 }
          | some obj ↦ load_opened attr obj w1
        ]
  ])
