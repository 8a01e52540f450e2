-- ===== src/Attach/Load.antt =====
-- Loading an object file, with fresh or reused maps, and attaching one of its programs;
-- load_bpf_and_xdp_attach of common_user_bpf_xdp.c and what it calls.
use fide.Base.{
  zero, suc, ◌-◌, ℕ, ◌≡◌, ◌≢◌, ◌⊎◌, inl, inr, refl, List, [], ◌∷◌, ◌++◌, Bool, ◌||◌, Option, none,
  some, arith, leb, ◌==◌, if◌then◌else◌, length, is_neg32, bit_and, Option-cases, Bool-cases,
  get_or,
}
use fide.Packet.{Bytes}
use fide.Params.{Config, strncpy}
use fide.Attach.{BpfMapInfo, LinkCalls, xdp_link_attach, exit_fail_bpf, exit_fail_xdp, negated}
use fide.Attach.Link.{LinkLaws, xdp_link_attach-Attached}

-- The calls on object files, their programs and their maps. A null pointer is `none`.
pub record ObjectCalls (W Obj Prog Map : Type 0) : Type 0 where
  -- `bpf_prog_load_xattr` of a file and a device: the error, or the loaded object
  pub prog_load_xattr : W → Bytes → ℕ → Option Obj × W
  -- `bpf_object__open_xattr`
  pub open_xattr : W → Bytes → Option Obj × W
  pub programs : Obj → List Prog
  pub maps : Obj → List Map
  -- `bpf_program__set_type` with the XDP type, and `bpf_program__set_ifindex`
  pub set_type : W → Prog → W
  pub set_program_ifindex : W → Prog → ℕ → W
  pub is_offload_neutral : W → Map → Bool
  pub set_map_ifindex : W → Map → ℕ → W
  pub map_name : Map → Bytes
  -- `bpf_obj_get` of a path, and `bpf_map__reuse_fd`
  pub obj_get : W → Bytes → ℕ × W
  pub reuse_fd : W → Map → ℕ → ℕ × W
  -- `bpf_object__load`
  pub object_load : W → Obj → ℕ × W
  pub find_program_by_title : Obj → Bytes → Option Prog
  pub title : Prog → Bytes
  pub program_fd : W → Prog → ℕ

abbrev pub path_max : ℕ
path_max = 4096

-- `snprintf` with the format `%s/%s`, before it is cut off.
abbrev pub join_path : Bytes → Bytes → Bytes
join_path dir name = dir ++ 47 ∷ name

-- What `snprintf` stores in a buffer of `path_max` bytes: all but the end of a longer string.
unfoldable pub first_chars : ℕ → Bytes → Bytes
first_chars zero s = []
first_chars (suc n) [] = []
first_chars (suc n) (c ∷ s) = c ∷ first_chars n s

abbrev pub take_path : Bytes → Bytes
take_path s = first_chars (path_max - 1) s

module _ {W Obj Prog Map : Type 0} (calls : ObjectCalls W Obj Prog Map) where
  -- `info_of` is `bpf_obj_get_info_by_fd`: its error, and the information. `wanted` is whether the
  -- pointer `info` is set; the information is returned where it is stored.
  unfoldable pub open_bpf_map_file :
      (W → ℕ → ℕ × BpfMapInfo) → Bytes → Bytes → Bool → W → ℕ × Option BpfMapInfo × W
  open_bpf_map_file info_of pin_dir mapname wanted w =
      let (fd, w1) = calls.obj_get w (take_path (join_path pin_dir mapname)) in
      let (err, info) = info_of w1 fd in
      if is_neg32 fd
      then (fd, none, w1)
      else if wanted
      then if err == 0 then (fd, some info, w1) else (exit_fail_bpf, some info, w1)
      else (fd, none, w1)

  -- The loop of reuse_maps.
  unfoldable pub reuse_each : Bytes → List Map → W → ℕ × W
  reuse_each path [] w = (0, w)
  reuse_each path (map ∷ maps) w =
      let buf = join_path path (calls.map_name map) in
      let (fd, w1) = calls.obj_get w buf in
      let (err, w2) = calls.reuse_fd w1 map fd in
      let rest = reuse_each path maps w2 in
      if leb path_max (length buf)
      then (negated 36, w)
      else if is_neg32 fd
      then (fd, w1)
      else if err == 0
      then rest
      else (err, w2)

  unfoldable pub reuse_maps : Option Obj → Option Bytes → W → ℕ × W
  reuse_maps none path w = (negated 2, w)
  reuse_maps (some obj) none w = (negated 22, w)
  reuse_maps (some obj) (some path) w = reuse_each path (calls.maps obj) w

  unfoldable pub set_programs : ℕ → List Prog → W → W
  set_programs ifindex [] w = w
  set_programs ifindex (prog ∷ progs) w =
      set_programs ifindex progs (calls.set_program_ifindex (calls.set_type w prog) prog ifindex)

  unfoldable pub set_maps : ℕ → List Map → W → W
  set_maps ifindex [] w = w
  set_maps ifindex (map ∷ maps) w =
      set_maps ifindex maps
        (if calls.is_offload_neutral w map then w else calls.set_map_ifindex w map ifindex)

  unfoldable pub first_of : List Prog → Option Prog
  first_of [] = none
  first_of (prog ∷ progs) = some prog

  unfoldable pub open_bpf_object : Bytes → ℕ → W → Option Obj × W
  open_bpf_object file ifindex w =
      let (opened, w1) = calls.open_xattr w file in
      elim opened [
        | none ↦ (none, w1)
        | some obj ↦
            let w2 =
              set_maps ifindex (calls.maps obj) (set_programs ifindex (calls.programs obj) w1) in
            elim (first_of (calls.programs obj)) [ none ↦ (none, w2) | some _ ↦ (some obj, w2) ]
      ]

  unfoldable pub load_bpf_object_file : Bytes → ℕ → W → Option Obj × W
  load_bpf_object_file filename ifindex w = calls.prog_load_xattr w filename ifindex

  unfoldable pub load_bpf_object_file_reuse_maps : Bytes → ℕ → Option Bytes → W → Option Obj × W
  load_bpf_object_file_reuse_maps file ifindex pin_dir w =
      let (opened, w1) = open_bpf_object file ifindex w in
      elim opened [
        | none ↦ (none, w1)
        | some obj ↦
            let (err, w2) = reuse_maps (some obj) pin_dir w1 in
            let (failed, w3) = calls.object_load w2 obj in
            if err == 0 then (if failed == 0 then (some obj, w3) else (none, w3)) else (none, w2)
      ]

  -- The object, or the code that the process exits with.
  pub data Ending : Type 0 where
    exits : ℕ → Ending
    returns : Obj → Config → Ending

  -- The program to attach: by the name of its section, or the first.
  unfoldable pub choose : Config → Obj → Option Prog
  choose cfg obj =
      if get_or cfg.progsec 0 0 == 0
      then first_of (calls.programs obj)
      else calls.find_program_by_title obj cfg.progsec

  module _ (link : LinkCalls W) where
    -- From the choice of the program on.
    unfoldable pub attach_chosen : Config → Obj → W → Ending × W
    attach_chosen cfg obj w = elim (choose cfg obj) [
      | none ↦ (exits exit_fail_bpf, w)
      | some prog ↦
          let prog_fd = calls.program_fd w prog in
          let (err, w') = xdp_link_attach link cfg.ifindex cfg.xdp_flags prog_fd w in
          if prog_fd == 0 || is_neg32 prog_fd
          then (exits exit_fail_bpf, w)
          else if err == 0
          then (returns obj (record cfg { progsec = strncpy 32 (calls.title prog) }), w')
          else (exits err, w')
    ]

    unfoldable pub load_object : Config → W → Option Obj × W
    load_object cfg w =
        let offload = if bit_and cfg.xdp_flags 8 == 0 then 0 else cfg.ifindex in
        if cfg.reuse_maps
        then load_bpf_object_file_reuse_maps cfg.filename offload (some cfg.pin_dir) w
        else load_bpf_object_file cfg.filename offload w

    unfoldable pub load_bpf_and_xdp_attach : Config → W → Ending × W
    load_bpf_and_xdp_attach cfg w =
        let (loaded, w1) = load_object cfg w in
        elim loaded [ none ↦ (exits exit_fail_bpf, w1) | some obj ↦ attach_chosen cfg obj w1 ]

  -- The loop over the maps is that over the first of them and then that over the others, and it
  -- stops at the first map for which it fails.
  pub reuse_each-append :
      (path : Bytes) (a b : List Map) (w : W)
      → reuse_each path (a ++ b) w ≡ (
          if (reuse_each path a w).0 == 0
          then reuse_each path b (reuse_each path a w).1
          else reuse_each path a w)
  unfolding reuse_each
  reuse_each-append path [] b w = refl
  reuse_each-append path (map ∷ a) b w =
      let r1 = calls.obj_get w (join_path path (calls.map_name map)) in
      let r2 = calls.reuse_fd r1.1 map r1.0 in ground (arith, reuse_each-append path a b r2.1)

  module _ (link : LinkCalls W) (program_on : W → ℕ → Option ℕ)
      (laws : LinkLaws link program_on) where
    -- The process exits with a code that is not 0, or it goes on: then the program that was chosen
    -- is on the device, and the section's name is its title. `w` is the world after loading.
    abbrev pub Started : Config → W → Ending × W → Type 0
    Started cfg w r =
        ((code : ℕ) × (r.0 ≡ exits code) × (code ≢ 0))
        ⊎ ((obj : Obj) × (prog : Prog) × (choose cfg obj ≡ some prog)
            × (r.0 ≡ returns obj (record cfg { progsec = strncpy 32 (calls.title prog) }))
            × (program_on r.1 cfg.ifindex ≡ some (calls.program_fd w prog)))

    attach_chosen-Started :
        (cfg : Config) (obj : Obj) (w : W) → Started cfg w (attach_chosen link cfg obj w)
    unfolding attach_chosen
    attach_chosen-Started cfg obj w = elim (Option-cases (choose cfg obj)) [
      | inl e ↦ inl (exit_fail_bpf, ground arith, omega arith)
      | inr (prog, e) ↦
          let fd = calls.program_fd w prog in
          elim (Bool-cases (fd == 0 || is_neg32 fd)) [
            | inl bad ↦ inl (exit_fail_bpf, ground arith, omega arith)
            | inr good ↦
                elim (xdp_link_attach-Attached link program_on laws cfg.ifindex cfg.xdp_flags fd
                  w) [
                    | inl (ok, on) ↦ inr (obj, prog, e, ground arith, ground arith)
                    | inr (failed, on) ↦ inl (exit_fail_xdp, ground arith, omega arith)
                  ]
          ]
    ]

    -- load_bpf_and_xdp_attach exits with a code that is not 0, or it returns with the program of
    -- the section's name, or the first one, on the device.
    pub load_bpf_and_xdp_attach-Started :
        (cfg : Config) (w : W)
        → Started cfg (load_object link cfg w).1 (load_bpf_and_xdp_attach link cfg w)
    unfolding load_bpf_and_xdp_attach
    load_bpf_and_xdp_attach-Started cfg w = elim (Option-cases (load_object link cfg w).0) [
      | inl e ↦ inl (exit_fail_bpf, ground arith, omega arith)
      | inr (obj, e) ↦ elim (attach_chosen-Started cfg obj (load_object link cfg w).1) [
        | inl (code, f, n) ↦ inl (code, ground arith, n)
        | inr (o, prog, c, f, on) ↦ inr (o, prog, c, ground arith, ground arith)
      ]
    ]
