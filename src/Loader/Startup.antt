-- ===== src/Loader/Startup.antt =====
-- When the loop of `main` of xdp_loader.c is reached.
use fide.Base.{
  ℕ, ◌-◌, ◌^◌, ◌≡◌, ◌≢◌, ◌⊎◌, inl, inr, refl, ◌∙◌, arith, List, [], ◌∷◌, false, ◌||◌, Option, some,
  ◌==◌, if◌then◌else◌, is_neg32, bit_and, Option-cases, Bool-cases,
}
use fide.Packet.{Bytes}
use fide.Params.{Config, Choice, dev, apply, parse_cmdline_args, set_redirect_dev}
use fide.Attach.{exit_fail_bpf, exit_fail_xdp, xdp_link_detach, LinkCalls}
use fide.Attach.Link.{LinkLaws, xdp_link_attach-Attached}
use fide.Attach.Load.{ObjectCalls, join_path, take_path}
use fide.Loader.Start.{
  pin_basedir, __load_bpf_object_file, SystemCalls, exits, fails, gives, attach_section,
  __load_bpf_and_xdp_attach, pin_maps_in_bpf_object, use_maps, set_up, main, initial_config,
  exit_fail_option, text_of,
}

-- No option names a device.
unfoldable pub NoDevice : List (Choice × Bytes) → Type 0
NoDevice [] = Unit
NoDevice ((opt, optarg) ∷ args) = (opt ≢ dev) × NoDevice args

module _ (if_nametoindex atoi : Bytes → ℕ) where
  apply-ifindex :
      (opt : Choice) (optarg : Bytes) (cfg cfg' : Config)
      → opt ≢ dev
      → apply if_nametoindex atoi opt optarg cfg ≡ some cfg'
      → cfg'.ifindex ≡ cfg.ifindex
  unfolding apply set_redirect_dev
  apply-ifindex opt optarg cfg cfg' n h = ground (arith, n)

  parse-ifindex :
      (args : List (Choice × Bytes)) (cfg cfg' : Config)
      → NoDevice args
      → parse_cmdline_args if_nametoindex atoi args cfg ≡ some cfg'
      → cfg'.ifindex ≡ cfg.ifindex
  unfolding NoDevice parse_cmdline_args
  parse-ifindex [] cfg cfg' n h = ground arith
  parse-ifindex ((opt, optarg) ∷ args) cfg cfg' (n, ns) h =
      elim (Option-cases (apply if_nametoindex atoi opt optarg cfg)) [
        | inl e ↦ absurd (ground arith)
        | inr (next, e) ↦
            parse-ifindex args next cfg' ns (ground arith) ∙ apply-ifindex opt optarg cfg next n e
      ]

-- What the calls of `main` do to no device.
pub record SystemLaws {W Obj Map : Type 0} (system : SystemCalls W Obj Map)
    (program_on : W → ℕ → Option ℕ) : Type 0 where
  pub unpin_keeps :
      (w : W) (obj : Obj) (dir : Bytes) (i : ℕ)
      → program_on (system.unpin_maps w obj dir).1 i ≡ program_on w i
  pub pin_keeps :
      (w : W) (obj : Obj) (dir : Bytes) (i : ℕ)
      → program_on (system.pin_maps w obj dir).1 i ≡ program_on w i
  pub update_keeps : (w : W) (fd i : ℕ) → program_on (system.update_port w fd) i ≡ program_on w i

module _ {W Obj Prog Map : Type 0} (calls : ObjectCalls W Obj Prog Map) (link : LinkCalls W)
    (system : SystemCalls W Obj Map) where
  -- Without an option that names a device, `main` returns EXIT_FAIL_OPTION and calls nothing.
  pub main_needs_dev :
      (if_nametoindex atoi : Bytes → ℕ) (args : List (Choice × Bytes)) (w : W)
      → NoDevice args
      → main calls link system if_nametoindex atoi args w ≡ (exits exit_fail_option, w)
  unfolding main set_up
  main_needs_dev if_nametoindex atoi args w n =
      elim (Option-cases (parse_cmdline_args if_nametoindex atoi args initial_config)) [
        | inl e ↦ ground (arith, e)
        | inr (cfg, e) ↦
            ground (arith, e, parse-ifindex if_nametoindex atoi args initial_config cfg n e)
      ]

  module _ (program_on : W → ℕ → Option ℕ) (links : LinkLaws link program_on)
      (laws : SystemLaws system program_on) where
    pin-keeps :
        (obj : Obj) (subdir : Bytes) (w : W) (i : ℕ)
        → program_on (pin_maps_in_bpf_object calls link system obj subdir w).1 i ≡ program_on w i
    unfolding pin_maps_in_bpf_object
    pin-keeps obj subdir w i =
        let dir = take_path (join_path pin_basedir subdir) in
        ground (
          arith,
          laws.unpin_keeps w obj dir i,
          laws.pin_keeps w obj dir i,
          laws.pin_keeps (system.unpin_maps w obj dir).1 obj dir i,
        )

    -- The program of the section's name is on the device.
    abbrev pub OnDevice : Config → W → Type 0
    OnDevice cfg w' =
        (obj : Obj) × (prog : Prog) × (w : W) × (calls.find_program_by_title obj cfg.progsec
          ≡ some prog)
        × (program_on w' cfg.ifindex ≡ some (calls.program_fd w prog))

    attach_section-OnDevice :
        (cfg : Config) (obj : Obj) (w : W)
        → ((code : ℕ) × ((attach_section calls link system cfg obj w).0 ≡ fails code))
          ⊎ (((attach_section calls link system cfg obj w).0 ≡ gives obj)
              × OnDevice cfg (attach_section calls link system cfg obj w).1)
    unfolding attach_section
    attach_section-OnDevice cfg obj w =
        elim (Option-cases (calls.find_program_by_title obj cfg.progsec)) [
          | inl e ↦ inl (exit_fail_bpf, ground arith)
          | inr (prog, e) ↦
              let fd = calls.program_fd w prog in
              elim (Bool-cases (fd == 0 || is_neg32 fd)) [
                | inl bad ↦ inl (exit_fail_bpf, ground arith)
                | inr good ↦
                    elim (xdp_link_attach-Attached link program_on links cfg.ifindex cfg.xdp_flags
                      fd w) [
                        | inl (ok, on) ↦ inr (ground arith, (obj, prog, w, e, ground arith))
                        | inr (failed, on) ↦ inl (exit_fail_xdp, ground arith)
                      ]
              ]
        ]

    load-OnDevice :
        (cfg : Config) (w : W)
        → let r = __load_bpf_and_xdp_attach calls link system cfg w in
          ((code : ℕ) × (r.0 ≡ fails code)) ⊎ ((obj : Obj) × (r.0 ≡ gives obj) × OnDevice cfg r.1)
    unfolding __load_bpf_and_xdp_attach
    load-OnDevice cfg w =
        let offload = if bit_and cfg.xdp_flags 8 == 0 then 0 else cfg.ifindex in
        let r = __load_bpf_object_file calls link system offload w in
        elim (Option-cases r.0) [
          | inl e ↦ inl (exit_fail_bpf, ground arith)
          | inr (obj, e) ↦ elim (attach_section-OnDevice cfg obj r.1) [
            | inl (code, f) ↦ inl (code, ground arith)
            | inr (f, (o, prog, w1, found, on)) ↦
                inr (obj, ground arith, (o, prog, w1, found, ground arith))
          ]
        ]

    use_maps-keeps :
        (maps : List Map) (w : W) (i : ℕ)
        → program_on (use_maps calls link system maps w).1 i ≡ program_on w i
    unfolding use_maps
    use_maps-keeps [] w i = refl
    use_maps-keeps (a ∷ []) w i = refl
    use_maps-keeps (a ∷ b ∷ []) w i = refl
    use_maps-keeps (a ∷ b ∷ c ∷ []) w i = refl
    use_maps-keeps (a ∷ b ∷ c ∷ d ∷ maps) w i = laws.update_keeps w (system.map_fd w d) i

    set_up-OnDevice :
        (cfg : Config) (w : W)
        → let r = set_up calls link system cfg w in
          ((code : ℕ) × (r.0 ≡ exits code))
          ⊎ ((cfg.ifindex ≢ 2 ^ 32 - 1) × (cfg.do_unload ≡ false) × OnDevice cfg r.1)
    unfolding set_up
    set_up-OnDevice cfg w =
        let w1 = (system.setrlimit w).1 in
        elim (Bool-cases (cfg.ifindex == 2 ^ 32 - 1)) [
          | inl e ↦ inl (exit_fail_option, ground arith)
          | inr named ↦ elim (Bool-cases ((system.setrlimit w).0 == 0)) [
            | inr e ↦ inl (1, ground arith)
            | inl limited ↦ elim (Bool-cases cfg.do_unload) [
              | inl e ↦ inl ((xdp_link_detach link cfg.ifindex cfg.xdp_flags 0 w1).0, ground arith)
              | inr loads ↦ elim (load-OnDevice cfg w1) [
                | inl (code, f) ↦ inl (code, ground arith)
                | inr (obj, f, (o, prog, w2, found, on)) ↦
                    let w3 = (__load_bpf_and_xdp_attach calls link system cfg w1).1 in
                    let w4 =
                      (pin_maps_in_bpf_object calls link system obj (text_of cfg.ifname_buf)
                        w3).1 in
                    inr (
                      ground arith,
                      loads,
                      (
                        o,
                        prog,
                        w2,
                        found,
                        ground (
                          arith,
                          use_maps-keeps (calls.maps obj) w4 cfg.ifindex,
                          pin-keeps obj (text_of cfg.ifname_buf) w3 cfg.ifindex,
                        ),
                      ),
                    )
              ]
            ]
          ]
        ]

    -- `main` exits, or it enters its loop: then the options are accepted and name a device, they
    -- do not ask to unload, and the program of the section's name is on the device.
    pub main-OnDevice :
        (if_nametoindex atoi : Bytes → ℕ) (args : List (Choice × Bytes)) (w : W)
        → ((code : ℕ) × ((main calls link system if_nametoindex atoi args w).0 ≡ exits code))
          ⊎ ((cfg : Config) × (parse_cmdline_args if_nametoindex atoi args initial_config
                ≡ some cfg)
              × (cfg.ifindex ≢ 2 ^ 32 - 1)
              × (cfg.do_unload ≡ false)
              × OnDevice cfg (main calls link system if_nametoindex atoi args w).1)
    unfolding main
    main-OnDevice if_nametoindex atoi args w =
        elim (Option-cases (parse_cmdline_args if_nametoindex atoi args initial_config)) [
          | inl e ↦ inl (exit_fail_option, ground (arith, e))
          | inr (cfg, e) ↦ elim (set_up-OnDevice cfg w) [
            | inl (code, f) ↦ inl (code, ground (arith, e, f))
            | inr (i, u, (obj, prog, w1, found, on)) ↦
                inr (cfg, e, i, u, (obj, prog, w1, found, ground (arith, e, on)))
          ]
        ]
