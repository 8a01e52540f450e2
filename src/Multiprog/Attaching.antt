-- ===== src/Multiprog/Attaching.antt =====
-- What load_bpf_and_xdp_attach of fully_in-kernel/common/common_user_bpf_xdp.c leaves.
use fide.Base.{
  ℕ, ◌≡◌, ◌≢◌, ◌⊎◌, inl, inr, arith, some, true, false, Bool, ◌==◌, is_neg32, Option-cases,
  Bool-cases,
}
use fide.Packet.{Bytes}
use fide.Options.{AttachMode, Config}
use fide.Multiprog.{
  XdpCalls, Ending, exits, returns, attach_created, load_bpf_and_xdp_attach, exit_fail_bpf,
}

-- What the code relies on; `loaded w i n` is whether the device `i` has the program number `n`.
pub record AttachLaws {W MP Prog : Type 0} (calls : XdpCalls W MP Prog) (loaded : W → ℕ → ℕ → Bool)
    : Type 0 where
  pub create_keeps :
      (w : W) (file name : Bytes) (i n : ℕ) → loaded (calls.create w file name).1 i n ≡ loaded w i n
  pub attach_ok :
      (w : W) (p : Prog) (i : ℕ) (mode : AttachMode)
      → (calls.attach w p i mode).0 ≡ 0
      → loaded (calls.attach w p i mode).1 i (calls.id (some p)) ≡ true
  pub attach_failed :
      (w : W) (p : Prog) (i : ℕ) (mode : AttachMode) (n : ℕ)
      → (calls.attach w p i mode).0 ≢ 0
      → loaded (calls.attach w p i mode).1 i n ≡ loaded w i n

module _ {W MP Prog : Type 0} (calls : XdpCalls W MP Prog) (loaded : W → ℕ → ℕ → Bool)
    (laws : AttachLaws calls loaded) where
  -- The program is on the device, and its file descriptor is the one of a program or is not.
  pub record OnDevice (i : ℕ) (bad : Bool) (prog : Prog) (w : W) : Type 0 where
    pub there : loaded w i (calls.id (some prog)) ≡ true
    pub fd_sign : is_neg32 (calls.fd w prog) ≡ bad

  abbrev pub Outcome : ℕ → W → Ending Prog × W → Type 0
  Outcome i w r =
      ((prog : Prog) × (r.0 ≡ returns prog) × OnDevice i false prog r.1)
      ⊎ ((code : ℕ) × (r.0 ≡ exits code)
          × (code ≢ 0)
          × (((n : ℕ) → loaded r.1 i n ≡ loaded w i n)
              ⊎ ((prog : Prog) × OnDevice i true prog r.1)))

  attach_created-Outcome :
      (cfg : Config) (prog : Prog) (w : W) → Outcome cfg.ifindex w (attach_created calls cfg prog w)
  unfolding attach_created
  attach_created-Outcome cfg prog w =
      let i = cfg.ifindex in
      let (err, w1) = calls.attach w prog i cfg.attach_mode in
      elim (Bool-cases (err == 0)) [
        | inr failed ↦ inr (
          err,
          ground arith,
          ground arith,
          inl (λ n. ground (arith, laws.attach_failed w prog i cfg.attach_mode n)),
        )
        | inl ok ↦
            let on = laws.attach_ok w prog i cfg.attach_mode (ground arith) in
            elim (Bool-cases (is_neg32 (calls.fd w1 prog))) [
              | inl bad ↦ inr (
                exit_fail_bpf,
                ground arith,
                omega arith,
                inr (prog, record { there = ground arith; fd_sign = ground arith }),
              )
              | inr good ↦
                  inl (prog, ground arith, record { there = ground arith; fd_sign = ground arith })
            ]
      ]

  -- load_bpf_and_xdp_attach returns with the program on the device and a file descriptor for it, or
  -- exits with a code that is not 0: then the device is as it was, or, where only the file
  -- descriptor was not given, has the program all the same.
  pub load_bpf_and_xdp_attach-Outcome :
      (cfg : Config) (w : W) → Outcome cfg.ifindex w (load_bpf_and_xdp_attach calls cfg w)
  unfolding load_bpf_and_xdp_attach
  load_bpf_and_xdp_attach-Outcome cfg w =
      let r = calls.create w cfg.filename cfg.progname in
      let same = laws.create_keeps w cfg.filename cfg.progname cfg.ifindex in
      elim (Option-cases r.0) [
        | inl e ↦ inr (exit_fail_bpf, ground arith, omega arith, inl (λ n. ground (arith, same n)))
        | inr (prog, e) ↦ elim (attach_created-Outcome cfg prog r.1) [
          | inl (p, f, on) ↦ inl (
            p,
            ground arith,
            record { there = ground (arith, on.there); fd_sign = ground (arith, on.fd_sign) },
          )
          | inr (code, f, bad, inl left) ↦
              inr (code, ground arith, bad, inl (λ n. ground (arith, same n, left n)))
          | inr (code, f, bad, inr (p, on)) ↦ inr (
            code,
            ground arith,
            bad,
            inr (
              p,
              record { there = ground (arith, on.there); fd_sign = ground (arith, on.fd_sign) },
            ),
          )
        ]
      ]
