-- ===== src/Multiprog/Detaching.antt =====
-- What do_unload of fully_in-kernel/common/common_user_bpf_xdp.c removes.
use fide.Base.{
  ℕ, ◌≡◌, ◌≢◌, ◌⊎◌, inl, inr, refl, ◌∙◌, arith, List, [], ◌∷◌, Option, none, some, false, Bool,
  ◌==◌, if◌then◌else◌, Option-cases, Bool-cases,
}
use fide.Options.{AttachMode, Config}
use fide.Multiprog.{
  Found, refused, nothing, multiprog, XdpCalls, exit_failure, first_with, choose, detach_chosen,
  detach_found, do_unload,
}

-- What the code relies on; `loaded w i n` is whether the device `i` has the program number `n`.
pub record DetachLaws {W MP Prog : Type 0} (calls : XdpCalls W MP Prog) (loaded : W → ℕ → ℕ → Bool)
    : Type 0 where
  pub get_keeps : (w : W) (i n : ℕ) → loaded (calls.get_from_ifindex w i).1 i n ≡ loaded w i n
  pub close_keeps :
      (w : W) (found : Found MP) (i n : ℕ) → loaded (calls.close w found) i n ≡ loaded w i n
  pub detach_null : (w : W) (i : ℕ) (mode : AttachMode) → (calls.detach w none i mode).0 ≢ 0
  pub detach_ok :
      (w : W) (p : Prog) (i : ℕ) (mode : AttachMode) (n : ℕ)
      → (calls.detach w (some p) i mode).0 ≡ 0
      → loaded (calls.detach w (some p) i mode).1 i n
        ≡ (if n == calls.id (some p) then false else loaded w i n)
  pub detach_failed :
      (w : W) (p : Option Prog) (i : ℕ) (mode : AttachMode) (n : ℕ)
      → (calls.detach w p i mode).0 ≢ 0
      → loaded (calls.detach w p i mode).1 i n ≡ loaded w i n
  -- of the programs that `w` gave for the device
  pub all_ok :
      (w : W) (i : ℕ) (mp : MP) (n : ℕ)
      → (calls.get_from_ifindex w i).0 ≡ multiprog mp
      → (calls.detach_all (calls.get_from_ifindex w i).1 mp).0 ≡ 0
      → loaded (calls.detach_all (calls.get_from_ifindex w i).1 mp).1 i n ≡ false
  pub all_failed :
      (w : W) (i : ℕ) (mp : MP) (n : ℕ)
      → (calls.get_from_ifindex w i).0 ≡ multiprog mp
      → (calls.detach_all (calls.get_from_ifindex w i).1 mp).0 ≢ 0
      → loaded (calls.detach_all (calls.get_from_ifindex w i).1 mp).1 i n ≡ loaded w i n

module _ {W MP Prog : Type 0} (calls : XdpCalls W MP Prog) where
  first_with-id :
      (n : ℕ) (progs : List Prog) (p : Prog)
      → first_with calls n progs ≡ some p
      → calls.id (some p) ≡ n
  unfolding first_with
  first_with-id n [] p h = absurd (ground arith)
  first_with-id n (q ∷ progs) p h = elim (Bool-cases (calls.id (some q) == n)) [
    | inl e ↦ ground arith
    | inr e ↦ first_with-id n progs p (ground arith)
  ]

  -- The chosen program has the number.
  choose-id :
      (n : ℕ) (mp : MP) (p : Option Prog) (mode : AttachMode)
      → choose calls n mp ≡ some (p, mode)
      → calls.id p ≡ n
  unfolding choose
  choose-id n mp p mode h = elim (Option-cases (first_with calls n (calls.programs mp))) [
    | inl e ↦ ground arith
    | inr (q, e) ↦ ground (arith, first_with-id n (calls.programs mp) q e)
  ]

  -- No program that do_unload looks at has the number.
  pub record Absent (n : ℕ) (mp : MP) : Type 0 where
    pub none_listed : first_with calls n (calls.programs mp) ≡ none
    pub no_main : (calls.is_legacy mp ≡ false) ⊎ (calls.id (calls.main_prog mp) ≢ n)
    pub no_hw : calls.id (calls.hw_prog mp) ≢ n

  -- Where no program of the device has the number, and not all are to go, do_unload detaches
  -- nothing and returns EXIT_FAILURE.
  pub do_unload-Absent :
      (cfg : Config) (w w1 : W) (mp : MP)
      → cfg.unload_all ≡ false
      → calls.get_from_ifindex w cfg.ifindex ≡ (multiprog mp, w1)
      → Absent cfg.prog_id mp
      → do_unload calls cfg w ≡ (exit_failure, calls.close w1 (multiprog mp))
  unfolding do_unload detach_found detach_chosen choose
  do_unload-Absent cfg w w1 mp one e a = ground (arith, a)

  module _ (loaded : W → ℕ → ℕ → Bool) (laws : DetachLaws calls loaded) where
    -- Either the device is as it was, or what was asked for has gone.
    abbrev pub Unloaded : Config → W → ℕ × W → Type 0
    Unloaded cfg w r =
        ((r.0 ≢ 0) × ((n : ℕ) → loaded r.1 cfg.ifindex n ≡ loaded w cfg.ifindex n))
        ⊎ ((r.0 ≡ 0)
            × ((n : ℕ)
                → loaded r.1 cfg.ifindex n ≡ (
                    if cfg.unload_all
                    then false
                    else if n == cfg.prog_id
                    then false
                    else loaded w cfg.ifindex n)))

    detach-Unloaded :
        (cfg : Config) (w : W) (p : Option Prog) (mode : AttachMode)
        → cfg.unload_all ≡ false
        → calls.id p ≡ cfg.prog_id
        → Unloaded cfg w (calls.detach w p cfg.ifindex mode)
    detach-Unloaded cfg w none mode one e = inl (
      laws.detach_null w cfg.ifindex mode,
      λ n. laws.detach_failed w none cfg.ifindex mode n (laws.detach_null w cfg.ifindex mode),
    )
    detach-Unloaded cfg w (some p) mode one e =
        elim (Bool-cases ((calls.detach w (some p) cfg.ifindex mode).0 == 0)) [
          | inl ok ↦ inr (ground arith, λ n. ground (arith, laws.detach_ok w p cfg.ifindex mode n))
          | inr bad ↦
              inl (
                ground arith,
                λ n. ground (arith, laws.detach_failed w (some p) cfg.ifindex mode n),
              )
        ]

    chosen-Unloaded :
        (cfg : Config) (w : W) (mp : MP)
        → (calls.get_from_ifindex w cfg.ifindex).0 ≡ multiprog mp
        → Unloaded cfg w (detach_chosen calls cfg mp (calls.get_from_ifindex w cfg.ifindex).1)
    unfolding detach_chosen
    chosen-Unloaded cfg w mp found =
        let i = cfg.ifindex in
        let w1 = (calls.get_from_ifindex w i).1 in
        let same = laws.get_keeps w i in
        elim (Bool-cases cfg.unload_all) [
          | inl every ↦ elim (Bool-cases ((calls.detach_all w1 mp).0 == 0)) [
            | inl ok ↦ inr (ground arith, λ n. ground (arith, laws.all_ok w i mp n found))
            | inr bad ↦ inl (ground arith, λ n. ground (arith, laws.all_failed w i mp n found))
          ]
          | inr one ↦ elim (Option-cases (choose calls cfg.prog_id mp)) [
            | inl e ↦ inl (ground arith, λ n. ground (arith, same n))
            | inr ((p, mode), e) ↦
                elim (detach-Unloaded cfg w1 p mode one (choose-id cfg.prog_id mp p mode e)) [
                  | inl (bad, left) ↦ inl (ground arith, λ n. ground (arith, left n, same n))
                  | inr (ok, gone) ↦ inr (ground arith, λ n. ground (arith, gone n, same n))
                ]
          ]
        ]

    found-Unloaded :
        (cfg : Config) (w : W) (found : Found MP)
        → (calls.get_from_ifindex w cfg.ifindex).0 ≡ found
        → Unloaded cfg w (detach_found calls cfg found (calls.get_from_ifindex w cfg.ifindex).1)
    unfolding detach_found
    found-Unloaded cfg w refused e = inl (omega arith, laws.get_keeps w cfg.ifindex)
    found-Unloaded cfg w nothing e = inl (omega arith, laws.get_keeps w cfg.ifindex)
    found-Unloaded cfg w (multiprog mp) e = chosen-Unloaded cfg w mp e

    -- do_unload returns EXIT_FAILURE and leaves the device as it is, or returns 0: then the program
    -- with the given number has gone from the device, or every program where all were to go, and no
    -- other one.
    pub do_unload-Unloaded :
        (cfg : Config) (w : W)
        → (((do_unload calls cfg w).0 ≡ exit_failure)
            × ((n : ℕ) → loaded (do_unload calls cfg w).1 cfg.ifindex n ≡ loaded w cfg.ifindex n))
          ⊎ (((do_unload calls cfg w).0 ≡ 0)
              × ((n : ℕ)
                  → loaded (do_unload calls cfg w).1 cfg.ifindex n ≡ (
                      if cfg.unload_all
                      then false
                      else if n == cfg.prog_id
                      then false
                      else loaded w cfg.ifindex n)))
    unfolding do_unload
    do_unload-Unloaded cfg w =
        let (found, w1) = calls.get_from_ifindex w cfg.ifindex in
        let w2 = (detach_found calls cfg found w1).1 in
        elim (found-Unloaded cfg w found refl) [
          | inl (bad, left) ↦
              inl (ground arith, λ n. laws.close_keeps w2 found cfg.ifindex n ∙ left n)
          | inr (ok, gone) ↦
              inr (ground arith, λ n. laws.close_keeps w2 found cfg.ifindex n ∙ gone n)
        ]
