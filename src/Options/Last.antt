-- ===== src/Options/Last.antt =====
-- What the options of fully_in-kernel/common/common_params.c leave: the last one of a kind holds.
use mathlib.Core.Path.{subst}
use fide.Base.{
  ℕ, ◌≡◌, inl, inr, sym, ap, ◌∙◌, arith, List, [], ◌∷◌, true, false, Option, none, some,
  Option-cases,
}
use fide.Packet.{Bytes}
use fide.Options.{
  AttachMode, unspec, native, skb, hw, Config, Choice, auto_mode, skb_mode, native_mode,
  offload_mode, unload, apply, parse_cmdline_args, set_dev, set_redirect_dev,
}

-- The mode of the last option that names one.
unfoldable pub last_mode : List (Choice × Bytes) → AttachMode → AttachMode
last_mode [] mode = mode
last_mode ((auto_mode, optarg) ∷ args) mode = last_mode args unspec
last_mode ((skb_mode, optarg) ∷ args) mode = last_mode args skb
last_mode ((native_mode, optarg) ∷ args) mode = last_mode args native
last_mode ((offload_mode, optarg) ∷ args) mode = last_mode args hw
last_mode ((opt, optarg) ∷ args) mode = last_mode args mode

-- The argument of the last option to unload, if there is one.
unfoldable pub last_unload : List (Choice × Bytes) → Option Bytes → Option Bytes
last_unload [] found = found
last_unload ((unload, optarg) ∷ args) found = last_unload args (some optarg)
last_unload ((opt, optarg) ∷ args) found = last_unload args found

-- The program to unload, as the configuration has it.
abbrev pub Asks : (Bytes → ℕ) → Config → Option Bytes → Type 0
Asks atoi cfg none = cfg.do_unload ≡ false
Asks atoi cfg (some optarg) = (cfg.do_unload ≡ true) × (cfg.prog_id ≡ atoi optarg)

module _ (if_nametoindex atoi : Bytes → ℕ) where
  apply-mode :
      (opt : Choice) (optarg : Bytes) (cfg cfg' : Config)
      → apply if_nametoindex atoi opt optarg cfg ≡ some cfg'
      → (cfg'.attach_mode ≡ last_mode ((opt, optarg) ∷ []) cfg.attach_mode)
        × (cfg'.xdp_flags ≡ cfg.xdp_flags)
  unfolding apply set_dev set_redirect_dev last_mode
  apply-mode opt optarg cfg cfg' h = ground arith

  last_mode-cons :
      (opt : Choice) (optarg : Bytes) (args : List (Choice × Bytes)) (mode : AttachMode)
      → last_mode ((opt, optarg) ∷ args) mode ≡ last_mode args (last_mode ((opt, optarg) ∷ []) mode)
  unfolding last_mode
  last_mode-cons opt optarg args mode = ground arith

  last_unload-cons :
      (opt : Choice) (optarg : Bytes) (args : List (Choice × Bytes)) (found : Option Bytes)
      → last_unload ((opt, optarg) ∷ args) found
        ≡ last_unload args (last_unload ((opt, optarg) ∷ []) found)
  unfolding last_unload
  last_unload-cons opt optarg args found = ground arith

  apply-Asks :
      (opt : Choice) (optarg : Bytes) (cfg cfg' : Config) (found : Option Bytes)
      → apply if_nametoindex atoi opt optarg cfg ≡ some cfg'
      → Asks atoi cfg found
      → Asks atoi cfg' (last_unload ((opt, optarg) ∷ []) found)
  unfolding apply set_dev set_redirect_dev last_unload
  apply-Asks opt optarg cfg cfg' none h a = ground arith
  apply-Asks opt optarg cfg cfg' (some s) h a = ground arith

  -- After the options, the attach mode is that of the last option that names one, xdp_flags is as
  -- it was, and a program is to be unloaded exactly when an option says so, the one whose number
  -- the last of these options gives.
  pub parse_cmdline_args-last :
      (args : List (Choice × Bytes)) (cfg cfg' : Config) (found : Option Bytes)
      → Asks atoi cfg found
      → parse_cmdline_args if_nametoindex atoi args cfg ≡ some cfg'
      → (cfg'.attach_mode ≡ last_mode args cfg.attach_mode)
        × (cfg'.xdp_flags ≡ cfg.xdp_flags)
        × Asks atoi cfg' (last_unload args found)
  unfolding parse_cmdline_args last_mode last_unload
  parse_cmdline_args-last [] cfg cfg' found a h =
      let same : cfg ≡ cfg' = ground arith in
      (ground arith, ground arith, subst (λ c. Asks atoi c found) same a)
  parse_cmdline_args-last ((opt, optarg) ∷ args) cfg cfg' found a h =
      elim (Option-cases (apply if_nametoindex atoi opt optarg cfg)) [
        | inl e ↦ absurd (ground arith)
        | inr (next, e) ↦
            let (mode, flags) = apply-mode opt optarg cfg next e in
            let (modes, all, asked) =
              parse_cmdline_args-last args next cfg' (last_unload ((opt, optarg) ∷ []) found)
                (apply-Asks opt optarg cfg next found e a) (ground arith) in
            (
              modes
                  ∙ ap (last_mode args) mode
                  ∙ sym (last_mode-cons opt optarg args cfg.attach_mode),
              all ∙ flags,
              subst (Asks atoi cfg') (sym (last_unload-cons opt optarg args found)) asked,
            )
      ]
