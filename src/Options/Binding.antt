-- ===== src/Options/Binding.antt =====
-- The flags that the copy options of fully_in-kernel/common/common_params.c set.
use fide.Base.{
  ℕ, ◌+◌, ◌-◌, ◌*◌, ◌/◌, ◌%◌, ◌^◌, ◌<◌, ◌≤◌, ◌≡◌, inl, inr, arith, List, [], ◌∷◌, some, bit_and,
  bit_or, and_halves, or_halves, bit_and_mask, bit_or-zero, Option-cases,
}
use fide.Packet.{Bytes}
use fide.Options.{
  Config, Choice, bind_copy, bind_zerocopy, apply, parse_cmdline_args, set_dev, set_redirect_dev,
}

-- All flags but one of the two.
clear_zerocopy : (f : ℕ) → f < 2 ^ 16 → bit_and f (2 ^ 16 - 1 - 4) ≡ f / 8 * 8 + f % 4
clear_zerocopy f h = ground (
  arith,
  and_halves f (2 ^ 16 - 5),
  and_halves (f / 2) (2 ^ 15 - 3),
  and_halves (f / 2 / 2) (2 ^ 14 - 2),
  bit_and_mask 13 (f / 2 / 2 / 2),
)

clear_copy : (f : ℕ) → f < 2 ^ 16 → bit_and f (2 ^ 16 - 1 - 2) ≡ f / 4 * 4 + f % 2
clear_copy f h =
    ground (
      arith,
      and_halves f (2 ^ 16 - 3),
      and_halves (f / 2) (2 ^ 15 - 2),
      bit_and_mask 14 (f / 2 / 2),
    )

set_copy : (f : ℕ) → bit_or f 2 ≡ f / 4 * 4 + 2 + f % 2
set_copy f = ground (arith, or_halves f 2, or_halves (f / 2) 1, bit_or-zero (f / 2 / 2) (f / 2 / 2))

set_zerocopy : (f : ℕ) → bit_or f 4 ≡ f / 8 * 8 + 4 + f % 4
set_zerocopy f = ground (
  arith,
  or_halves f 4,
  or_halves (f / 2) 2,
  or_halves (f / 2 / 2) 1,
  bit_or-zero (f / 2 / 2 / 2) (f / 2 / 2 / 2),
)

-- Each option sets its own flag, clears the other one and keeps the rest.
pub bind_copy_lem :
    (f : ℕ)
    → f < 2 ^ 16
    → (bind_copy f ≡ f / 8 * 8 + 2 + f % 2) × (bind_zerocopy f ≡ f / 8 * 8 + 4 + f % 2)
unfolding bind_copy bind_zerocopy
bind_copy_lem f h = (
  ground (arith, clear_zerocopy f, set_copy (f / 8 * 8 + f % 4)),
  ground (arith, clear_copy f, set_zerocopy (f / 4 * 4 + f % 2)),
)

-- At most one of the two flags is set, in 16 bits.
pub record OneCopy (cfg : Config) : Type 0 where
  pub small : cfg.xsk_bind_flags < 2 ^ 16
  pub not_both : cfg.xsk_bind_flags / 2 % 2 + cfg.xsk_bind_flags / 4 % 2 ≤ 1

bind_copy-alone :
    (f : ℕ) → f < 2 ^ 16 → (bind_copy f < 2 ^ 16) × (bind_copy f / 2 % 2 + bind_copy f / 4 % 2 ≤ 1)
bind_copy-alone f h = let (e, _) = bind_copy_lem f h in rw e (omega arith, omega arith)

bind_zerocopy-alone :
    (f : ℕ)
    → f < 2 ^ 16
    → (bind_zerocopy f < 2 ^ 16) × (bind_zerocopy f / 2 % 2 + bind_zerocopy f / 4 % 2 ≤ 1)
bind_zerocopy-alone f h = let (_, e) = bind_copy_lem f h in rw e (omega arith, omega arith)

module _ (if_nametoindex atoi : Bytes → ℕ) where
  apply-OneCopy :
      (opt : Choice) (optarg : Bytes) (cfg cfg' : Config)
      → OneCopy cfg
      → apply if_nametoindex atoi opt optarg cfg ≡ some cfg'
      → OneCopy cfg'
  unfolding apply set_dev set_redirect_dev
  apply-OneCopy opt optarg cfg cfg' w h = ground (
    arith,
    w,
    bind_copy-alone cfg.xsk_bind_flags w.small,
    bind_zerocopy-alone cfg.xsk_bind_flags w.small,
  )

  -- After the options, at most one of the copy and zero-copy flags is set, if it was so before.
  pub parse_cmdline_args-OneCopy :
      (args : List (Choice × Bytes)) (cfg cfg' : Config)
      → OneCopy cfg
      → parse_cmdline_args if_nametoindex atoi args cfg ≡ some cfg'
      → OneCopy cfg'
  unfolding parse_cmdline_args
  parse_cmdline_args-OneCopy [] cfg cfg' w h = ground (arith, w)
  parse_cmdline_args-OneCopy ((opt, optarg) ∷ args) cfg cfg' w h =
      elim (Option-cases (apply if_nametoindex atoi opt optarg cfg)) [
        | inl e ↦ absurd (ground arith)
        | inr (next, e) ↦
            parse_cmdline_args-OneCopy args next cfg' (apply-OneCopy opt optarg cfg next w e)
              (ground arith)
      ]
