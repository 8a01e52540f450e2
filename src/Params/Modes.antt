-- ===== src/Params/Modes.antt =====
-- The flags that the options of common_params.c set.
use fide.Base.{
  ℕ, zero, suc, refl, ◌+◌, ◌-◌, ◌*◌, ◌/◌, ◌%◌, ◌^◌, ◌<◌, ◌≡◌, bit_and, bit_or, arith, and_halves,
  or_halves, bit_and_mask, bit_and-zero, bit_or-zero,
}
use package.native.Mathlib.Nat.{le_refl}
use fide.Params.{Mode, auto, skb, native, hardware, mode_flag, set_mode, bind_copy, bind_zerocopy}

clear_modes : (f : ℕ) → f < 2 ^ 32 → bit_and f (2 ^ 32 - 1 - 14) ≡ f / 16 * 16 + f % 2
clear_modes f h = ground (
  arith,
  and_halves f (2 ^ 32 - 15),
  and_halves (f / 2) (2 ^ 31 - 8),
  and_halves (f / 2 / 2) (2 ^ 30 - 4),
  and_halves (f / 2 / 2 / 2) (2 ^ 29 - 2),
  bit_and_mask 28 (f / 2 / 2 / 2 / 2),
)

or_bits : (b : ℕ) → b < 2 → (bit_or (b * 4) 2 ≡ b * 4 + 2) × (bit_or (b * 2) 4 ≡ b * 2 + 4)
or_bits zero h = (refl, refl)
or_bits (suc zero) h = (refl, refl)
or_bits (suc (suc b)) h = absurd (omega arith)

-- A number with no digit at 2, 4 and 8 takes a mode flag as a summand.
or_mode :
    (m : Mode) (a b : ℕ) → b < 2 → bit_or (a * 16 + b) (mode_flag m) ≡ a * 16 + mode_flag m + b
unfolding mode_flag
or_mode auto a b h = omega (arith, bit_or-zero (a * 16 + b) (a * 16 + b) (le_refl _))
or_mode skb a b h =
    ground (arith, or_halves (a * 16 + b) 2, or_halves (a * 8) 1, bit_or-zero (a * 4) (a * 4))
or_mode native a b h = ground (
  arith,
  or_halves (a * 16 + b) 4,
  or_halves (a * 8) 2,
  or_halves (a * 4) 1,
  bit_or-zero (a * 2) (a * 2),
)
or_mode hardware a b h = ground (
  arith,
  or_halves (a * 16 + b) 8,
  or_halves (a * 8) 4,
  or_halves (a * 4) 2,
  or_halves (a * 2) 1,
  bit_or-zero a a,
)

-- A mode option leaves exactly its own mode flag, or none for the automatic mode, and every other
-- flag as it was.
pub set_mode_lem :
    (m : Mode) (f : ℕ) → f < 2 ^ 32 → set_mode m f ≡ f / 16 * 16 + mode_flag m + f % 2
unfolding set_mode mode_flag
set_mode_lem auto f h = ground (arith, clear_modes f, or_mode auto (f / 16) (f % 2))
set_mode_lem skb f h = ground (arith, clear_modes f, or_mode skb (f / 16) (f % 2))
set_mode_lem native f h = ground (arith, clear_modes f, or_mode native (f / 16) (f % 2))
set_mode_lem hardware f h = ground (arith, clear_modes f, or_mode hardware (f / 16) (f % 2))

-- The copy option keeps the zero-copy flag and loses every flag but that and its own; the
-- zero-copy option keeps the copy flag and loses every flag but that and its own.
pub bind_copy_lem :
    (f : ℕ) → (bind_copy f ≡ f / 4 % 2 * 4 + 2) × (bind_zerocopy f ≡ f / 2 % 2 * 2 + 4)
unfolding bind_copy bind_zerocopy
bind_copy_lem f = ground (
  arith,
  and_halves f 4,
  and_halves (f / 2) 2,
  and_halves (f / 2 / 2) 1,
  and_halves f 2,
  and_halves (f / 2) 1,
  bit_and-zero (f / 2 / 2 / 2) (f / 2 / 2 / 2),
  bit_and-zero (f / 2 / 2) (f / 2 / 2),
  or_bits (f / 2 / 2 % 2),
  or_bits (f / 2 % 2),
)
