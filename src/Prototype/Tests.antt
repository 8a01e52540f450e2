-- ===== src/Prototype/Tests.antt =====
-- Runs of dynamic-fix.c, and the theorems there.
use fide.Base.{ℕ, ◌+◌, ◌-◌, ◌*◌, ◌^◌, ◌≤◌, ◌<◌, ◌≡◌, refl, arith, some}
use fide.FixedPoint.{FixedPoint, check_bit, fit, count_zero_64}
use fide.FixedPoint.Align.{IsFormed}
use fide.Prototype.{sdiv64, divide}
use fide.Prototype.Division.{divide_signed}

-- 7.5, 2 and -2, with 16 fraction bits.
abbrev seven_and_half : FixedPoint
seven_and_half = record { number = 491520; q = 16 }

abbrev two : FixedPoint
two = record { number = 131072; q = 16 }

abbrev minus_two : FixedPoint
minus_two = record { number = 2 ^ 32 - 131072; q = 16 }

seven_and_half-IsFormed : IsFormed seven_and_half
seven_and_half-IsFormed = record { number_fits = omega arith; q_fits = omega arith }

two-IsFormed : IsFormed two
two-IsFormed = record { number_fits = omega arith; q_fits = omega arith }

minus_two-IsFormed : IsFormed minus_two
minus_two-IsFormed = record { number_fits = omega arith; q_fits = omega arith }

-- -3.75
negative_run :
    divide seven_and_half minus_two
    ≡ some (record { number = 2 ^ 32 - 245760; q = 16 }, seven_and_half, minus_two)
unfolding divide check_bit sdiv64 fit count_zero_64
negative_run = refl

divide_signed_example :
    (t : ℕ) × (divide seven_and_half minus_two
      ≡ some (record { number = 2 ^ 32 - (t + 1); q = 16 }, seven_and_half, minus_two))
    × (t * 131072 ≤ 491520 * 2 ^ 16)
    × (491520 * 2 ^ 16 < (t + 2) * 131072)
divide_signed_example =
    divide_signed seven_and_half minus_two seven_and_half-IsFormed minus_two-IsFormed refl
      (omega arith) (omega arith) (omega arith) (omega arith)
