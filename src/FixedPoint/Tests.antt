-- ===== src/FixedPoint/Tests.antt =====
-- Runs of fixed-point.h on small numbers, and its theorems at such inputs.
use fide.Base.{◌+◌, ◌-◌, ◌*◌, ◌/◌, ◌%◌, ◌^◌, ◌≤◌, ◌<◌, ◌≡◌, refl, none, some, arith, inr}
use fide.FixedPoint.{
  FixedPoint, narrow, last_digit, count_zero_64, count_zero_32, check_bit, fit, divide, multiply,
  calc_log,
}
use fide.FixedPoint.Align.{IsFormed}
use fide.FixedPoint.Quotient.{divide_zero, divide_bounds}
use fide.FixedPoint.Product.{multiply_lem}
use fide.FixedPoint.Log.{calc_log_floor, calc_log_rest}

-- 1.5, 0.25 and -0.25 with 16 fraction bits, and 3 with 2 of them.
abbrev one_half : FixedPoint
one_half = record { number = 98304; q = 16 }

abbrev quarter : FixedPoint
quarter = record { number = 16384; q = 16 }

abbrev minus_quarter : FixedPoint
minus_quarter = record { number = 2 ^ 32 - 16384; q = 16 }

abbrev nothing : FixedPoint
nothing = record { number = 0; q = 16 }

abbrev tiny : FixedPoint
tiny = record { number = 100; q = 16 }

abbrev three : FixedPoint
three = record { number = 12; q = 2 }

one_half-IsFormed : IsFormed one_half
one_half-IsFormed = record { number_fits = omega arith; q_fits = omega arith }

quarter-IsFormed : IsFormed quarter
quarter-IsFormed = record { number_fits = omega arith; q_fits = omega arith }

minus_quarter-IsFormed : IsFormed minus_quarter
minus_quarter-IsFormed = record { number_fits = omega arith; q_fits = omega arith }

nothing-IsFormed : IsFormed nothing
nothing-IsFormed = record { number_fits = omega arith; q_fits = omega arith }

tiny-IsFormed : IsFormed tiny
tiny-IsFormed = record { number_fits = omega arith; q_fits = omega arith }

three-IsFormed : IsFormed three
three-IsFormed = record { number_fits = omega arith; q_fits = omega arith }

zeros_of_40 : (count_zero_64 40 ≡ 58) × (count_zero_32 40 ≡ 26)
unfolding count_zero_64 count_zero_32 narrow last_digit
zeros_of_40 = (refl, refl)

six_times : divide one_half quarter ≡ some (record { number = 393216; q = 16 }, one_half, quarter)
unfolding divide check_bit fit count_zero_64 narrow last_digit
six_times = refl

divide_bounds_example :
    (result : FixedPoint) × (divide one_half quarter ≡ some (result, one_half, quarter))
    × (result.q ≤ 16)
    × (result.number * 2 ^ (16 - result.q) * 16384 ≤ 98304 * 2 ^ 16)
    × (98304 * 2 ^ 16 < (result.number + 1) * 2 ^ (16 - result.q) * 16384)
divide_bounds_example =
    divide_bounds one_half quarter one_half-IsFormed quarter-IsFormed refl (omega arith)
      (omega arith) (omega arith) (omega arith)

divide_zero_example : divide one_half nothing ≡ none
divide_zero_example = divide_zero one_half nothing one_half-IsFormed nothing-IsFormed refl refl

multiply_lem_example :
    multiply one_half quarter ≡ some (record { number = 24576; q = 16 }, one_half, quarter)
multiply_lem_example =
    multiply_lem one_half quarter refl refl (omega arith) (omega arith) (omega arith) (omega arith)

calc_log_floor_example :
    (result : FixedPoint) × (calc_log one_half ≡ some result)
    × (2 ^ (result.number / 2 ^ 24 + 16) ≤ 98304)
    × (98304 < 2 ^ (result.number / 2 ^ 24 + 16 + 1))
    × (result.number % 2 ^ 24 < 2 ^ 16)
calc_log_floor_example =
    calc_log_floor one_half (omega arith) (omega arith) (omega arith) (omega arith)

calc_log_rest_example : calc_log minus_quarter ≡ some (record { number = 0; q = 8 })
calc_log_rest_example = calc_log_rest minus_quarter (inr (omega arith)) (omega arith)
