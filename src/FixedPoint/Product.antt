-- ===== src/FixedPoint/Product.antt =====
-- `multiply` of fixed-point.h, at 16 fraction bits.
use mathlib.Core.Path.{ap₂}
use fide.Base.{ℕ, ◌∙◌, ◌+◌, ◌*◌, ◌/◌, ◌%◌, ◌^◌, ◌<◌, ◌≡◌, some, arith, bit_and_mask, u32}
use fide.FixedPoint.{FixedPoint, low32, high32, partial_products, multiply}
use fide.FixedPoint.Align.{IsFormed, check_bit_lem}

abbrev high : FixedPoint → ℕ
high x = x.number / 2 ^ 16

abbrev low : FixedPoint → ℕ
low x = x.number % 2 ^ 16

u32-low32 : (x : FixedPoint) → u32 (low32 x) ≡ low x
unfolding low32
u32-low32 x = ground (arith, bit_and_mask 16 x.number)

u32-high32 : (x : FixedPoint) → x.number < 2 ^ 31 → u32 (high32 x) ≡ high x
unfolding high32
u32-high32 x h = ground arith

-- The schoolbook product of two numbers cut into halves, with the lowest 16 digits cut off.
halves :
    (a b c d : ℕ)
    → (a * 2 ^ 16 + b) * (c * 2 ^ 16 + d) / 2 ^ 16 ≡ a * c * 2 ^ 16 + b * c + a * d + b * d / 2 ^ 16
halves a b c d = omega arith

-- The products of the halves, where none of them overflows.
partial_products_lem :
    (a b c d : ℕ)
    → a * c * 2 ^ 16 + b * c + a * d + b * d / 2 ^ 16 < 2 ^ 31
    → b * d < 2 ^ 31
    → partial_products 16 (a * c) a b c d ≡ some (a * c * 2 ^ 16 + b * c + a * d + b * d / 2 ^ 16)
unfolding partial_products
partial_products_lem a b c d fits low_fits = ground arith

-- The product of two numbers with 16 fraction bits that are not negative, where it fits and the
-- product of the lower halves does too: the exact product, cut to 16 fraction bits.
pub multiply_lem :
    (first second : FixedPoint)
    → first.q ≡ 16
    → second.q ≡ 16
    → first.number < 2 ^ 31
    → second.number < 2 ^ 31
    → first.number * second.number / 2 ^ 16 < 2 ^ 31
    → (first.number % 2 ^ 16) * (second.number % 2 ^ 16) < 2 ^ 31
    → multiply first second
      ≡ some (record { number = first.number * second.number / 2 ^ 16; q = 16 }, first, second)
unfolding multiply
multiply_lem first second e f small_first small_second fits low_fits =
    let split = halves (high first) (low first) (high second) (low second) in
    let p : IsFormed first = record { number_fits = omega arith; q_fits = omega arith } in
    let r : IsFormed second = record { number_fits = omega arith; q_fits = omega arith } in
    let whole : first.number ≡ high first * 2 ^ 16 + low first = omega arith in
    let whole' : second.number ≡ high second * 2 ^ 16 + low second = omega arith in
    let exact : first.number * second.number / 2 ^ 16
        ≡ high first * high second * 2 ^ 16
          + low first * high second
          + high first * low second
          + low first * low second / 2 ^ 16 =
      ap₂ (λ x y. x * y / 2 ^ 16) whole whole' ∙ split in
    let total : high first * high second * 2 ^ 16
          + low first * high second
          + high first * low second
          + low first * low second / 2 ^ 16
        < 2 ^ 31 =
      omega arith in
    let temp : high first * high second < 2 ^ 15 = omega arith in
    rw
      (
        u32-low32 first,
        u32-low32 second,
        u32-high32 first small_first,
        u32-high32 second small_second,
        check_bit_lem first second p r,
      )
      (ground (
        arith,
        partial_products_lem (high first) (low first) (high second) (low second) total low_fits,
      ))
