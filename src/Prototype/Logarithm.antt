-- ===== src/Prototype/Logarithm.antt =====
-- calc_log of dynamic-fix.c: the number that it computes, and that it is undefined all the same.
use native.Mathlib.Nat.{le_refl, div-le_self, add-mul-div_right, mul_assoc, div-lt_iff_lt-mul}
use fide.Base.{
  ℕ, ◌+◌, ◌-◌, ◌*◌, ◌/◌, ◌%◌, ◌^◌, ◌≤◌, ◌<◌, ◌≡◌, ◌∙◌, sym, ap, none, some, arith, bit_length,
  bit_length-le, bit_length-gt, pow-bit_length-le, lt-bit_length, pow-add, pow_pos, get_or, sext64,
}
use fide.LogTable.{log_table, log_table-lt}
use fide.FixedPoint.{FixedPoint, count_zero_32}
use fide.FixedPoint.Log.{digits_below, normal, top_byte, leading_zeros, fraction-lt}
use fide.Prototype.{log_number, calc_log}

-- The whole part in units of 2 ^ 24 and the entry, cut to `q` fraction bits together.
abbrev sum_of : ℕ → ℕ → ℕ
sum_of n q = ((bit_length n - 1 - q) * 2 ^ 24 + get_or log_table (digits_below n) 0) / 2 ^ (24 - q)

log_number_sum :
    (x : FixedPoint)
    → 2 ≤ x.number
    → x.number < 2 ^ 31
    → x.q ≤ 24
    → x.q < bit_length x.number
    → log_number x (count_zero_32 (sext64 x.number)) ≡ some (sum_of x.number x.q)
unfolding log_number
log_number_sum x big small qs one =
    let len = bit_length x.number in
    let short : len ≤ 31 = bit_length-le 31 x.number small in
    let long : 1 < len = bit_length-gt 1 x.number big in
    let range = normal x.number (omega arith) small in
    let shift : (32 - len + 1) % 2 ^ 32 ≡ 33 - len = omega arith in
    let moved = x.number * 2 ^ (33 - len) in
    let whole = (len - 1 - x.q) * 2 ^ 24 in
    rw (leading_zeros x.number small, shift)
      (ground (
        arith,
        top_byte (moved - 2 ^ 32),
        log_table-lt (digits_below x.number),
        div-le_self (whole + get_or log_table (digits_below x.number) 0) (2 ^ (24 - x.q)),
      ))

-- The sum in units of 2 ^ q.
sum_of-parts :
    (n q : ℕ)
    → q ≤ 24
    → sum_of n q
      ≡ get_or log_table (digits_below n) 0 / 2 ^ (24 - q) + (bit_length n - 1 - q) * 2 ^ q
sum_of-parts n q h =
    let d = 2 ^ (24 - q) in
    let whole = bit_length n - 1 - q in
    let entry = get_or log_table (digits_below n) 0 in
    let unit : whole * 2 ^ 24 ≡ whole * 2 ^ q * d =
      ap (λ k. whole * 2 ^ k) {x = 24} {y = q + (24 - q)} (omega arith)
      ∙ ap (λ t. whole * t) (pow-add q (24 - q))
      ∙ sym (mul_assoc whole (2 ^ q) d) in
    ap (λ t. t / d) {x = whole * 2 ^ 24 + entry} {y = entry + whole * 2 ^ q * d}
      (omega (arith, unit))
    ∙ add-mul-div_right entry (whole * 2 ^ q) (pow_pos (24 - q))

whole_part : (n q : ℕ) → 0 < n → n < 2 ^ 31 → q ≤ 24 → sum_of n q / 2 ^ q ≡ bit_length n - 1 - q
whole_part n q pos small h =
    let part = get_or log_table (digits_below n) 0 / 2 ^ (24 - q) in
    let none_left : part / 2 ^ q ≡ 0 = omega (
      arith,
      (div-lt_iff_lt-mul {k = 2 ^ q} {x = part} {y = 1} (pow_pos q)).1
          (omega (arith, fraction-lt n q pos small h)),
    ) in
    ap (λ t. t / 2 ^ q) (sum_of-parts n q h)
    ∙ add-mul-div_right part (bit_length n - 1 - q) (pow_pos q)
    ∙ omega (arith, none_left)

-- The number that calc_log of dynamic-fix.c computes, for a number of at least two units of its
-- last place and at least one, with at most 24 fraction bits: its whole part in units of 2 ^ q,
-- the format of the argument, is the logarithm to base 2 rounded down.
pub log_number_floor :
    (x : FixedPoint)
    → 2 ≤ x.number
    → x.number < 2 ^ 31
    → x.q ≤ 24
    → 2 ^ x.q ≤ x.number
    → (number : ℕ) × (log_number x (count_zero_32 (sext64 x.number)) ≡ some number)
      × (2 ^ (number / 2 ^ x.q + x.q) ≤ x.number)
      × (x.number < 2 ^ (number / 2 ^ x.q + x.q + 1))
log_number_floor x big small qs one =
    let len = bit_length x.number in
    let long : x.q < len = bit_length-gt x.q x.number one in
    let cut = whole_part x.number x.q (omega arith) small qs in
    let place : sum_of x.number x.q / 2 ^ x.q + x.q ≡ len - 1 = omega (arith, cut) in
    let above : sum_of x.number x.q / 2 ^ x.q + x.q + 1 ≡ len = omega (arith, cut) in
    (
      sum_of x.number x.q,
      log_number_sum x big small qs long,
      rw place (pow-bit_length-le x.number (omega arith)),
      rw above (lt-bit_length x.number x.number (le_refl x.number)),
    )

-- calc_log of dynamic-fix.c is undefined on every positive number.
pub calc_log_undefined : (x : FixedPoint) → 0 < x.number → x.number < 2 ^ 31 → calc_log x ≡ none
unfolding calc_log
calc_log_undefined x pos small =
    let long = bit_length-gt 0 x.number pos in
    let short = bit_length-le 31 x.number small in ground (arith, leading_zeros x.number small)
