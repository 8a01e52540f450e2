-- ===== src/FixedPoint/Log.antt =====
-- `calc_log` of fixed-point.h: the logarithm to base 2 by the position of the leading one and a
-- table for the eight digits below it.
use native.Mathlib.Nat.{mul-le-mul_right, div-le_self, div-lt_iff_lt-mul, pow-le-pow_right, le_refl}
use native.Mathlib.Decide.{dec_lt}
use fide.Base.{
  div_mono, bit_length-zero, bit_length-one, ◌⊎◌, inl, inr, ℕ, pow_pos, pow-add, pow-bit_length-le,
  ◌∙◌, u8, asr, sext64, ◌+◌, ◌-◌, ◌*◌, ◌/◌, ◌%◌, ◌^◌, ◌≤◌, ◌<◌, ◌≡◌, ap, none, some, arith,
  bit_length, bit_length-le, bit_length-gt, get_or, lt-bit_length,
}
use fide.LogTable.{log_table, log_table-lt, log_table_mono}
use fide.FixedPoint.{FixedPoint, count_zero_32, calc_log}
use fide.FixedPoint.Zeros.{count_zero_32_lem, count_zero_32_large}

-- The eight digits below the leading one of a number below 2 ^ 31.
abbrev pub digits_below : ℕ → ℕ
digits_below n = (n * 2 ^ (33 - bit_length n) - 2 ^ 32) / 2 ^ 24

-- Where the number is at least one: whole units of 2 ^ 24 for the position of the leading one,
-- and the table's entry with `q` fraction bits.
abbrev pub log_of : ℕ → ℕ → ℕ
log_of n q = (bit_length n - 1 - q) * 2 ^ 24 + get_or log_table (digits_below n) 0 / 2 ^ (24 - q)

-- A number with its leading one moved past bit 31.
pub normal :
    (n : ℕ)
    → 0 < n
    → n < 2 ^ 31
    → (2 ^ 32 ≤ n * 2 ^ (33 - bit_length n)) × (n * 2 ^ (33 - bit_length n) < 2 ^ 33)
normal n pos h =
    let len = bit_length n in
    let short : len ≤ 31 = bit_length-le 31 n h in
    let some_digit : 0 < len = bit_length-gt 0 n pos in
    let below : 2 ^ (len - 1) ≤ n = pow-bit_length-le n pos in
    let above : n < 2 ^ len = lt-bit_length n n (omega arith) in
    let low : 2 ^ 32 ≡ 2 ^ (len - 1) * 2 ^ (33 - len) =
      ap (λ k. 2 ^ k) {x = 32} {y = len - 1 + (33 - len)} (omega arith)
      ∙ pow-add (len - 1) (33 - len) in
    let high : 2 ^ 33 ≡ 2 ^ len * 2 ^ (33 - len) =
      ap (λ k. 2 ^ k) {x = 33} {y = len + (33 - len)} (omega arith) ∙ pow-add len (33 - len) in
    let unit : 0 < 2 ^ (33 - len) = pow_pos (33 - len) in
    (
      rw low (mul-le-mul_right _ below),
      rw high (omega (arith, mul-le-mul_right (2 ^ (33 - len)) above)),
    )

pub top_byte : (m : ℕ) → m < 2 ^ 32 → u8 (asr (2 ^ 32) m 24) ≡ m / 2 ^ 24
top_byte m h = ground arith

pub leading_zeros : (n : ℕ) → n < 2 ^ 31 → count_zero_32 (sext64 n) ≡ 32 - bit_length n
leading_zeros n h = ground (arith, count_zero_32_lem n)

pub calc_log_large :
    (x : FixedPoint)
    → 2 ≤ x.number
    → x.number < 2 ^ 31
    → x.q ≤ 24
    → x.q < bit_length x.number
    → calc_log x ≡ some (record { number = log_of x.number x.q; q = 8 })
unfolding calc_log
calc_log_large x big small qs one =
    let len = bit_length x.number in
    let short : len ≤ 31 = bit_length-le 31 x.number small in
    let long : 1 < len = bit_length-gt 1 x.number big in
    let range = normal x.number (omega arith) small in
    let shift : (32 - len + 1) % 2 ^ 32 ≡ 33 - len = omega arith in
    let moved = x.number * 2 ^ (33 - len) in
    rw (leading_zeros x.number small, shift)
      (ground (
        arith,
        top_byte (moved - 2 ^ 32),
        log_table-lt (digits_below x.number),
        div-le_self (get_or log_table (digits_below x.number) 0) (2 ^ (24 - x.q)),
      ))

pub fraction-lt :
    (n q : ℕ)
    → 0 < n
    → n < 2 ^ 31
    → q ≤ 24
    → get_or log_table (digits_below n) 0 / 2 ^ (24 - q) < 2 ^ q
fraction-lt n q pos small h =
    let entry = log_table-lt (digits_below n) (omega (arith, normal n pos small)) in
    let scale : 2 ^ 24 ≡ 2 ^ q * 2 ^ (24 - q) =
      ap (λ k. 2 ^ k) {x = 24} {y = q + (24 - q)} (omega arith) ∙ pow-add q (24 - q) in
    (div-lt_iff_lt-mul (pow_pos (24 - q))).1 (rw (← scale) entry)

-- The logarithm of a number that is two units of its last place or more, and at least one: its
-- whole part, in units of 2 ^ 24, is the logarithm to base 2 rounded down, and what is below is
-- less than 2 ^ q.
pub calc_log_floor :
    (x : FixedPoint)
    → 2 ≤ x.number
    → x.number < 2 ^ 31
    → x.q ≤ 24
    → 2 ^ x.q ≤ x.number
    → (result : FixedPoint) × (calc_log x ≡ some result)
      × (2 ^ (result.number / 2 ^ 24 + x.q) ≤ x.number)
      × (x.number < 2 ^ (result.number / 2 ^ 24 + x.q + 1))
      × (result.number % 2 ^ 24 < 2 ^ x.q)
calc_log_floor x big small qs one =
    let len = bit_length x.number in
    let part = fraction-lt x.number x.q (omega arith) small qs in
    let scale : 2 ^ x.q ≤ 2 ^ 24 = pow-le-pow_right {n = 2} (omega arith) {i = x.q} {j = 24} qs in
    let long : x.q < len = bit_length-gt x.q x.number one in
    let place : log_of x.number x.q / 2 ^ 24 + x.q ≡ len - 1 = omega arith in
    let above : log_of x.number x.q / 2 ^ 24 + x.q + 1 ≡ len = omega arith in
    (
      record { number = log_of x.number x.q; q = 8 },
      calc_log_large x big small qs long,
      rw place (pow-bit_length-le x.number (omega arith)),
      rw above (lt-bit_length x.number x.number (le_refl x.number)),
      omega arith,
    )

bit_length_mono : (m n : ℕ) → m ≤ n → bit_length m ≤ bit_length n
bit_length_mono m n h =
    bit_length-le (bit_length n) m (omega (arith, lt-bit_length n n (le_refl n)))

log_of_mono :
    (m n q : ℕ) → 0 < m → m ≤ n → n < 2 ^ 31 → q ≤ 24 → q < bit_length m → log_of m q ≤ log_of n q
log_of_mono m n q pos le small qs long =
    let lens = bit_length_mono m n le in
    let part_m = fraction-lt m q pos (omega arith) qs in
    let scale : 2 ^ q ≤ 2 ^ 24 = pow-le-pow_right {n = 2} (omega arith) {i = q} {j = 24} qs in
    elim (dec_lt (bit_length m) (bit_length n)) [
      | yes h ↦ omega arith
      | no h ↦
          let same : bit_length m ≡ bit_length n = omega arith in
          let top = normal n (omega arith) small in
          let digits : digits_below m ≤ digits_below n =
            rw same (omega (arith, mul-le-mul_right (2 ^ (33 - bit_length n)) le)) in
          let entries = log_table_mono (digits_below m) (digits_below n) digits (omega arith) in
          let parts = div_mono (2 ^ (24 - q)) (pow_pos (24 - q)) entries in omega arith
    ]

-- A larger number of the same format has no smaller logarithm.
pub calc_log_mono :
    (x y : FixedPoint)
    → 2 ≤ x.number
    → x.number ≤ y.number
    → y.number < 2 ^ 31
    → x.q ≡ y.q
    → x.q ≤ 24
    → 2 ^ x.q ≤ x.number
    → (a b : FixedPoint) × (calc_log x ≡ some a) × (calc_log y ≡ some b) × (a.number ≤ b.number)
calc_log_mono x y big le small same qs one =
    let long : x.q < bit_length x.number = bit_length-gt x.q x.number one in
    let lens = bit_length_mono x.number y.number le in
    (
      record { number = log_of x.number x.q; q = 8 },
      record { number = log_of y.number y.q; q = 8 },
      calc_log_large x big (omega arith) qs long,
      calc_log_large y (omega arith) small (omega arith) (omega arith),
      rw (← same) (log_of_mono x.number y.number x.q (omega arith) le small qs long),
    )

-- The smallest positive number has no logarithm: the shift that should drop its leading one is
-- by the whole width.
pub calc_log-one : (x : FixedPoint) → x.number ≡ 1 → calc_log x ≡ none
unfolding calc_log
calc_log-one x h = ground (arith, leading_zeros x.number, ap bit_length h, bit_length-one)

-- A number that is zero or negative is answered by zero.
pub calc_log_rest :
    (x : FixedPoint)
    → (x.number ≡ 0) ⊎ (2 ^ 31 ≤ x.number)
    → x.number < 2 ^ 32
    → calc_log x ≡ some (record { number = 0; q = 8 })
unfolding calc_log
calc_log_rest x (inl h) wide =
    ground (arith, leading_zeros x.number, ap bit_length h, bit_length-zero)
calc_log_rest x (inr h) wide = ground (arith, count_zero_32_large (sext64 x.number))
