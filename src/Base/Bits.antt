-- ===== src/Base/Bits.antt =====
-- `&` and `^` with a mask of low ones, as arithmetic at every width.
use Prim.Native.Nat.{
  ℕ, zero, suc, ◌+◌, ◌-◌, ◌*◌, ◌/◌, ◌%◌, ◌^◌, ◌≤◌, ◌<◌, min, max, bit_and, bit_or, bit_or-bitwise,
  bit_xor, digits, bitwise, differ, bit_and-bitwise, bit_xor-bitwise,
}
use mathlib.Core.Path.{◌≡◌, refl, ap, ◌∙◌}
use native.Mathlib.Nat.{le_refl, div-add-mod, mod-lt, mod-eq_of_lt, mul-add-mod_self_left}
use native.Mathlib.Omega.{arith}
use fide.Base.Pow.{pow_suc, pow_pos}

-- A count of digits to go that covers the number may grow without changing the result.
module _ (rest : ℕ → ℕ) (op : ℕ → ℕ → ℕ) where
  one_more : (n x y : ℕ) → x ≤ n → digits rest op (suc n) x y ≡ digits rest op n x y
  one_more zero zero y le = refl
  one_more (suc n) zero y le = refl
  one_more zero (suc x) y le = absurd (omega arith)
  one_more (suc n) (suc x) y le = omega (arith, one_more n (suc x / 2) (y / 2) (omega arith))

  many_more : (d n x y : ℕ) → x ≤ n → digits rest op (d + n) x y ≡ digits rest op n x y
  many_more zero n x y le = ap (λ k. digits rest op k x y) (omega arith)
  many_more (suc d) n x y le =
      ap (λ k. digits rest op k x y) {y = suc (d + n)} (omega arith)
      ∙ one_more (d + n) x y (omega arith)
      ∙ many_more d n x y le

  halved : (n x y : ℕ) → x ≤ n → digits rest op n x y ≡ bitwise rest op x y
  halved n x y le =
      ap (λ k. digits rest op k x y) (omega arith) ∙ many_more (n - x) x x y (le_refl x)

  lowest_digit :
      (x y : ℕ)
      → 0 < x
      → bitwise rest op x y ≡ bitwise rest op (x / 2) (y / 2) * 2 + op (x % 2) (y % 2)
  lowest_digit zero y pos = absurd (omega arith)
  lowest_digit (suc x) y pos = omega (arith, halved x (suc x / 2) (y / 2) (omega arith))

pub and_halves : (x y : ℕ) → bit_and x y ≡ bit_and (x / 2) (y / 2) * 2 + min (x % 2) (y % 2)
and_halves x y =
    ground
      (arith, bit_and-bitwise x y, bit_and-bitwise (x / 2) (y / 2), lowest_digit (λ d. 0) min x y)

pub or_halves : (x y : ℕ) → bit_or x y ≡ bit_or (x / 2) (y / 2) * 2 + max (x % 2) (y % 2)
or_halves zero y = omega (arith, bit_or-bitwise 0 y, bit_or-bitwise 0 (y / 2))
or_halves (suc x) y = omega (
  arith,
  bit_or-bitwise (suc x) y,
  bit_or-bitwise (suc x / 2) (y / 2),
  lowest_digit (λ d. d) max (suc x) y (omega arith),
)

xor_halves : (x y : ℕ) → bit_xor x y ≡ bit_xor (x / 2) (y / 2) * 2 + differ (x % 2) (y % 2)
xor_halves zero y = omega (arith, bit_xor-bitwise 0 y, bit_xor-bitwise 0 (y / 2))
xor_halves (suc x) y = omega (
  arith,
  bit_xor-bitwise (suc x) y,
  bit_xor-bitwise (suc x / 2) (y / 2),
  lowest_digit (λ d. d) differ (suc x) y (omega arith),
)

abbrev pub low_mask : ℕ → ℕ
low_mask k = 2 ^ k - 1

mod_double : (m a : ℕ) → 0 < m → a % (2 * m) ≡ a / 2 % m * 2 + a % 2
mod_double m a h =
    let r = a / 2 % m * 2 + a % 2 in
    let split : a ≡ 2 * m * (a / 2 / m) + r = omega (arith, div-add-mod (a / 2) m) in
    let small : r < 2 * m = omega (arith, mod-lt (a / 2) h) in
    ap (λ t. t % (2 * m)) split ∙ mul-add-mod_self_left (2 * m) (a / 2 / m) r ∙ mod-eq_of_lt small

pub bit_and-zero : (f a : ℕ) → a ≤ f → bit_and a 0 ≡ 0
bit_and-zero f zero h = refl
bit_and-zero zero (suc a) h = absurd (omega arith)
bit_and-zero (suc f) (suc a) h =
    omega (arith, and_halves (suc a) 0, bit_and-zero f (suc a / 2) (omega arith))

-- A mask of `k` low ones keeps the remainder by `2 ^ k`.
pub bit_and_mask : (k a : ℕ) → bit_and a (low_mask k) ≡ a % 2 ^ k
bit_and_mask zero a = omega (arith, bit_and-zero a a (le_refl a))
bit_and_mask (suc k) a = ground (
  arith,
  and_halves a (low_mask (suc k)),
  pow_suc k,
  pow_pos k,
  mod_double (2 ^ k) a,
  bit_and_mask k (a / 2),
)

differ-one : (d : ℕ) → d < 2 → differ d 1 ≡ 1 - d
differ-one zero h = refl
differ-one (suc zero) h = refl
differ-one (suc (suc d)) h = absurd (omega arith)

-- `^` with all ones is the complement.
pub bit_xor_ones : (k a : ℕ) → a < 2 ^ k → bit_xor a (low_mask k) ≡ low_mask k - a
bit_xor_ones zero zero h = refl
bit_xor_ones zero (suc a) h = absurd (omega arith)
bit_xor_ones (suc k) a h = ground (
  arith,
  xor_halves a (low_mask (suc k)),
  pow_suc k,
  pow_pos k,
  bit_xor_ones k (a / 2),
  differ-one (a % 2),
)

differ-zero : (d : ℕ) → differ d 0 ≡ d
differ-zero zero = refl
differ-zero (suc d) = refl

pub bit_xor-zero : (f a : ℕ) → a ≤ f → bit_xor a 0 ≡ a
bit_xor-zero f zero h = refl
bit_xor-zero zero (suc a) h = absurd (omega arith)
bit_xor-zero (suc f) (suc a) h =
    ground (arith, xor_halves (suc a) 0, bit_xor-zero f (suc a / 2), differ-zero (suc a % 2))

pub bit_or-zero : (f a : ℕ) → a ≤ f → bit_or a 0 ≡ a
bit_or-zero f zero h = refl
bit_or-zero zero (suc a) h = absurd (omega arith)
bit_or-zero (suc f) (suc a) h = ground (arith, or_halves (suc a) 0, bit_or-zero f (suc a / 2))
