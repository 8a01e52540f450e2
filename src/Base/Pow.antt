-- ===== src/Base/Pow.antt =====
-- Powers of two, and the length of a number in binary.
use Prim.Native.Nat.{ℕ, zero, suc, ◌+◌, ◌-◌, ◌*◌, ◌/◌, ◌^◌, ◌≤◌, ◌<◌}
use mathlib.Core.Path.{◌≡◌, refl, ap, sym, ◌≡⟨◌⟩◌, ◌∎}
use native.Mathlib.Nat.{pow-suc, one-le-pow, div-div-eq-div-mul, le-div_iff_mul-le, div-mul-le_self}
use native.Mathlib.Decide.{dec_lt}
use native.Mathlib.Omega.{arith}
use fide.Base.Tests.{◌==◌, if◌then◌else◌}

pub pow_pos : (k : ℕ) → 0 < 2 ^ k
pow_pos k = omega (arith, one-le-pow k 2)

pub pow_suc : (k : ℕ) → 2 ^ suc k ≡ 2 * 2 ^ k
pow_suc k = omega (arith, pow-suc 2 k)

pub pow-add : (a b : ℕ) → 2 ^ (a + b) ≡ 2 ^ a * 2 ^ b
pow-add a zero = ground arith
pow-add a (suc b) =
    2 ^ (a + suc b)
    ≡⟨ ap (λ k. 2 ^ k) (omega arith) ⟩ 2 ^ suc (a + b)
    ≡⟨ omega (arith, pow_suc (a + b), ap (λ (t : ℕ). 2 * t) (pow-add a b)) ⟩ 2 ^ a * (2 * 2 ^ b)
    ≡⟨ ap (λ t. 2 ^ a * t) (sym (pow_suc b)) ⟩ 2 ^ a * 2 ^ suc b ∎

pub div_mono : {a b : ℕ} (c : ℕ) → 0 < c → a ≤ b → a / c ≤ b / c
div_mono {a} {b} c pos h =
    (le-div_iff_mul-le {k = c} {x = a / c} {y = b} pos).1 (omega (arith, div-mul-le_self a c))

-- The number of binary digits, by halving; the first argument is fuel.
unfoldable pub digits_of : ℕ → ℕ → ℕ
digits_of zero x = 0
digits_of (suc f) x = let rest = digits_of f (x / 2) in if x == 0 then 0 else suc rest

unfoldable pub bit_length : ℕ → ℕ
bit_length x = digits_of x x

digits_of_fuel : (f g x : ℕ) → x ≤ f → x ≤ g → digits_of f x ≡ digits_of g x
unfolding digits_of
digits_of_fuel zero zero x p q = refl
digits_of_fuel zero (suc g) x p q = ground arith
digits_of_fuel (suc f) zero x p q = ground arith
digits_of_fuel (suc f) (suc g) x p q = ground (arith, digits_of_fuel f g (x / 2))

pub bit_length-step : (x : ℕ) → 0 < x → bit_length x ≡ suc (bit_length (x / 2))
unfolding bit_length digits_of
bit_length-step zero h = elim h [ ]
bit_length-step (suc x) h = ground (arith, digits_of_fuel x (suc x / 2) (suc x / 2))

pub bit_length-zero : bit_length 0 ≡ 0
unfolding bit_length digits_of
bit_length-zero = refl

le_half : (k x : ℕ) → 2 ^ suc k ≤ x → 2 ^ k ≤ x / 2
le_half k x h = omega (arith, pow_suc k)

pub bit_length-one : bit_length 1 ≡ 1
unfolding bit_length digits_of
bit_length-one = refl

pub bit_length-div : (k x : ℕ) → 2 ^ k ≤ x → bit_length x ≡ k + bit_length (x / 2 ^ k)
bit_length-div zero x h = ground arith
bit_length-div (suc k) x h = ground (
  arith,
  pow_suc k,
  pow_pos k,
  bit_length-step x,
  bit_length-div k (x / 2) (le_half k x h),
  div-div-eq-div-mul x 2 (2 ^ k),
)

-- The length of a number is where its leading one stands.
pub lt-bit_length : (f x : ℕ) → x ≤ f → x < 2 ^ bit_length x
lt-bit_length zero zero h = rw bit_length-zero (omega arith)
lt-bit_length zero (suc x) h = absurd (omega arith)
lt-bit_length (suc f) zero h = rw bit_length-zero (omega arith)
lt-bit_length (suc f) (suc x) h =
    ground (
      arith,
      bit_length-step (suc x),
      pow_suc (bit_length (suc x / 2)),
      lt-bit_length f (suc x / 2),
    )

pub bit_length-le : (k x : ℕ) → x < 2 ^ k → bit_length x ≤ k
bit_length-le zero zero h = rw bit_length-zero (omega arith)
bit_length-le zero (suc x) h = absurd (omega arith)
bit_length-le (suc k) zero h = rw bit_length-zero (omega arith)
bit_length-le (suc k) (suc x) h =
    ground (arith, bit_length-step (suc x), bit_length-le k (suc x / 2), pow_suc k)

pub bit_length-gt : (k x : ℕ) → 2 ^ k ≤ x → k < bit_length x
bit_length-gt zero zero h = absurd (omega arith)
bit_length-gt zero (suc x) h = omega (arith, bit_length-step (suc x) (omega arith))
bit_length-gt (suc k) zero h = absurd (omega (arith, pow_pos (suc k)))
bit_length-gt (suc k) (suc x) h =
    ground (arith, bit_length-step (suc x), bit_length-gt k (suc x / 2), pow_suc k)

pub pow-bit_length-le : (x : ℕ) → 0 < x → 2 ^ (bit_length x - 1) ≤ x
pow-bit_length-le x pos =
    let one = bit_length-gt 0 x pos in
    elim (dec_lt x (2 ^ (bit_length x - 1))) [
      | yes h ↦ absurd (omega (arith, bit_length-le (bit_length x - 1) x h))
      | no h ↦ omega arith
    ]
