-- ===== src/Base/Word.antt =====
-- Machine words as bit patterns: a w-bit integer, signed or not, is a number below 2 ^ w.
-- Arithmetic wraps, as the two's-complement instructions do. A shift whose count is not in the
-- width has no value (`none`), as in C.
use Prim.Native.Nat.{ℕ, ◌+◌, ◌-◌, ◌*◌, ◌/◌, ◌%◌, ◌^◌}
use mathlib.Core.Bool.{Bool, not}
use mathlib.Core.Option.{Option, none, some}
use fide.Base.Tests.{ltb, leb, if◌then◌else◌}

abbrev pub u8 : ℕ → ℕ
u8 n = n % 2 ^ 8

abbrev pub u16 : ℕ → ℕ
u16 n = n % 2 ^ 16

abbrev pub u32 : ℕ → ℕ
u32 n = n % 2 ^ 32

abbrev pub u64 : ℕ → ℕ
u64 n = n % 2 ^ 64

abbrev pub add32 : ℕ → ℕ → ℕ
add32 a b = (a + b) % 2 ^ 32

abbrev pub sub32 : ℕ → ℕ → ℕ
sub32 a b = (a + 2 ^ 32 - b) % 2 ^ 32

abbrev pub mul32 : ℕ → ℕ → ℕ
mul32 a b = a * b % 2 ^ 32

abbrev pub add64 : ℕ → ℕ → ℕ
add64 a b = (a + b) % 2 ^ 64

-- The sign bit of an `int32_t`.
abbrev pub is_neg32 : ℕ → Bool
is_neg32 a = leb (2 ^ 31) a

-- `a < b` between `int32_t`: flipping the sign bit turns the signed order into the unsigned one.
abbrev pub slt32 : ℕ → ℕ → Bool
slt32 a b = ltb ((a + 2 ^ 31) % 2 ^ 32) ((b + 2 ^ 31) % 2 ^ 32)

abbrev pub sle32 : ℕ → ℕ → Bool
sle32 a b = not (slt32 b a)

-- `a < b` between `int64_t`.
abbrev pub slt64 : ℕ → ℕ → Bool
slt64 a b = ltb ((a + 2 ^ 63) % 2 ^ 64) ((b + 2 ^ 63) % 2 ^ 64)

-- `(int64_t)a` of an `int32_t`: the sign is extended.
abbrev pub sext64 : ℕ → ℕ
sext64 a = if is_neg32 a then a + (2 ^ 64 - 2 ^ 32) else a

-- `a >> k` of a signed integer of modulus `m`, for a count in range: rounding towards -∞.
abbrev pub asr : ℕ → ℕ → ℕ → ℕ
asr m a k = if ltb (a * 2) m then a / 2 ^ k else m - 1 - (m - 1 - a) / 2 ^ k

-- Shifts by a computed count, which is an `int32_t` pattern; a negative one is out of range too.
abbrev pub shl32 : ℕ → ℕ → Option ℕ
shl32 a k = if ltb k 32 then some (a * 2 ^ k % 2 ^ 32) else none

abbrev pub asr32 : ℕ → ℕ → Option ℕ
asr32 a k = if ltb k 32 then some (asr (2 ^ 32) a k) else none

abbrev pub shl64 : ℕ → ℕ → Option ℕ
shl64 a k = if ltb k 64 then some (a * 2 ^ k % 2 ^ 64) else none

abbrev pub shr64 : ℕ → ℕ → Option ℕ
shr64 a k = if ltb k 64 then some (a / 2 ^ k) else none

-- `a / b` of unsigned 64-bit integers.
abbrev pub div64 : ℕ → ℕ → Option ℕ
div64 a b = if ltb 0 b then some (a / b) else none
