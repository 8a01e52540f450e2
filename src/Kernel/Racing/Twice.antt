-- ===== src/Kernel/Racing/Twice.antt =====
-- Two packets whose counts are compared before either adds to `int_bits`.
use native.Mathlib.Nat.{pow-le-pow_right}
use fide.Base.{
  ℕ, ◌+◌, ◌-◌, ◌^◌, ◌≤◌, ◌<◌, ◌≡◌, refl, ap, arith, [], ◌∷◌, true, none, some, add32, sub32,
  pow_pos,
}
use fide.Kernel.Types.{DataValue}
use fide.Kernel.Racing.{
  to_read, to_grow, to_compare, exceeds, act, Machine, arrive, advance, Runs, begin, continue,
}
use fide.Kernel.Racing.Growth.{double}

exceeds-true :
    (bits cur : ℕ)
    → 1 ≤ bits
    → bits ≤ 31
    → cur < 2 ^ 31
    → 2 ^ (bits - 1) ≤ cur
    → exceeds bits cur ≡ some true
unfolding exceeds
exceeds-true bits cur low high small h =
    let less_one : sub32 bits 1 ≡ bits - 1 = omega arith in
    let bound = pow-le-pow_right {n = 2} (omega arith) {i = bits - 1} {j = 30} (omega arith) in
    ground (arith, less_one, bound, pow_pos (bits - 1))

compare-grows :
    (bits : ℕ) (d : DataValue)
    → exceeds bits d.cur_interval_pkt ≡ some true
    → act (to_compare bits) d ≡ some (some to_grow, d)
unfolding act
compare-grows bits d e = ground (arith, e)

-- From a count that is the largest that its bits hold, two packets can add two bits, although the
-- count then would fit in one bit less: there is an order of their steps after which no step is
-- left.
pub grown_twice :
    (d : DataValue)
    → 3 ≤ d.int_bits
    → d.int_bits ≤ 30
    → d.cur_interval_pkt + 1 ≡ 2 ^ (d.int_bits - 1)
    → (e : DataValue) × Runs (record { counts = d; tasks = [] }) (record { counts = e; tasks = [] })
      × (e.cur_interval_pkt ≡ d.cur_interval_pkt + 2)
      × (e.int_bits ≡ d.int_bits + 2)
      × (e.cur_interval_pkt < 2 ^ (e.int_bits - 2))
unfolding act
grown_twice d low high full =
    let b = d.int_bits in
    let bound = pow-le-pow_right {n = 2} (omega arith) {i = b - 1} {j = 29} (omega arith) in
    let four = pow-le-pow_right {n = 2} (omega arith) {i = 2} {j = b - 1} (omega arith) in
    let d1 = record d { cur_interval_pkt = add32 d.cur_interval_pkt 1 } in
    let d2 = record d { cur_interval_pkt = add32 (add32 d.cur_interval_pkt 1) 1 } in
    let d3 = record d2 { int_bits = add32 b 1 } in
    let d4 = record d2 { int_bits = add32 (add32 b 1) 1 } in
    let m0 : Machine = record { counts = d; tasks = [] } in
    let m1 : Machine = record { counts = d1; tasks = to_read ∷ [] } in
    let m2 : Machine = record { counts = d2; tasks = to_read ∷ to_read ∷ [] } in
    let m3 : Machine = record { counts = d2; tasks = to_compare b ∷ to_read ∷ [] } in
    let m4 : Machine = record { counts = d2; tasks = to_compare b ∷ to_compare b ∷ [] } in
    let m5 : Machine = record { counts = d2; tasks = to_grow ∷ to_compare b ∷ [] } in
    let m6 : Machine = record { counts = d2; tasks = to_grow ∷ to_grow ∷ [] } in
    let m7 : Machine = record { counts = d3; tasks = to_grow ∷ [] } in
    let m8 : Machine = record { counts = d4; tasks = [] } in
    let more : act (to_compare b) d2 ≡ some (some to_grow, d2) = compare-grows b d2 (
      exceeds-true b d2.cur_interval_pkt (omega arith) (omega arith) (omega (arith, bound, full))
        (omega (arith, bound, full))) in
    let r2 =
      continue m0 m1 m2 (continue m0 m0 m1 (begin m0) (arrive m0 (omega (arith, bound, full))))
        (arrive m1 (omega (arith, bound, full))) in
    let r3 =
      continue m0 m2 m3 r2
        (advance m2 [] (to_read ∷ []) to_read (some (to_compare b)) d2 refl (omega arith) refl) in
    let r4 = continue m0 m3 m4 r3 (
      advance m3 (to_compare b ∷ []) [] to_read (some (to_compare b)) d2 refl (omega arith) refl) in
    let r5 = continue m0 m4 m5 r4 (
      advance m4 [] (to_compare b ∷ []) (to_compare b) (some to_grow) d2 refl (omega arith) more) in
    let r6 =
      continue m0 m5 m6 r5
        (advance m5 (to_grow ∷ []) [] (to_compare b) (some to_grow) d2 refl (omega arith) more) in
    let r7 =
      continue m0 m6 m7 r6 (advance m6 [] (to_grow ∷ []) to_grow none d3 refl (omega arith) refl) in
    let r8 = continue m0 m7 m8 r7 (advance m7 [] [] to_grow none d4 refl (omega arith) refl) in
    let power : 2 ^ (add32 (add32 b 1) 1 - 2) ≡ 2 ^ b = ap (λ k. 2 ^ k) (omega arith) in
    (
      d4,
      r8,
      omega (arith, bound, full),
      omega arith,
      omega (arith, power, double b (omega arith), bound, four, full),
    )
