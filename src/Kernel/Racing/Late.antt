-- ===== src/Kernel/Racing/Late.antt =====
-- Packets that come between the two writes of the end of an interval: `cur_interval_pkt = 0` and
-- `int_bits = 4`.
use native.Mathlib.Nat.{pow-le-pow_right}
use mathlib.Core.Path.{subst}
use fide.Base.{
  ℕ, zero, suc, ◌+◌, ◌-◌, ◌^◌, ◌≤◌, ◌<◌, ◌≡◌, refl, arith, List, [], ◌∷◌, false, none, some, sub32,
  pow_pos,
}
use fide.Kernel.Types.{DataValue}
use fide.Kernel.Racing.{
  Task, to_read, to_compare, to_keep, to_store, to_clear, to_narrow, exceeds, act, Machine, arrive,
  advance, claim, Runs, begin, continue,
}

exceeds-false :
    (bits cur : ℕ) → 1 ≤ bits → bits ≤ 31 → cur < 2 ^ (bits - 1) → exceeds bits cur ≡ some false
unfolding exceeds
exceeds-false bits cur low high h =
    let less_one : sub32 bits 1 ≡ bits - 1 = omega arith in
    let bound = pow-le-pow_right {n = 2} (omega arith) {i = bits - 1} {j = 30} (omega arith) in
    ground (arith, less_one, bound, pow_pos (bits - 1))

compare-done :
    (bits : ℕ) (d : DataValue)
    → exceeds bits d.cur_interval_pkt ≡ some false
    → act (to_compare bits) d ≡ some (none, d)
unfolding act
compare-done bits d e = ground (arith, e)

-- A packet that comes and is counted, with no step of another in between, and adds no bit.
module _ (m0 : Machine) (d : DataValue) (ts : List Task) (low : 1 ≤ d.int_bits)
    (high : d.int_bits ≤ 31) (fits : d.cur_interval_pkt + 1 < 2 ^ (d.int_bits - 1)) where
  abbrev more : DataValue
  more = record d { cur_interval_pkt = d.cur_interval_pkt + 1 }

  small : d.cur_interval_pkt + 1 < 2 ^ 31
  small = omega (
    arith,
    fits,
    pow-le-pow_right {n = 2} (omega arith) {i = d.int_bits - 1} {j = 30} (omega arith),
  )

  came :
      Runs m0 (record { counts = d; tasks = ts })
      → Runs m0 (record { counts = more; tasks = to_read ∷ ts })
  came r =
      let arrived = continue m0 (record { counts = d; tasks = ts }) _ r (arrive _ small) in
      subst
        (λ n. Runs m0 (record { counts = record d { cur_interval_pkt = n }; tasks = to_read ∷ ts }))
        (omega (arith, small)) arrived

  read :
      Runs m0 (record { counts = d; tasks = ts })
      → Runs m0 (record { counts = more; tasks = to_compare d.int_bits ∷ ts })
  unfolding act
  read r =
      continue m0 (record { counts = more; tasks = to_read ∷ ts }) _ (came r)
        (advance _ [] ts to_read (some (to_compare d.int_bits)) more refl (omega arith) refl)

  enough : act (to_compare d.int_bits) more ≡ some (none, more)
  enough =
      compare-done d.int_bits more (exceeds-false d.int_bits (d.cur_interval_pkt + 1) low high fits)

  one_more :
      Runs m0 (record { counts = d; tasks = ts }) → Runs m0 (record { counts = more; tasks = ts })
  one_more r =
      continue m0 (record { counts = more; tasks = to_compare d.int_bits ∷ ts }) _ (read r)
        (advance _ [] ts (to_compare d.int_bits) none more refl (omega arith) enough)

  -- The packet ends the interval, up to its last write.
  ending :
      Runs m0 (record { counts = d; tasks = ts })
      → Runs m0 (record {
        counts = record d { prev_interval_pkt = d.cur_interval_pkt + 1; cur_interval_pkt = 0 };
        tasks = to_narrow ∷ ts;
      })
  unfolding act
  ending r =
      let last = d.cur_interval_pkt + 1 in
      let kept = record more { prev_interval_pkt = last } in
      let m1 : Machine = record { counts = more; tasks = to_keep ∷ ts } in
      let m2 : Machine = record { counts = more; tasks = to_store last ∷ ts } in
      let m3 : Machine = record { counts = kept; tasks = to_clear ∷ ts } in
      let r1 =
        continue m0 (record { counts = more; tasks = to_compare d.int_bits ∷ ts }) m1 (read r)
          (claim _ [] ts (to_compare d.int_bits) more refl tt (omega arith) enough) in
      let r2 =
        continue m0 m1 m2 r1
          (advance m1 [] ts to_keep (some (to_store last)) more refl (omega arith) refl) in
      let r3 =
        continue m0 m2 m3 r2
          (advance m2 [] ts (to_store last) (some to_clear) kept refl (omega arith) refl) in
      continue m0 m3 _ r3 (
        advance m3 [] ts to_clear (some to_narrow) (record kept { cur_interval_pkt = 0 }) refl
          (omega arith) refl)

several :
    (n : ℕ) (m0 : Machine) (d : DataValue) (ts : List Task)
    → 1 ≤ d.int_bits
    → d.int_bits ≤ 31
    → d.cur_interval_pkt + n < 2 ^ (d.int_bits - 1)
    → Runs m0 (record { counts = d; tasks = ts })
    → Runs m0
        (record { counts = record d { cur_interval_pkt = d.cur_interval_pkt + n }; tasks = ts })
several zero m0 d ts low high fits r =
    subst (λ k. Runs m0 (record { counts = record d { cur_interval_pkt = k }; tasks = ts }))
      {x = d.cur_interval_pkt} (omega arith) r
several (suc n) m0 d ts low high fits r =
    subst (λ k. Runs m0 (record { counts = record d { cur_interval_pkt = k }; tasks = ts }))
      {x = d.cur_interval_pkt + n + 1} (omega arith)
      (one_more m0 (record d { cur_interval_pkt = d.cur_interval_pkt + n }) ts low high
        (omega (arith, fits)) (several n m0 d ts low high (omega (arith, fits)) r))

-- Packets that come after the end of an interval has set the count to zero and before it sets
-- `int_bits` to 4 are counted against the bits of the interval before: any number of them that
-- those bits hold can be left with four bits, also more than the seven that four bits hold, from
-- a count that has room for the packet that ends the interval. There is an order of the steps
-- after which no step is left.
pub narrowed_late :
    (d : DataValue) (n : ℕ)
    → 1 ≤ d.int_bits
    → d.int_bits ≤ 31
    → d.cur_interval_pkt + 1 < 2 ^ (d.int_bits - 1)
    → n < 2 ^ (d.int_bits - 1)
    → Runs
        (record { counts = d; tasks = [] })
        (record {
          counts = record d {
            prev_interval_pkt = d.cur_interval_pkt + 1;
            cur_interval_pkt = n;
            int_bits = 4;
          };
          tasks = [];
        })
unfolding act
narrowed_late d n low high fits room =
    let m0 : Machine = record { counts = d; tasks = [] } in
    let ended = record d { prev_interval_pkt = d.cur_interval_pkt + 1; cur_interval_pkt = 0 } in
    let later = record ended { cur_interval_pkt = n } in
    let m1 : Machine = record { counts = later; tasks = to_narrow ∷ [] } in
    let r1 : Runs m0 m1 =
      subst
        (λ k.
          Runs m0
            (record { counts = record ended { cur_interval_pkt = k }; tasks = to_narrow ∷ [] }))
        {x = 0 + n} (omega arith)
        (several n m0 ended (to_narrow ∷ []) low high (omega (arith, room))
          (ending m0 d [] low high fits (begin m0))) in
    continue m0 m1 _ r1
      (advance m1 [] [] to_narrow none (record later { int_bits = 4 }) refl (omega arith) refl)
