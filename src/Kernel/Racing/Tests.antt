-- ===== src/Kernel/Racing/Tests.antt =====
-- Orders of the steps for two packets in fully_in-kernel/main/xdp_prog_kern.c, and the theorems
-- about the width of their count there.
use fide.Base.{◌+◌, ◌-◌, ◌^◌, ◌<◌, ◌≡◌, refl, arith, [], ◌∷◌, none, some, Every}
use fide.Kernel.Types.{DataValue}
use fide.Kernel.Racing.{
  to_read, to_grow, to_compare, to_keep, to_store, to_clear, to_narrow, exceeds, act, Machine,
  arrive, advance, claim, Runs, begin, continue,
}
use fide.Kernel.Racing.Fits.{IsCalm, AllCalm, Runs-fit}
use fide.Kernel.Racing.Late.{narrowed_late}
use fide.Kernel.Racing.Twice.{grown_twice}

-- Seven packets, which four bits hold.
abbrev seven : DataValue
seven = record { prev_interval_pkt = 0; cur_interval_pkt = 7; threshold = 0; int_bits = 4 }

grown_twice_example :
    (e : DataValue) × Runs
      (record { counts = seven; tasks = [] })
      (record { counts = e; tasks = [] })
    × (e.cur_interval_pkt ≡ 7 + 2)
    × (e.int_bits ≡ 4 + 2)
    × (e.cur_interval_pkt < 2 ^ (e.int_bits - 2))
grown_twice_example = grown_twice seven (omega arith) (omega arith) (omega arith)

-- The second packet comes before the first is compared, and reads the bits after it.
abbrev eight : DataValue
eight = record seven { cur_interval_pkt = 8 }

abbrev nine : DataValue
nine = record seven { cur_interval_pkt = 9 }

abbrev wide : DataValue
wide = record nine { int_bits = 5 }

abbrev first_packet : Machine
first_packet = record { counts = eight; tasks = to_read ∷ [] }

abbrev both_packets : Machine
both_packets = record { counts = nine; tasks = to_read ∷ to_read ∷ [] }

abbrev first_read : Machine
first_read = record { counts = nine; tasks = to_compare 4 ∷ to_read ∷ [] }

abbrev first_compared : Machine
first_compared = record { counts = nine; tasks = to_grow ∷ to_read ∷ [] }

abbrev first_done : Machine
first_done = record { counts = wide; tasks = to_read ∷ [] }

abbrev second_read : Machine
second_read = record { counts = wide; tasks = to_compare 5 ∷ [] }

abbrev at_rest : DataValue → Machine
at_rest d = record { counts = d; tasks = [] }

abbrev compared_run : Runs (at_rest seven) first_compared
unfolding act exceeds
compared_run =
    continue (at_rest seven) first_read first_compared
      (continue (at_rest seven) both_packets first_read
        (continue (at_rest seven) first_packet both_packets
          (continue (at_rest seven) (at_rest seven) first_packet (begin (at_rest seven))
            (arrive (at_rest seven) (omega arith)))
          (arrive first_packet (omega arith)))
        (advance both_packets [] (to_read ∷ []) to_read (some (to_compare 4)) nine refl
          (omega arith) refl))
      (advance first_read [] (to_read ∷ []) (to_compare 4) (some to_grow) nine refl (omega arith)
        refl)

-- The second packet ends the interval.
abbrev stored : DataValue
stored = record wide { prev_interval_pkt = 9 }

abbrev cleared : DataValue
cleared = record stored { cur_interval_pkt = 0 }

abbrev next : DataValue
next = record cleared { int_bits = 4 }

abbrev second_keeps : Machine
second_keeps = record { counts = wide; tasks = to_keep ∷ [] }

abbrev second_stores : Machine
second_stores = record { counts = wide; tasks = to_store 9 ∷ [] }

abbrev second_clears : Machine
second_clears = record { counts = stored; tasks = to_clear ∷ [] }

abbrev second_narrows : Machine
second_narrows = record { counts = cleared; tasks = to_narrow ∷ [] }

abbrev claimed_run : Runs (at_rest seven) second_keeps
unfolding act exceeds
claimed_run =
    continue (at_rest seven) second_read second_keeps
      (continue (at_rest seven) first_done second_read
        (continue (at_rest seven) first_compared first_done compared_run
          (advance first_compared [] (to_read ∷ []) to_grow none wide refl (omega arith) refl))
        (advance first_done [] [] to_read (some (to_compare 5)) wide refl (omega arith) refl))
      (claim second_read [] [] (to_compare 5) wide refl tt (omega arith) refl)

abbrev next_run : Runs (at_rest seven) (at_rest next)
unfolding act
next_run =
    continue (at_rest seven) second_narrows (at_rest next)
      (continue (at_rest seven) second_clears second_narrows
        (continue (at_rest seven) second_stores second_clears
          (continue (at_rest seven) second_keeps second_stores claimed_run
            (advance second_keeps [] [] to_keep (some (to_store 9)) wide refl (omega arith) refl))
          (advance second_stores [] [] (to_store 9) (some to_clear) stored refl (omega arith) refl))
        (advance second_clears [] [] to_clear (some to_narrow) cleared refl (omega arith) refl))
      (advance second_narrows [] [] to_narrow none next refl (omega arith) refl)

next_run-AllCalm : AllCalm next_run
unfolding AllCalm IsCalm Every next_run claimed_run
next_run-AllCalm =
    (((((((((((tt, tt), tt), tt), tt), tt), tt), tt), tt), tt), tt), (omega arith, tt))

Runs-fit_example : 0 < 2 ^ (4 - 1)
Runs-fit_example =
    Runs-fit seven next (omega arith) (omega arith) (omega arith) (omega arith) next_run
      next_run-AllCalm

-- Nine packets that come late are left with four bits.
narrowed_late_example :
    Runs
      (record { counts = record seven { int_bits = 6 }; tasks = [] })
      (record {
        counts = record seven { prev_interval_pkt = 8; cur_interval_pkt = 9; int_bits = 4 };
        tasks = [];
      })
narrowed_late_example =
    narrowed_late (record seven { int_bits = 6 }) 9 (omega arith) (omega arith) (omega arith)
      (omega arith)
