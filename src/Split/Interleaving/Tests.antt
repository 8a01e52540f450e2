-- ===== src/Split/Interleaving/Tests.antt =====
-- Orders of the steps for two or three packets in user+ebpf/main/xdp_prog_kern.c, and the theorems there.
use fide.Base.{ℕ, ◌+◌, ◌≡◌, ◌≢◌, refl, arith, List, [], ◌∷◌, none, some}
use fide.HashMap.{lookup, store, add_entry, total}
use fide.Split.{LoggerValue, DataValue, State, new_value}
use fide.Split.Counting.{cur_of}
use fide.Split.Interleaving.{
  Places, Apart, IsFree, placed, Task, to_look, to_insert, insert_any, to_add, add_one, act,
  Machine, Runs, begin, continue, arrive, advance,
}
use fide.Split.Interleaving.Bound.{Within, Runs-Within}
use fide.Split.Interleaving.Sequential.{resting, occurs, came, handle_all, Runs-Sequential}
use fide.Split.Interleaving.Lost.{one_lost}

abbrev seen : LoggerValue
seen = record { prev = 4; cur = 2; entropy = 0 }

abbrev counts : DataValue
counts = record { prev_interval_pkt = 4; cur_interval_pkt = 2 }

abbrev kernel : State
kernel = record {
  logger = (5, seen) ∷ [];
  blacklist = λ k. none;
  data_entry = some counts;
  tx_port = some 0;
}

abbrev own_place : Places
own_place k = k + 20

abbrev idle : Machine
idle = record { kernel = kernel; place = own_place; tasks = [] }

six_missing : lookup 6 kernel.logger ≡ none
unfolding lookup
six_missing = refl

one_lost_example :
    (t : State) × (q : Places) × Runs
      (λ j. j ≡ 6)
      idle
      (record { kernel = t; place = q; tasks = [] })
    × (t.data_entry ≡ some (record counts { cur_interval_pkt = 2 + 2 }))
    × (total cur_of t.logger ≡ total cur_of kernel.logger + 1)
one_lost_example = one_lost kernel own_place counts 6 refl (omega arith) six_missing (omega arith)

idle-Within : Within idle
unfolding total
idle-Within = record { entry = counts; is_entry = refl; bound = omega arith }

-- The source 5 is looked up for one packet, then another packet comes.
abbrev one : Machine
one = record idle {
  kernel = record kernel { data_entry = some (record counts { cur_interval_pkt = 3 }) };
  tasks = to_look 5 ∷ [];
}

abbrev found : Machine
found = record one { tasks = to_add 5 25 ∷ [] }

abbrev two : Machine
two = record found {
  kernel = record kernel { data_entry = some (record counts { cur_interval_pkt = 4 }) };
  tasks = to_look 5 ∷ to_add 5 25 ∷ [];
}

abbrev added : Machine
added = record two {
  kernel = record two.kernel { logger = (5, record seen { cur = 3 }) ∷ [] };
  tasks = to_look 5 ∷ [];
}

kernel-Apart : Apart own_place kernel.logger
kernel-Apart j k h l e = omega arith

-- The element 40 is free, whatever the source 5 has counted.
free : (v : LoggerValue) → IsFree 40 own_place ((5, v) ∷ [])
unfolding lookup
free v j h e = h (ground (arith, e))

two_run : Runs (λ j. j ≡ 5) idle added
unfolding act lookup add_one placed
two_run =
    continue idle two added
      (continue idle found two
        (continue idle one found
          (continue idle idle one (begin idle) (arrive idle 5 counts refl refl (omega arith)))
          (advance one [] [] (to_look 5) 40 refl (free _)))
        (arrive found 5 (record counts { cur_interval_pkt = 3 }) refl refl (omega arith)))
      (advance two (to_look 5 ∷ []) [] (to_add 5 25) 40 refl (free _))

-- Three packets of the source 6, which has no entry: two are looked up before the first of them is
-- inserted, the third after it; then the second is inserted over the first, and the third is added
-- through the pointer to the element of the first, which is not in the map any more.
abbrev waiting : ℕ → List (ℕ × LoggerValue) → Places → List Task → Machine
waiting n m place ts = record {
  kernel = record kernel { logger = m; data_entry = some (record counts { cur_interval_pkt = n }) };
  place = place;
  tasks = ts;
}

abbrev first_place : Places
first_place = placed 50 (to_insert 6) own_place

abbrev second_place : Places
second_place = placed 51 (to_insert 6) first_place

abbrev with_six : List (ℕ × LoggerValue)
with_six = (6, new_value) ∷ (5, seen) ∷ []

abbrev three_wait : List Task → Machine
three_wait ts = waiting 5 ((5, seen) ∷ []) own_place ts

three_came : Runs (λ j. j ≡ 6) idle (three_wait (to_look 6 ∷ to_look 6 ∷ to_look 6 ∷ []))
three_came =
    continue idle (waiting 4 ((5, seen) ∷ []) own_place (to_look 6 ∷ to_look 6 ∷ [])) _
      (continue idle (waiting 3 ((5, seen) ∷ []) own_place (to_look 6 ∷ [])) _
        (continue idle idle _ (begin idle) (arrive idle 6 counts refl refl (omega arith)))
        (arrive _ 6 (record counts { cur_interval_pkt = 3 }) refl refl (omega arith)))
      (arrive _ 6 (record counts { cur_interval_pkt = 4 }) refl refl (omega arith))

five_free : (n : ℕ) → n ≢ 25 → IsFree n own_place ((5, seen) ∷ [])
unfolding lookup
five_free n h j e = ground (arith, h, e)

six_free : IsFree 51 first_place with_six
unfolding lookup placed
six_free j e = ground (arith, e)

again_free : IsFree 52 second_place with_six
unfolding lookup placed
again_free j e = ground (arith, e)

two_looked : Runs (λ j. j ≡ 6) idle (three_wait (to_insert 6 ∷ to_insert 6 ∷ to_look 6 ∷ []))
unfolding act lookup placed
two_looked =
    continue idle (three_wait (to_insert 6 ∷ to_look 6 ∷ to_look 6 ∷ [])) _
      (continue idle (three_wait (to_look 6 ∷ to_look 6 ∷ to_look 6 ∷ [])) _ three_came (
        advance _ [] (to_look 6 ∷ to_look 6 ∷ []) (to_look 6) 50 refl (five_free 50 (omega arith))))
      (advance _ (to_insert 6 ∷ []) (to_look 6 ∷ []) (to_look 6) 50 refl
        (five_free 50 (omega arith)))

overwritten : Runs (λ j. j ≡ 6) idle (waiting 5 with_six second_place (to_add 6 50 ∷ []))
unfolding act lookup placed insert_any add_entry store
overwritten =
    continue idle (waiting 5 with_six first_place (to_insert 6 ∷ to_add 6 50 ∷ [])) _
      (continue idle (waiting 5 with_six first_place (to_insert 6 ∷ to_look 6 ∷ [])) _
        (continue idle (three_wait (to_insert 6 ∷ to_insert 6 ∷ to_look 6 ∷ [])) _ two_looked (
          advance _ [] (to_insert 6 ∷ to_look 6 ∷ []) (to_insert 6) 50 refl
            (five_free 50 (omega arith))))
        (advance _ (to_insert 6 ∷ []) [] (to_look 6) 51 refl six_free))
      (advance _ [] (to_add 6 50 ∷ []) (to_insert 6) 51 refl six_free)

stale_run : Runs (λ j. j ≡ 6) idle (waiting 5 with_six second_place [])
unfolding act placed add_one
stale_run =
    continue idle (waiting 5 with_six second_place (to_add 6 50 ∷ [])) _ overwritten
      (advance _ [] [] (to_add 6 50) 52 refl again_free)

Runs-Within_example : Within (waiting 5 with_six second_place [])
Runs-Within_example = Runs-Within idle (waiting 5 with_six second_place []) stale_run idle-Within

five_known : (k : ℕ) → k ≡ 5 → lookup k kernel.logger ≡ none → ⊥
unfolding lookup
five_known k e h = ground (arith, e, h)

-- The second packet is counted too.
abbrev second_found : Machine
second_found = record added { tasks = to_add 5 25 ∷ [] }

abbrev last : State
last = record added.kernel { logger = (5, record seen { cur = 4 }) ∷ [] }

last_run : Runs (λ j. j ≡ 5) (resting kernel own_place) (resting last own_place)
unfolding act lookup add_one placed
last_run =
    continue idle second_found (resting last own_place)
      (continue idle added second_found two_run (advance added [] [] (to_look 5) 40 refl (free _)))
      (advance second_found [] [] (to_add 5 25) 40 refl (free _))

Runs-Sequential_example :
    (ks : List ℕ) × ((j : ℕ)
      → occurs j ks ≡ occurs j (came (resting kernel own_place) (resting last own_place) last_run))
    × (last ≡ handle_all ks kernel)
Runs-Sequential_example =
    Runs-Sequential (λ j. j ≡ 5) kernel last own_place own_place counts refl five_known kernel-Apart
      last_run
