-- ===== src/Loader/Racing/Tests.antt =====
-- Rounds of the loop with packets between its calls, and the theorem about the lost ones there.
use fide.Base.{ℕ, ◌+◌, ◌≡◌, refl, arith, List, [], ◌∷◌, some, Every}
use fide.HashMap.{lookup, store, add_entry}
use fide.HashMap.Walk.{Distinct, erase}
use fide.Split.{LoggerValue, record_source}
use fide.Split.Interleaving.{insert_any}
use fide.Split.Interleaving.Sequential.{occurs}
use fide.Loader.{reset_one}
use fide.Loader.Between.{record_all}
use fide.Loader.Racing.{Turn, turn, turns, all_came}
use fide.Loader.Racing.Numbers.{numbers}
use fide.Loader.Racing.Lost.{all_arrivals, Once, Present, turns-lost}

abbrev busy : LoggerValue
busy = record { prev = 4; cur = 2; entropy = 0 }

abbrev idle : LoggerValue
idle = record { prev = 1; cur = 0; entropy = 0 }

abbrev sources : List (ℕ × LoggerValue)
sources = (10, busy) ∷ (20, idle) ∷ []

-- A packet of 10 comes before its read, one between the read and the write, and one later, when
-- the source 20 is deleted.
abbrev first : Turn
first = record { early = 10 ∷ []; key = 10; between = 10 ∷ 20 ∷ [] }

abbrev second : Turn
second = record { early = 10 ∷ []; key = 20; between = [] }

turns_run :
    turns (first ∷ second ∷ []) sources
    ≡ some (
        (10, record { prev = 3; cur = 1; entropy = 0 })
        ∷ (20, record { prev = 1; cur = 0; entropy = 0 })
        ∷ [])
unfolding turns turn record_all record_source reset_one insert_any lookup store erase add_entry
turns_run = refl

sources-Distinct : Distinct sources
unfolding Distinct lookup
sources-Distinct = (refl, (refl, tt))

both-Once : Once (first ∷ second ∷ [])
unfolding Once Every
both-Once = ((omega arith, tt), (tt, tt))

both-Present : Every (Present sources) (first ∷ second ∷ [])
unfolding Every lookup
both-Present = ((busy, refl), ((idle, refl), tt))

turns-lost_example :
    (m' : List (ℕ × LoggerValue)) × (turns (first ∷ second ∷ []) sources ≡ some m')
    × (numbers (lookup 10 m') ≡ (
      (numbers (lookup 10 sources)).1 + occurs 10 (all_came []) + occurs 10 first.early,
      occurs 10 (all_came (second ∷ [])),
    ))
unfolding all_arrivals numbers lookup
turns-lost_example =
    turns-lost [] first (second ∷ []) sources sources-Distinct both-Once both-Present (omega arith)
      (omega arith)
