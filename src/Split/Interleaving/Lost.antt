-- ===== src/Split/Interleaving/Lost.antt =====
-- Two packets of a new source that are looked up before either is inserted.
use native.Mathlib.Decide.{ℕ_discrete}
use mathlib.Core.Path.{subst}
use fide.Base.{
  or_done, ℕ, ◌+◌, ◌^◌, ◌<◌, ◌≡◌, ◌≢◌, refl, ap, arith, List, [], ◌∷◌, ◌++◌, Option, none, some,
  add32, length,
}
use fide.HashMap.{lookup, store, add_entry, total}
use fide.Split.{LoggerValue, DataValue, State, new_value, logger_max_entries}
use fide.Split.Counting.{cur_of}
use fide.Split.Interleaving.{
  Task, to_look, to_insert, insert_any, act, placed, Places, IsFree, Machine, Moves, arrive,
  advance, Runs, begin, continue,
}

-- An element above those of all entries.
unfoldable above : Places → List (ℕ × LoggerValue) → ℕ
above place [] = 0
above place ((k, v) ∷ m) = place k + 1 + above place m

place-above :
    (place : Places) (j : ℕ) (m : List (ℕ × LoggerValue))
    → lookup j m ≢ none
    → place j < above place m
unfolding above lookup
place-above place j [] h = absurd (ground (arith, h))
place-above place j ((k, v) ∷ m) h = elim (ℕ_discrete j k) [
  | yes y ↦ omega (arith, ap place y)
  | no n ↦ omega (arith, place-above place j m (λ x. h (ground (arith, x, n))))
]

above-IsFree : (place : Places) (m : List (ℕ × LoggerValue)) → IsFree (above place m) place m
above-IsFree place m j h = omega (arith, place-above place j m h)

-- A step by its outcome.
advance_to :
    {P : ℕ → Type 0} (s : Machine) (a b : List Task) (t : Task) (o : Option Task)
    (m : List (ℕ × LoggerValue))
    → s.tasks ≡ a ++ t ∷ b
    → act t s.place s.kernel.logger ≡ (o, m)
    → Moves P s (record {
      kernel = record s.kernel { logger = m };
      place = placed (above s.place s.kernel.logger) t s.place;
      tasks = a ++ or_done o b;
    })
advance_to {P} s a b t o m e h =
    let free = above s.place s.kernel.logger in
    subst
      (λ (r : Option Task × List (ℕ × LoggerValue)). Moves P s (record {
        kernel = record s.kernel { logger = r.1 };
        place = placed free t s.place;
        tasks = a ++ or_done r.0 b;
      }))
      h (advance s a b t free e (above-IsFree s.place s.kernel.logger))

module _ (k : ℕ) (m : List (ℕ × LoggerValue)) (fresh : lookup k m ≡ none) (place : Places)
    (slot : length m < logger_max_entries) where
  look-missing : act (to_look k) place m ≡ (some (to_insert k), m)
  unfolding act
  look-missing = ground arith

  insert-first : act (to_insert k) place m ≡ (none, (k, new_value) ∷ m)
  unfolding act insert_any add_entry
  insert-first = ground arith

insert-second :
    (place : Places) (k : ℕ) (m : List (ℕ × LoggerValue))
    → act (to_insert k) place ((k, new_value) ∷ m) ≡ (none, (k, new_value) ∷ m)
unfolding act insert_any lookup store
insert-second place k m = ground arith

-- Two packets of a source without an entry can be counted twice in the interval and once for the
-- source: there is an order of their steps after which no step is left.
pub one_lost :
    (s : State) (place : Places) (d : DataValue) (k : ℕ)
    → s.data_entry ≡ some d
    → d.cur_interval_pkt + 2 < 2 ^ 32
    → lookup k s.logger ≡ none
    → length s.logger < logger_max_entries
    → (t : State) × (q : Places) × Runs
        (λ j. j ≡ k)
        (record { kernel = s; place = place; tasks = [] })
        (record { kernel = t; place = q; tasks = [] })
      × (t.data_entry ≡ some (record d { cur_interval_pkt = d.cur_interval_pkt + 2 }))
      × (total cur_of t.logger ≡ total cur_of s.logger + 1)
unfolding total placed
one_lost s place d k e room fresh slot =
    let one = record d { cur_interval_pkt = add32 d.cur_interval_pkt 1 } in
    let two = record d { cur_interval_pkt = add32 (add32 d.cur_interval_pkt 1) 1 } in
    let place1 = placed (above place s.logger) (to_insert k) place in
    let place2 = placed (above place1 ((k, new_value) ∷ s.logger)) (to_insert k) place1 in
    let s1 = record s { data_entry = some one } in
    let s2 = record s { data_entry = some two } in
    let s3 = record s2 { logger = (k, new_value) ∷ s.logger } in
    let m0 : Machine = record { kernel = s; place = place; tasks = [] } in
    let m1 : Machine = record { kernel = s1; place = place; tasks = to_look k ∷ [] } in
    let m2 : Machine = record { kernel = s2; place = place; tasks = to_look k ∷ to_look k ∷ [] } in
    let m3 : Machine = record {
      kernel = s2;
      place = place;
      tasks = to_insert k ∷ to_look k ∷ [];
    } in
    let m4 : Machine = record {
      kernel = s2;
      place = place;
      tasks = to_insert k ∷ to_insert k ∷ [];
    } in
    let m5 : Machine = record { kernel = s3; place = place1; tasks = to_insert k ∷ [] } in
    let m6 : Machine = record { kernel = s3; place = place2; tasks = [] } in
    let look = look-missing k s.logger fresh place slot in
    let room1 : one.cur_interval_pkt + 1 < 2 ^ 32 = omega arith in
    let r1 = continue m0 m0 m1 (begin m0) (arrive m0 k d refl e (omega arith)) in
    let r2 = continue m0 m1 m2 r1 (arrive m1 k one refl refl room1) in
    let r3 =
      continue m0 m2 m3 r2
        (advance_to m2 [] (to_look k ∷ []) (to_look k) (some (to_insert k)) s.logger refl look) in
    let r4 =
      continue m0 m3 m4 r3
        (advance_to m3 (to_insert k ∷ []) [] (to_look k) (some (to_insert k)) s.logger refl look) in
    let r5 = continue m0 m4 m5 r4 (
      advance_to m4 [] (to_insert k ∷ []) (to_insert k) none ((k, new_value) ∷ s.logger) refl
        (insert-first k s.logger fresh place slot)) in
    let r6 = continue m0 m5 m6 r5 (
      advance_to m5 [] [] (to_insert k) none ((k, new_value) ∷ s.logger) refl
        (insert-second place1 k s.logger)) in
    (s3, place2, r6, ap (λ n. some (record d { cur_interval_pkt = n })) (omega arith), omega arith)
