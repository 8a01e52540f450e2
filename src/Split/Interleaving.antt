-- ===== src/Split/Interleaving.antt =====
-- Packets that several processors handle at once, in user+ebpf/main/xdp_prog_kern.c: the counting
-- of a packet by its steps on the maps, in any order. A step of one map call or one lock_xadd is
-- not divided. An entry stands in an element of the map's memory, to which a lookup gives the
-- pointer; an insertion takes an element that no entry stands in, also where it overwrites one.
pub mod Bound
pub mod Listed
pub mod Lost
pub mod Sequential
mod Tests
use fide.Base.{
  ℕ, ◌+◌, ◌^◌, ◌<◌, ◌≡◌, ◌≢◌, List, [], ◌∷◌, ◌++◌, Option, none, some, add32, or_done, ◌==◌,
  if◌then◌else◌,
}
use fide.HashMap.{lookup, store, add_entry}
use fide.Split.{LoggerValue, DataValue, State, new_value, logger_max_entries}

-- What a processor does next for a packet of a source that it has counted in the interval: look
-- the source up, add through the pointer that it got to an element, or insert an entry.
pub data Task : Type 0 where
  to_look to_insert : ℕ → Task
  to_add : (source element : ℕ) → Task

-- `bpf_map_update_elem` with BPF_ANY: an entry that has come in the meantime is overwritten.
unfoldable pub insert_any : ℕ → LoggerValue → List (ℕ × LoggerValue) → List (ℕ × LoggerValue)
insert_any k v m = elim (lookup k m) [
  | some w ↦ store k v m
  | none ↦ add_entry logger_max_entries k v m
]

-- In which element the entry of each source stands.
abbrev pub Places : Type 0
Places = ℕ → ℕ

-- `lock_xadd` through a pointer to an element: it is the entry that stands there now that gets the
-- packet, of whatever source it is, or none if the element is not in the map any more.
unfoldable pub add_one : Places → ℕ → List (ℕ × LoggerValue) → List (ℕ × LoggerValue)
add_one place element [] = []
add_one place element ((k, v) ∷ m) =
    if place k == element
    then (k, record v { cur = add32 v.cur 1 }) ∷ m
    else (k, v) ∷ add_one place element m

-- One step: the next one for the packet, if it has one, and the map.
unfoldable pub act : Task → Places → List (ℕ × LoggerValue) → Option Task × List (ℕ × LoggerValue)
act (to_look k) place m = elim (lookup k m) [
  | some w ↦ (some (to_add k (place k)), m)
  | none ↦ (some (to_insert k), m)
]
act (to_add k element) place m = (none, add_one place element m)
act (to_insert k) place m = (none, insert_any k new_value m)

-- An entry that is inserted stands in the element `free`.
unfoldable pub placed : ℕ → Task → Places → Places
placed free (to_insert k) place = λ j. if j == k then free else place j
placed free (to_look k) place = place
placed free (to_add k element) place = place

-- The maps, where their entries stand, and the packets that are being counted.
pub record Machine : Type 0 where
  pub kernel : State
  pub place : Places
  pub tasks : List Task

-- No entry stands in the element.
abbrev pub IsFree : ℕ → Places → List (ℕ × LoggerValue) → Type 0
IsFree free place m = (j : ℕ) → lookup j m ≢ none → place j ≢ free

-- No two entries stand in one element.
abbrev pub Apart : Places → List (ℕ × LoggerValue) → Type 0
Apart place m = (j k : ℕ) → lookup j m ≢ none → lookup k m ≢ none → place j ≡ place k → j ≡ k

-- A packet whose source is of the kind `P` comes to a processor, which counts it in the interval;
-- or one of the processors takes its next step.
pub data Moves (P : ℕ → Type 0) : Machine → Machine → Type 0 where
  arrive :
      (s : Machine) (k : ℕ) (d : DataValue)
      → P k
      → s.kernel.data_entry ≡ some d
      → d.cur_interval_pkt + 1 < 2 ^ 32
      → Moves P s (record s {
        kernel = record s.kernel {
          data_entry = some (record d { cur_interval_pkt = add32 d.cur_interval_pkt 1 });
        };
        tasks = to_look k ∷ s.tasks;
      })
  advance :
      (s : Machine) (a b : List Task) (t : Task) (free : ℕ)
      → s.tasks ≡ a ++ t ∷ b
      → IsFree free s.place s.kernel.logger
      → Moves P s (record {
        kernel = record s.kernel { logger = (act t s.place s.kernel.logger).1 };
        place = placed free t s.place;
        tasks = a ++ or_done (act t s.place s.kernel.logger).0 b;
      })

pub data Runs (P : ℕ → Type 0) : Machine → Machine → Type 0 where
  begin : (s : Machine) → Runs P s s
  continue : (s t u : Machine) → Runs P s t → Moves P t u → Runs P s u
